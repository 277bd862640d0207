-- ===== src/RoutePolicy.antt =====
-- internal/policy/policy.go and internal/routeaction/policy.go: the ordered policy of request paths,
-- and the inventory of actions.
pub mod Matching
pub mod Governed
pub mod Inventory
use my_kb.Prelude.{
  ℕ, ◌+◌, Bool, true, false, ◌||◌, ◌&&◌, not, String, ◌==◌, ◌=ℕ=◌, Option, none, some, List, [],
  ◌∷◌, length, member, if◌then◌else◌,
}
use Prim.Native.String as Str
use text.Mathlib.Text.{starts_with}
use my_kb.Text.{contains}
use my_kb.Authorization.{Action, valid_action, unknown}

-- A Go string type with named values: `other` holds every other text.
pub data Classification : Type 0 where
  disabled kb_policy_controlled pass_through : Classification
  other : String → Classification

unfoldable pub known_classification : Classification → Bool
known_classification (other s) = false
known_classification _ = true

-- A rule of the document, before its pattern is compiled.
pub record Rule : Type 0 where
  pub id : String
  pub classification : Classification
  pub path_regex : String

-- The decoded document.
pub record Document : Type 0 where
  pub schema_version : ℕ
  pub upstream_tag : String
  pub upstream_commit : String
  pub expected_route_count : ℕ
  pub rules : List Rule

pub record Compiled : Type 0 where
  pub rule : Rule
  pub accepts : String → Bool

pub record Decision : Type 0 where
  pub classification : Classification
  pub rule_id : String

-- regexp: Compile, whose result is MatchString, and the two ReplaceAllString of expandGinParameters.
pub record Regexp : Type 0 where
  pub compile : String → Option (String → Bool)
  pub expand : String → String

-- The loop of Load.
unfoldable pub load_rules : Regexp → List String → List Rule → Option (List Compiled)
load_rules regexp seen [] = some []
load_rules regexp seen (r ∷ rs) =
    let rest = load_rules regexp (r.id ∷ seen) rs in
    if r.id == "" || member r.id seen || not (known_classification r.classification)
    then none
    else elim (regexp.compile (regexp.expand r.path_regex)) [
      | none ↦ none
      | some accepts ↦ elim rest [
        | none ↦ none
        | some cs ↦ some ((record { rule = r; accepts = accepts }) ∷ cs)
      ]
    ]

abbrev commit : String
commit = "1edcd54b43606d9079bb36650efe3f68707a79ea"

unfoldable pub is_pinned : String → Document → Bool
is_pinned version d =
    d.schema_version =ℕ= 1
    && d.upstream_tag == version
    && d.upstream_commit == commit
    && d.expected_route_count =ℕ= 429

-- Load after the file is read and decoded; `none` is an error.
unfoldable pub load : Regexp → String → Document → Option (List Compiled)
load regexp version d =
    if not (is_pinned version d) || length d.rules =ℕ= 0 then none else load_rules regexp [] d.rules

-- Policy.Match
unfoldable pub match_policy : List Compiled → String → Option Decision
match_policy [] path = none
match_policy (c ∷ cs) path =
    let rest = match_policy cs path in
    if c.accepts path
    then some (record { classification = c.rule.classification; rule_id = c.rule.id })
    else rest

-- The request's URL: EscapedPath in lower case, and Path. `clean` is path.Clean.
pub record Url : Type 0 where
  pub escaped : String
  pub path : String

unfoldable pub is_ambiguous : Url → Bool
is_ambiguous u = contains u.escaped "%2f" || contains u.escaped "%5c" || contains u.escaped "%00"

unfoldable pub is_malformed : Url → Bool
is_malformed u =
    u.path == "" || not (starts_with u.path "/") || contains u.path "\\" || contains u.path "\0"

-- NormalizeRequestPath; `none` is an error.
unfoldable pub normalize_path : (String → String) → Url → Option String
normalize_path clean u =
    if is_ambiguous u
    then none
    else if is_malformed u
    then none
    else if not (u.path == clean u.path) && not (u.path == Str.◌++◌ (clean u.path) "/")
    then none
    else some u.path

-- rule of routeaction, before its patterns are compiled.
pub record ActionEntry : Type 0 where
  pub id : String
  pub action : Action
  pub method_regex : String
  pub path_regex : String

-- The decoded document of routeaction.
pub record ActionDocument : Type 0 where
  pub schema_version : ℕ
  pub upstream_tag : String
  pub upstream_commit : String
  pub expected_kb_route_count : ℕ
  pub rules : List ActionEntry

-- rule of routeaction, with its compiled patterns.
pub record ActionRule : Type 0 where
  pub id : String
  pub action : Action
  pub method : String → Bool
  pub path : String → Bool

unfoldable pub compile_action : Regexp → ActionEntry → Option ActionRule
compile_action regexp e = elim (regexp.compile e.method_regex) [
  | none ↦ none
  | some method ↦ elim (regexp.compile (regexp.expand e.path_regex)) [
    | none ↦ none
    | some path ↦ some (record { id = e.id; action = e.action; method = method; path = path })
  ]
]

-- The loop of routeaction's Load.
unfoldable pub load_action_rules :
    Regexp → List String → List ActionEntry → Option (List ActionRule)
load_action_rules regexp seen [] = some []
load_action_rules regexp seen (e ∷ es) =
    let rest = load_action_rules regexp (e.id ∷ seen) es in
    if e.id == "" || member e.id seen || not (valid_action e.action)
    then none
    else elim (compile_action regexp e) [
      | none ↦ none
      | some r ↦ elim rest [ none ↦ none | some rs ↦ some (r ∷ rs) ]
    ]

unfoldable pub is_pinned_inventory : String → ActionDocument → Bool
is_pinned_inventory version d =
    d.schema_version =ℕ= 1
    && d.upstream_tag == version
    && d.upstream_commit == commit
    && d.expected_kb_route_count =ℕ= 170

-- routeaction's Load after the file is read and decoded; `none` is an error.
unfoldable pub load_actions : Regexp → String → ActionDocument → Option (List ActionRule)
load_actions regexp version d =
    if not (is_pinned_inventory version d) || length d.rules =ℕ= 0
    then none
    else load_action_rules regexp [] d.rules

unfoldable pub covers : String → String → ActionRule → Bool
covers method path r = r.method method && r.path path

-- The loop of routeaction's Match: the last action and the number of matches.
unfoldable pub scan_actions : String → String → Action × ℕ → List ActionRule → Action × ℕ
scan_actions method path found [] = found
scan_actions method path (last, n) (r ∷ rs) =
    scan_actions method path (if covers method path r then (r.action, n + 1) else (last, n)) rs

-- routeaction's Match
unfoldable pub match_action : String → String → List ActionRule → Action × Bool
match_action method path rules =
    let (action, n) = scan_actions method path (unknown "", 0) rules in (action, n =ℕ= 1)
