-- ===== src/NativeAccess/Routes.antt =====
-- internal/nativeaccess/routes.go: the table of native routes.
pub mod Specific
use my_kb.Prelude.{
  ℕ, ◌+◌, Bool, true, false, ◌||◌, ◌&&◌, not, String, ◌==◌, ◌=ℕ=◌, leb, Option, none, some, List,
  [], ◌∷◌, any, map, length, len, member, find_row, order_by, if◌then◌else◌,
}
use Prim.Native.Char.{Char}
use Prim.Native.String as Str
use text.Mathlib.Text.{starts_with}
use my_kb.Text.{split, join}

-- An entry of the manifest; the baseline rule and the handler are not read.
pub record Entry : Type 0 where
  pub method : String
  pub path : String
  pub disposition : String
  pub checks : List String

-- Route, with its compiled pattern.
pub record Route : Type 0 where
  pub entry : Entry
  pub pattern : String → Bool

-- The decoded manifest.
pub record Document : Type 0 where
  pub schema_version : ℕ
  pub tag : String
  pub commit : String
  pub routes : List Entry

-- regexp: Compile, whose result is MatchString, and QuoteMeta.
pub record Regexp : Type 0 where
  pub compile : String → Option (String → Bool)
  pub quote : String → String

abbrev slash : Char
slash = "/"

-- The loop of specificity.
parts_score : List String → ℕ
parts_score [] = 0
parts_score (part ∷ parts) =
    let rest = parts_score parts in
    if not (part == "") && not (starts_with part ":") && not (starts_with part "*")
    then 100 + len part + rest
    else rest

-- specificity
unfoldable pub specificity : String → ℕ
unfolding parts_score
specificity path = parts_score (split slash path)

part_pattern : Regexp → String → String
part_pattern regexp part =
    if starts_with part ":"
    then "[^/]+"
    else if starts_with part "*"
    then ".*"
    else regexp.quote part

path_pattern : Regexp → String → String
unfolding part_pattern
path_pattern regexp path =
    Str.◌++◌ "^" (Str.◌++◌ (join (map (part_pattern regexp) (split slash path)) "/") "$")

unfoldable pub key_of : Entry → String
key_of e = Str.◌++◌ e.method (Str.◌++◌ " " e.path)

unfoldable pub bad_entry : List String → Entry → Bool
unfolding key_of
bad_entry seen e =
    member (key_of e) seen
    || not (starts_with e.path "/")
    || e.method == ""
    || (not (e.disposition == "native") && not (e.disposition == "disabled"))

-- The loop of LoadRoutes.
unfoldable pub load_entries : Regexp → List String → List Entry → Option (List Route)
unfolding path_pattern
load_entries regexp seen [] = some []
load_entries regexp seen (e ∷ es) =
    let rest = load_entries regexp (key_of e ∷ seen) es in
    if bad_entry seen e then none else elim (regexp.compile (path_pattern regexp e.path)) [
      | none ↦ none
      | some pattern ↦ elim rest [
        | none ↦ none
        | some routes ↦ some ((record { entry = e; pattern = pattern }) ∷ routes)
      ]
    ]

unfoldable pub is_pinned : Document → Bool
is_pinned d =
    d.schema_version =ℕ= 1
    && d.tag == "v0.8.0"
    && d.commit == "1edcd54b43606d9079bb36650efe3f68707a79ea"
    && length d.routes =ℕ= 429

-- Of two routes, the more specific stands first, and of equally specific ones the earlier.
unfoldable pub ahead : Route → Route → Bool
ahead a b = leb (specificity b.entry.path) (specificity a.entry.path)

-- sort.SliceStable on the routes.
unfoldable pub sorted : List Route → List Route
sorted routes = order_by ahead routes

-- LoadRoutes after the file is read and decoded; `none` is an error.
unfoldable pub load_routes : Regexp → Document → Option (List Route)
load_routes regexp d =
    if not (is_pinned d)
    then none
    else elim (load_entries regexp [] d.routes) [ none ↦ none | some routes ↦ some (sorted routes) ]

unfoldable pub accepts : String → String → Route → Bool
accepts method path r = method == r.entry.method && r.pattern path

-- Routes.Match
unfoldable pub match_route : String → String → List Route → Option Route
match_route method path routes = find_row (accepts method path) routes
