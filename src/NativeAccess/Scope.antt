-- ===== src/NativeAccess/Scope.antt =====
-- internal/nativeaccess/scope.go, agent.go and agent_capabilities.go: the knowledge bases that a
-- retrieval on a native route may use, by what the upstream shows to the same credentials.
pub mod Values
pub mod Checked
pub mod Exact
pub mod Resolution
use my_kb.Prelude.{
  ℕ, Bool, true, false, ◌&&◌, ◌||◌, not, String, ◌==◌, ◌=ℕ=◌, ltb, Option, none, some, List, [],
  ◌∷◌, ◌++◌, length, if◌then◌else◌,
}
use Prim.Native.String as Str
use my_kb.Result.{Result, ok, err, Exec, fail, fail_if, pure, lift, attempt, ◌>>=◌, ◌>>◌}
use my_kb.Http.{Headers}
use my_kb.Json.{Json, object, Fields, get, as_object, as_array, is_null, is_true, is_text}
use my_kb.NativeAccess.{Actor, Err, refused, upstream}
use my_kb.NativeAccess.Scope.Values.{
  Envelope, invalid_response, valid_id, unique, subset, content_of, or_invalid, listed_ids,
  upstream_denied, unlisted, is_missing, serves, uint_value, select_agents, config_error,
  selection_mode, needs_rag, needs_wiki,
}

-- NativeReader.NativeRequest with the method GET, decoded; url.PathEscape, and the number that
-- strconv.ParseUint gives.
pub record Native (S : Type 0) : Type 0 where
  pub request : String → List (String × String) → Headers → Exec S Err (Option Envelope)
  pub escape : String → String
  pub parse_uint : String → ℕ

-- The answer of CheckKB must be the knowledge base that was asked for.
unfoldable pub is_kb : String → Json → Bool
is_kb id value = elim (as_object value) [ none ↦ false | some kb ↦ is_text id (get "id" kb) ]

-- The tests of Resolve on a list of ids before it is used.
abbrev pub too_large : Err
too_large = refused 422 "scope.too_large"

module _ {S : Type 0} (native : Native S) (h : Headers) where
  -- ScopeService.data
  unfoldable pub read_data : String → List (String × String) → Exec S Err Json
  read_data path query = do answer ← native.request path query h; lift (content_of answer)

  unfoldable pub read_kb : String → Exec S Err Json
  read_kb id = read_data (Str.◌++◌ "/api/v1/knowledge-bases/" (native.escape id)) []

  -- ScopeService.CheckKB
  unfoldable pub check_kb : String → Exec S Err (Unit {0})
  check_kb id =
      fail_if (not (valid_id id)) (refused 400 "scope.invalid_id")
        (do value ← read_kb id; fail_if (not (is_kb id value)) invalid_response (pure tt))

  -- The loop of Resolve over the ids of the request.
  unfoldable pub check_all : List String → Exec S Err (Unit {0})
  check_all [] = pure tt
  check_all (id ∷ ids) = do check_kb id; check_all ids

  listed : Json → Exec S Err (List String)
  listed value = if is_null value then pure [] else (do
    rows ← lift (or_invalid (as_array value))
    ids ← lift (listed_ids rows)
    pure (unique ids))

  -- ScopeService.listIDs
  unfoldable pub list_ids : String → List (String × String) → Exec S Err (List String)
  unfolding listed
  list_ids path query = do value ← read_data path query; listed value

  -- What CheckKB returned for one id in the loop of available, and the ids to come.
  unfoldable pub after_check :
      String → Exec S Err (List String) → Result Err (Unit {0}) → Exec S Err (List String)
  after_check id rest (ok u) = do ids ← rest; pure (id ∷ ids)
  after_check id rest (err e) = if upstream_denied e then rest else fail e

  -- The loop of available.
  unfoldable pub available_of : List String → Exec S Err (List String)
  available_of [] = pure []
  available_of (id ∷ ids) = do
    checked ← attempt (check_kb id)
    after_check id (available_of ids) checked

  -- ScopeService.available
  unfoldable pub available : List String → Exec S Err (List String)
  available ids = available_of (unique ids)

  -- What the shared list returned in Defaults.
  unfoldable pub after_shared : List String → Result Err (List String) → Exec S Err (List String)
  after_shared ids (ok shared) =
      let both = unique (ids ++ shared) in
      fail_if (ltb 256 (length both)) too_large (available both)
  after_shared ids (err e) =
      fail_if (not (unlisted h e)) e
        (let own = unique ids in fail_if (ltb 256 (length own)) too_large (available own))

  -- ScopeService.Defaults
  unfoldable pub defaults : Exec S Err (List String)
  defaults = do
    ids ← list_ids "/api/v1/knowledge-bases" []
    shared ← attempt (list_ids "/api/v1/shared-knowledge-bases" [])
    after_shared ids shared

  selected : Err → Option Fields → Exec S Err Json
  selected missing none = fail missing
  selected missing (some agent) = pure (object agent)

  shared_agent : String → Err → Json → Exec S Err Json
  unfolding selected
  shared_agent id missing value = fail_if (is_null value) missing (do
    rows ← lift (or_invalid (as_array value))
    agent ← lift (select_agents native.parse_uint id rows none)
    selected missing agent)

  own_agent : String → Result Err Json → Exec S Err Json
  unfolding shared_agent
  own_agent id (ok value) = pure value
  own_agent id (err e) =
      fail_if (not (is_missing e)) e
        (do value ← read_data "/api/v1/shared-agents" []; shared_agent id e value)

  -- ScopeService.agent
  unfoldable pub agent : String → Exec S Err Json
  unfolding own_agent
  agent id = do
    found ← attempt (read_data (Str.◌++◌ "/api/v1/agents/" (native.escape id)) [])
    own_agent id found

  -- The loop of compatible.
  unfoldable pub compatible_of : Bool → Bool → List String → Exec S Err (List String)
  compatible_of rag wiki [] = pure []
  compatible_of rag wiki (id ∷ ids) = do
    value ← read_kb id
    fits ← lift (serves rag wiki value)
    rest ← compatible_of rag wiki ids
    pure (if fits then id ∷ rest else rest)

  -- ScopeService.compatible
  unfoldable pub compatible : List String → Fields → Exec S Err (List String)
  compatible ids config =
      if not (needs_rag config) && not (needs_wiki config)
      then pure ids
      else compatible_of (needs_rag config) (needs_wiki config) ids
