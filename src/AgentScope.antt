-- ===== src/AgentScope.antt =====
-- internal/agentscope/resolver.go: the knowledge bases that an agent's request may use.
pub mod Exact
use my_kb.Prelude.{
  ℕ, Bool, true, false, ◌||◌, not, String, ◌==◌, ◌=ℕ=◌, ltb, List, [], ◌∷◌, map, length, len,
  order_by, if◌then◌else◌,
}
use my_kb.Result.{Result, ok, err, Exec, fail, fail_if, pure, lift, attempt, wrap, ◌>>=◌, ◌>>◌}
use my_kb.Text.{is_blank, trim_space, at_most, first_of_each}
use my_kb.Http.{Headers}
use my_kb.Paging.{Page}
use my_kb.Profile.{ProductMode}
use my_kb.Authorization as Decisions
use my_kb.Authorization.{Principal, Decision, Action, read, Role, Source, public_source}
use my_kb.Library as Library
use my_kb.Library.{View, everything}

pub data Err : Type 0 where
  invalid denied too_large unavailable : Err

-- A Go string type with named values: `unknown` holds every other text.
pub data Selection : Type 0 where
  default explicit : Selection
  unknown : String → Selection

pub record Request : Type 0 where
  pub selection : Selection
  pub knowledge_base_ids : List String

pub record Entry : Type 0 where
  pub knowledge_base_id : String
  pub role : Role
  pub access_source : Source
  pub product_mode : ProductMode

pub record Scope : Type 0 where
  pub selection : Selection
  pub knowledge_base_ids : List String
  pub entries : List Entry

-- Library and Decisions.
pub record Readers (S : Type 0) : Type 0 where
  pub list : View → ℕ → ℕ → Principal → Headers → Exec S Library.Err (Page Library.Item)
  pub authorize : String → Principal → Action → Headers → Exec S Decisions.Err Decision

-- The loop of normalizeIDs: trimming and the tests; equal texts are left out afterwards, which
-- gives the same, since an error is returned whatever was kept.
unfoldable pub trimmed : List String → Result Err (List String)
trimmed [] = ok []
trimmed (v ∷ vs) =
    let rest = trimmed vs in
    let value = trim_space v in
    if value == "" || ltb 128 (len value)
    then err invalid
    else elim rest [ err e ↦ err e | ok values ↦ ok (value ∷ values) ]

-- normalizeIDs
unfoldable pub normalize_ids : List String → Result Err (List String)
normalize_ids values =
    if length values =ℕ= 0 || ltb 64 (length values)
    then (if ltb 64 (length values) then err too_large else err invalid)
    else elim (trimmed values) [
      | err e ↦ err e
      | ok ids ↦ ok (order_by at_most (first_of_each [] ids))
    ]

-- `entries[i].KnowledgeBaseID < entries[j].KnowledgeBaseID`; of two entries with one id the first stays first, which sort.Slice does
-- not promise.
unfoldable pub before : Entry → Entry → Bool
before a b = at_most a.knowledge_base_id b.knowledge_base_id

-- result
unfoldable pub scope_of : Selection → List Entry → Scope
scope_of selection entries =
    let sorted = order_by before entries in
    record {
      selection = selection;
      knowledge_base_ids = map (λ (e : Entry). e.knowledge_base_id) sorted;
      entries = sorted;
    }

unfoldable pub is_public : Source → Bool
is_public public_source = true
is_public _ = false

-- The loop of resolveDefault.
unfoldable pub default_entries : List Library.Item → List Entry
default_entries [] = []
default_entries (item ∷ items) =
    let rest = default_entries items in
    if is_public item.access_source
    then rest
    else (record {
      knowledge_base_id = item.id;
      role = item.role;
      access_source = item.access_source;
      product_mode = item.product_mode;
    })
      ∷ rest

-- What Authorize returned for one id.
unfoldable pub after_authorize : String → Result Decisions.Err Decision → Result Err Entry
after_authorize id (ok d) = ok (record {
  knowledge_base_id = id;
  role = d.role;
  access_source = d.source;
  product_mode = d.product_mode;
})
after_authorize id (err Decisions.Err.denied) = err denied
after_authorize id (err Decisions.Err.not_found) = err denied
after_authorize id (err e) = err unavailable

module _ {S : Type 0} (readers : Readers S) (p : Principal) (headers : Headers) where
  -- Resolver.resolveDefault
  unfoldable pub resolve_default : Exec S Err Scope
  resolve_default = do
    page ← wrap (λ _. unavailable) (readers.list everything 1 64 p headers)
    fail_if (ltb 64 page.total) too_large (pure (scope_of default (default_entries page.items)))

  -- The loop of resolveExplicit.
  unfoldable pub authorize_all : List String → Exec S Err (List Entry)
  authorize_all [] = pure []
  authorize_all (id ∷ ids) = do
    found ← attempt (readers.authorize id p read headers)
    entry ← lift (after_authorize id found)
    entries ← authorize_all ids
    pure (entry ∷ entries)

  -- Resolver.resolveExplicit
  unfoldable pub resolve_explicit : List String → Exec S Err Scope
  resolve_explicit values = do
    ids ← lift (normalize_ids values)
    entries ← authorize_all ids
    pure (scope_of explicit entries)

  by_selection : Selection → List String → Exec S Err Scope
  by_selection default ids = fail_if (not (length ids =ℕ= 0)) invalid resolve_default
  by_selection explicit ids = resolve_explicit ids
  by_selection (unknown s) ids = fail invalid

  -- Resolver.Resolve
  unfoldable pub resolve : Request → Exec S Err Scope
  unfolding by_selection
  resolve request =
      fail_if (is_blank p.user_id || p.tenant_id =ℕ= 0) invalid
        (by_selection request.selection request.knowledge_base_ids)
