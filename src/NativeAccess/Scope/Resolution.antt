-- ===== src/NativeAccess/Scope/Resolution.antt =====
-- internal/nativeaccess/scope.go: Resolve and CheckSession.
use my_kb.Prelude.{
  Bool, true, false, ◌&&◌, not, String, ◌==◌, ◌=ℕ=◌, ltb, Option, none, some, List, [], ◌∷◌, length,
  if◌then◌else◌,
}
use my_kb.Result.{Exec, fail, fail_if, pure, lift, ◌>>=◌, ◌>>◌}
use my_kb.Http.{Headers}
use my_kb.Json.{Fields, get, as_object, is_true, strings_value}
use my_kb.NativeAccess.{Actor, same_actor, Err, refused}
use my_kb.NativeAccess.Sessions.{SessionBinding}
use my_kb.NativeAccess.Scope.Values.{
  valid_id, unique, subset, or_invalid, config_error, selection_mode, uint_value,
}
use my_kb.NativeAccess.Scope.{
  Native, check_all, list_ids, available, defaults, agent, compatible, too_large,
}

-- The last test of Resolve.
unfoldable pub not_empty : {S : Type 0} → List String → Exec S Err (List String)
not_empty ids = fail_if (length ids =ℕ= 0) (refused 403 "scope.empty") (pure (unique ids))

unfoldable pub fail_with : {S : Type 0} → Option Err → Exec S Err (Unit {0})
fail_with none = pure tt
fail_with (some e) = fail e

-- SessionStore.Binding, SessionGuard where it is configured, and ValidateSession.
pub record Guards (S : Type 0) : Type 0 where
  pub binding : String → Exec S Err SessionBinding
  pub guard : Option (String → Actor → Headers → Exec S Err (Unit {0}))
  pub validate : String → Headers → Exec S Err (Unit {0})

unfoldable pub run_guard :
    {S : Type 0}
    → Option (String → Actor → Headers → Exec S Err (Unit {0}))
    → String
    → Actor
    → Headers
    → Exec S Err (Unit {0})
run_guard none id actor h = pure tt
run_guard (some guard) id actor h = guard id actor h

module _ {S : Type 0} (native : Native S) (h : Headers) (actor : Actor) where
  -- The `switch` of Resolve on the selection mode.
  unfoldable pub agent_ids : String → String → Fields → Fields → Exec S Err (List String)
  agent_ids mode agent_id agent config =
      let tenant = uint_value native.parse_uint (get "tenant_id" agent) in
      if mode == "none"
      then pure []
      else if not (mode == "all")
      then pure (strings_value (get "knowledge_bases" config))
      else if not (tenant =ℕ= 0) && not (tenant =ℕ= actor.tenant_id)
      then list_ids native h "/api/v1/knowledge-bases" (("agent_id", agent_id) ∷ [])
      else defaults native h

  unfoldable pub narrowed : String → List String → Fields → Exec S Err (List String)
  narrowed mode ids config = if mode == "all" then compatible native h ids config else pure ids

  -- What Resolve does with the ids that the agent allows.
  unfoldable pub choose :
      List String → Bool → String → Fields → List String → Exec S Err (List String)
  choose ids explicit mode config allowed =
      if explicit
      then fail_if (not (subset ids allowed)) (refused 403 "agent.scope_denied")
          (if mode == "none" then pure ids else not_empty ids)
      else if is_true (get "retrieve_kb_only_when_mentioned" config)
      then pure []
      else if mode == "none"
      then pure allowed
      else not_empty allowed

  unfoldable pub with_config :
      List String → Bool → String → Fields → Fields → Exec S Err (List String)
  with_config ids explicit agent_id agent config = do
    fail_with (config_error config)
    named ← agent_ids (selection_mode config) agent_id agent config
    open_to ← available native h named
    allowed ← narrowed (selection_mode config) open_to config
    choose ids explicit (selection_mode config) config allowed

  unfoldable pub with_agent : List String → Bool → String → Exec S Err (List String)
  with_agent ids explicit agent_id =
      fail_if (not (valid_id agent_id)) (refused 400 "scope.invalid_id") (do
        value ← agent native h agent_id
        found ← lift (or_invalid (as_object value))
        config ← lift (or_invalid (as_object (get "config" found)))
        with_config ids explicit agent_id found config)

  -- The `else if` of Resolve for a request without an agent.
  unfoldable pub without_agent : Bool → List String → Exec S Err (List String)
  without_agent true ids = not_empty ids
  without_agent false ids = do found ← defaults native h; not_empty found

  unfoldable pub choose_ids : List String → Bool → String → Exec S Err (List String)
  choose_ids ids explicit agent_id =
      if not (agent_id == "") then with_agent ids explicit agent_id else without_agent explicit ids

  -- ScopeService.Resolve
  unfoldable pub resolve : List String → Bool → String → Exec S Err (List String)
  resolve requested explicit agent_id =
      fail_if (ltb 256 (length (unique requested))) too_large
        (do check_all native h (unique requested); choose_ids (unique requested) explicit agent_id)

  -- ScopeService.CheckSession
  unfoldable pub check_session : Guards S → String → Exec S Err SessionBinding
  check_session guards id = do
    bound ← guards.binding id
    fail_if (not (same_actor bound.actor actor)) (refused 403 "session.principal_mismatch") (do
      run_guard guards.guard id actor h
      guards.validate id h
      check_all native h bound.kb_ids
      pure bound)
