-- ===== src/NativeAccess/Scope/Exact.antt =====
-- internal/nativeaccess/scope.go: what Resolve and CheckSession give back.
use my_kb.Prelude.{
  ◌≡◌, refl, ◌∙◌, Bool, true, false, String, ◌==◌, ◌=ℕ=◌, ltb, ◌⊎◌, inl, inr, List, [], All, member,
  length, Bool-cases,
}
use mathlib.Core.Path.{subst}
use my_kb.Result.{ok, pure, fail_if-ok, Result-cases}
use my_kb.Http.{Headers}
use my_kb.Json.{Fields, get, is_true, as_object}
use my_kb.NativeAccess.{Actor, same_actor, refused}
use my_kb.NativeAccess.Sessions.{SessionBinding}
use my_kb.NativeAccess.Sessions.Binding.{same_actor-eq}
use my_kb.NativeAccess.Scope.Values.{
  unique, subset, valid_id, or_invalid, config_error, selection_mode,
}
use my_kb.NativeAccess.Scope.{Native, check_all, available, defaults, agent}
use my_kb.NativeAccess.Scope.Checked.{
  Shown, check_all-Shown, available-Shown, defaults-Shown, narrowed-All, All-unique, member-unique,
}
use my_kb.NativeAccess.Scope.Resolution.{
  Guards, not_empty, narrowed, agent_ids, choose, with_config, with_agent, choose_ids,
  without_agent, resolve, check_session, run_guard, fail_with,
}

module _ {S : Type 0} (native : Native S) (h : Headers) where
  -- What a resolved scope is for the ids that were asked for.
  pub record Resolved (requested : List String) (explicit : Bool) (result : List String)
      : Type 0 where
    pub shown : All (Shown native h) result
    pub exact : (explicit ≡ false) ⊎ ((k : String) → member k result ≡ member k requested)

  record Scoped (requested : List String) (explicit : Bool) (result : List String) : Type 0 where
    pub shown : All (Shown native h) result
    pub exact : explicit ≡ true → (k : String) → member k result ≡ member k requested

  not_empty-ok :
      (ids result : List String) (s : S) → (not_empty ids s).0 ≡ ok result → unique ids ≡ result
  unfolding not_empty
  not_empty-ok ids result s e =
      cc
        (fail_if-ok (length ids =ℕ= 0) (refused 403 "scope.empty") (pure (unique ids)) s result e).1

  not_empty-Scoped :
      (ids result : List String) (explicit : Bool) (s : S)
      → All (Shown native h) ids
      → (not_empty ids s).0 ≡ ok result
      → Scoped ids explicit result
  not_empty-Scoped ids result explicit s p e =
      rw (← not_empty-ok ids result s e)
        (record { shown = All-unique (Shown native h) ids p; exact = λ b k. member-unique k ids })

  same-Scoped :
      (ids : List String) (explicit : Bool) → All (Shown native h) ids → Scoped ids explicit ids
  same-Scoped ids explicit p = record { shown = p; exact = λ b k. refl }

  other-Scoped : (ids result : List String) → All (Shown native h) result → Scoped ids false result
  other-Scoped ids result p = record { shown = p; exact = λ b k. absurd (cc b) }

  choose-Scoped :
      (actor : Actor) (ids : List String) (explicit : Bool) (mode : String) (config : Fields)
      (allowed result : List String) (s : S)
      → All (Shown native h) ids
      → All (Shown native h) allowed
      → (choose native h actor ids explicit mode config allowed s).0 ≡ ok result
      → Scoped ids explicit result
  unfolding choose
  choose-Scoped actor ids true mode config allowed result s p q e =
      elim (Bool-cases (subset ids allowed)) [
        | inr wider ↦ absurd (cc (rw wider at e))
        | inl within ↦ elim (Bool-cases (mode == "none")) [
          | inl nothing ↦
              let this : ids ≡ result = cc (rw (within, nothing) at e) in
              rw (← this) (same-Scoped ids true p)
          | inr some_mode ↦ not_empty-Scoped ids result true s p (rw (within, some_mode) at e)
        ]
      ]
  choose-Scoped actor ids false mode config allowed result s p q e =
      elim (Bool-cases (is_true (get "retrieve_kb_only_when_mentioned" config))) [
        | inl only ↦
            let this : [] ≡ result = cc (rw only at e) in rw (← this) (other-Scoped ids [] tt)
        | inr always ↦ elim (Bool-cases (mode == "none")) [
          | inl nothing ↦
              let this : allowed ≡ result = cc (rw (always, nothing) at e) in
              rw (← this) (other-Scoped ids allowed q)
          | inr some_mode ↦
              other-Scoped ids result
                (not_empty-Scoped allowed result false s q (rw (always, some_mode) at e)).shown
        ]
      ]

  with_config-Scoped :
      (actor : Actor) (ids : List String) (explicit : Bool) (agent_id : String)
      (metadata config : Fields) (result : List String) (s : S)
      → All (Shown native h) ids
      → (with_config native h actor ids explicit agent_id metadata config s).0 ≡ ok result
      → Scoped ids explicit result
  unfolding with_config
  with_config-Scoped actor ids explicit agent_id metadata config result s p e =
      let mode = selection_mode config in
      elim (Result-cases (fail_with (config_error config) s).0) [
        | inr (x, k) ↦ absurd (cc (rw k at e))
        | inl (u, k) ↦
            let s1 = (fail_with (config_error config) s).1 in
            elim (Result-cases (agent_ids native h actor mode agent_id metadata config s1).0) [
              | inr (x, k1) ↦ absurd (cc (rw (k, k1) at e))
              | inl (named, k1) ↦
                  let s2 = (agent_ids native h actor mode agent_id metadata config s1).1 in
                  elim (Result-cases (available native h named s2).0) [
                    | inr (x, k2) ↦ absurd (cc (rw (k, k1, k2) at e))
                    | inl (open_to, k2) ↦
                        let s3 = (available native h named s2).1 in
                        elim (Result-cases (narrowed native h actor mode open_to config s3).0) [
                          | inr (x, k3) ↦ absurd (cc (rw (k, k1, k2, k3) at e))
                          | inl (allowed, k3) ↦
                              choose-Scoped actor ids explicit mode config allowed result
                                (narrowed native h actor mode open_to config s3).1 p
                                (narrowed-All native h (Shown native h) actor mode open_to allowed
                                  config s3 (available-Shown native h named open_to s2 k2) k3)
                                (rw (k, k1, k2, k3) at e)
                        ]
                  ]
            ]
      ]

  with_agent-Scoped :
      (actor : Actor) (ids : List String) (explicit : Bool) (agent_id : String)
      (result : List String) (s : S)
      → All (Shown native h) ids
      → (with_agent native h actor ids explicit agent_id s).0 ≡ ok result
      → Scoped ids explicit result
  unfolding with_agent
  with_agent-Scoped actor ids explicit agent_id result s p e =
      elim (Bool-cases (valid_id agent_id)) [
        | inr bad ↦ absurd (cc (rw bad at e))
        | inl good ↦ elim (Result-cases (agent native h agent_id s).0) [
          | inr (x, k) ↦ absurd (cc (rw (good, k) at e))
          | inl (value, k) ↦
              let s1 = (agent native h agent_id s).1 in
              elim (Result-cases (or_invalid (as_object value))) [
                | inr (x, k1) ↦ absurd (cc (rw (good, k, k1) at e))
                | inl (found, k1) ↦
                    elim (Result-cases (or_invalid (as_object (get "config" found)))) [
                      | inr (x, k2) ↦ absurd (cc (rw (good, k, k1, k2) at e))
                      | inl (config, k2) ↦
                          with_config-Scoped actor ids explicit agent_id found config result s1 p
                            (rw (good, k, k1, k2) at e)
                    ]
              ]
        ]
      ]

  without_agent-Scoped :
      (actor : Actor) (ids : List String) (explicit : Bool) (result : List String) (s : S)
      → All (Shown native h) ids
      → (without_agent native h actor explicit ids s).0 ≡ ok result
      → Scoped ids explicit result
  unfolding without_agent
  without_agent-Scoped actor ids true result s p e = not_empty-Scoped ids result true s p e
  without_agent-Scoped actor ids false result s p e = elim (Result-cases (defaults native h s).0) [
    | inr (x, k) ↦ absurd (cc (rw k at e))
    | inl (found, k) ↦
        other-Scoped ids result
          (not_empty-Scoped found result false (defaults native h s).1
            (defaults-Shown native h found s k) (rw k at e)).shown
  ]

  choose_ids-Scoped :
      (actor : Actor) (ids : List String) (explicit : Bool) (agent_id : String)
      (result : List String) (s : S)
      → All (Shown native h) ids
      → (choose_ids native h actor ids explicit agent_id s).0 ≡ ok result
      → Scoped ids explicit result
  unfolding choose_ids
  choose_ids-Scoped actor ids explicit agent_id result s p e = elim (Bool-cases (agent_id == "")) [
    | inr named ↦ with_agent-Scoped actor ids explicit agent_id result s p (rw named at e)
    | inl nobody ↦ without_agent-Scoped actor ids explicit result s p (rw nobody at e)
  ]

  -- Each id that Resolve returns was shown by the upstream to the credentials of the request when
  -- CheckKB asked; and for an explicit request the ids are those of the request, no more and no
  -- fewer.
  pub resolve-Resolved :
      (actor : Actor) (requested : List String) (explicit : Bool) (agent_id : String)
      (result : List String) (s : S)
      → (resolve native h actor requested explicit agent_id s).0 ≡ ok result
      → Resolved requested explicit result
  unfolding resolve
  resolve-Resolved actor requested explicit agent_id result s e =
      let ids = unique requested in
      elim (Bool-cases (ltb 256 (length ids))) [
        | inl many ↦ absurd (cc (rw many at e))
        | inr few ↦ elim (Result-cases (check_all native h ids s).0) [
          | inr (x, k) ↦ absurd (cc (rw (few, k) at e))
          | inl (u, k) ↦
              let r =
                choose_ids-Scoped actor ids explicit agent_id result (check_all native h ids s).1
                  (check_all-Shown native h ids s k) (rw (few, k) at e) in
              record {
                shown = r.shown;
                exact = elim (Bool-cases explicit) [
                  | inl asked ↦ inr λ x. r.exact asked x ∙ member-unique x requested
                  | inr left ↦ inl left
                ];
              }
        ]
      ]

  -- A session that CheckSession gives back.
  pub record Usable (guards : Guards S) (actor : Actor) (id : String) (bound : SessionBinding)
      (s : S) : Type 0 where
    pub stored : (guards.binding id s).0 ≡ ok bound
    pub owner : bound.actor ≡ actor
    pub shown : All (Shown native h) bound.kb_ids

  -- A binding that CheckSession returns is the stored one, it is of the actor who asks, and the
  -- upstream showed each of its knowledge bases to the credentials of the request.
  pub check_session-Usable :
      (guards : Guards S) (actor : Actor) (id : String) (bound : SessionBinding) (s : S)
      → (check_session native h actor guards id s).0 ≡ ok bound
      → Usable guards actor id bound s
  unfolding check_session
  check_session-Usable guards actor id bound s e = elim (Result-cases (guards.binding id s).0) [
    | inr (x, k) ↦ absurd (cc (rw k at e))
    | inl (b, k) ↦
        let s1 = (guards.binding id s).1 in
        elim (Bool-cases (same_actor b.actor actor)) [
          | inr stranger ↦ absurd (cc (rw (k, stranger) at e))
          | inl own ↦ elim (Result-cases (run_guard guards.guard id actor h s1).0) [
            | inr (x, k1) ↦ absurd (cc (rw (k, own, k1) at e))
            | inl (u, k1) ↦
                let s2 = (run_guard guards.guard id actor h s1).1 in
                elim (Result-cases (guards.validate id h s2).0) [
                  | inr (x, k2) ↦ absurd (cc (rw (k, own, k1, k2) at e))
                  | inl (u, k2) ↦
                      let s3 = (guards.validate id h s2).1 in
                      elim (Result-cases (check_all native h b.kb_ids s3).0) [
                        | inr (x, k3) ↦ absurd (cc (rw (k, own, k1, k2, k3) at e))
                        | inl (u, k3) ↦
                            let this : b ≡ bound = cc (rw (k, own, k1, k2, k3) at e) in
                            subst (λ x. Usable guards actor id x s) this
                              (record {
                                stored = k;
                                owner = same_actor-eq b.actor actor own;
                                shown = check_all-Shown native h b.kb_ids s3 k3;
                              })
                      ]
                ]
          ]
        ]
  ]
