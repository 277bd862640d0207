-- ===== src/Space/Creation/Provision.antt =====
-- internal/space/service.go: what a space that Create reports has been checked against.
use my_kb.Prelude.{
  ◌≡◌, refl, ◌∙◌, eq_iff, Bool, true, false, String, ◌==◌, inl, inr, arith, Bool-cases,
}
use mathlib.Core.Path.{subst}
use my_kb.Result.{ok, Exec, Result-cases}
use my_kb.Http.{Headers, rejected, unreachable}
use my_kb.Profile as Profiles
use my_kb.Profile.{Profile, ProductMode, personal_notes, rag, owner_only, upstream}
use my_kb.Preset.{upstream_request, Definition}
use my_kb.Space.Inputs.{CreateInput, Err, Normalized}
use my_kb.Space.Requests.{Request}
use my_kb.Space.Service.{
  KnowledgeBase, Identity, CreateResult, Stores, is_owned, has_vision, found_kb,
}
use my_kb.Space.Creation.{
  recording, find_or_create, after_find, after_create, second_look, verify, after_conflict,
  after_profile, ensure_profile, expected_profile, same_profile, result_of, provision,
}

module _ {S : Type 0} (stores : Stores S) (headers : Headers) where
  -- The profile was stored now, or one like it was there.
  pub data HasProfile (expected : Profile) : Type 0 where
    stored :
        (at : S) (made : Profile)
        → (stores.create_profile expected at).0 ≡ ok made
        → HasProfile expected
    was_there :
        (at : S) (existing : Profile)
        → (stores.get_profile expected.upstream_kb_id at).0 ≡ ok existing
        → same_profile stores.canonical existing expected ≡ true
        → HasProfile expected

  -- The upstream's knowledge base is the one that the row was given, and it is the owner's.
  pub record Owned (kb : KnowledgeBase) (ledger : Request) (input : CreateInput) : Type 0 where
    pub id : kb.id ≡ ledger.upstream_kb_id
    pub tenant : kb.tenant_id ≡ ledger.tenant_id
    pub creator : kb.creator_id ≡ ledger.owner_user_id
    pub name : kb.name ≡ input.name
    pub kind : kb.kind ≡ input.knowledge_base_type

  -- The upstream returned it, when asked for the row's id or when asked to create it.
  pub data FromUpstream (d : Definition) (n : Normalized) (ledger : Request) (kb : KnowledgeBase)
      : Type 0 where
    read :
        (at : S)
        → (stores.get_kb ledger.upstream_kb_id headers at).0 ≡ ok kb
        → FromUpstream d n ledger kb
    created :
        (at : S)
        → (stores.create_kb
            (upstream_request d ledger.upstream_kb_id n.input.name n.input.description)
            headers
            at).0
          ≡ ok kb
        → FromUpstream d n ledger kb

  -- What holds of a space that was provisioned for a row of the ledger.
  pub record Provisioned (n : Normalized) (d : Definition) (config : String) (who : Identity)
      (ledger : Request) (result : CreateResult) : Type 0 where
    pub kb : KnowledgeBase
    pub of_ledger : result.knowledge_base_id ≡ ledger.upstream_kb_id
    pub from_upstream : FromUpstream d n ledger kb
    pub owned : Owned kb ledger n.input
    pub vision : has_vision kb n.input ≡ true
    pub profile : HasProfile (expected_profile n d config who ledger)
    pub end : S
    pub completed : (stores.complete ledger end).0 ≡ ok tt

  recording-ok :
      {A : Type 0} (ledger : Request) (m : Exec S Err A) (s : S) (a : A)
      → (recording stores headers ledger m s).0 ≡ ok a
      → ((m s).0 ≡ ok a) × ((recording stores headers ledger m s).1 ≡ (m s).1)
  unfolding recording
  recording-ok ledger m s a h = elim (Result-cases (m s).0) [
    | inl (b, e) ↦ (e ∙ (rw (recording, e) at h), rw (recording, e) refl)
    | inr (x, e) ↦ absurd (cc (rw (recording, e) at h))
  ]

  is_owned-Owned :
      (kb : KnowledgeBase) (ledger : Request) (input : CreateInput)
      → is_owned kb ledger input ≡ true
      → Owned kb ledger input
  unfolding is_owned
  is_owned-Owned kb ledger input h = record {
    id = ground (arith, eq_iff kb.id ledger.upstream_kb_id);
    tenant = ground arith;
    creator = ground (arith, eq_iff kb.creator_id ledger.owner_user_id);
    name = ground (arith, eq_iff kb.name input.name);
    kind = ground (arith, eq_iff kb.kind input.knowledge_base_type);
  }

  find_or_create-FromUpstream :
      (d : Definition) (n : Normalized) (ledger : Request) (found : KnowledgeBase × Bool) (s : S)
      → (find_or_create stores headers n d ledger s).0 ≡ ok found
      → FromUpstream d n ledger found.0
  unfolding find_or_create after_find found_kb after_create second_look
  find_or_create-FromUpstream d n ledger found s h =
      let asked = stores.get_kb ledger.upstream_kb_id headers in
      let ask =
        stores.create_kb (upstream_request d ledger.upstream_kb_id n.input.name n.input.description)
          headers in
      let s1 = (asked s).1 in
      let s2 = (ask s1).1 in
      elim (Result-cases (asked s).0) [
        | inl (kb, e) ↦
            let this : (kb, false) ≡ found = cc (rw e at h) in
            subst (λ (f : KnowledgeBase × Bool). FromUpstream d n ledger f.0) this (read s e)
        | inr (unreachable, e) ↦ absurd (cc (rw e at h))
        | inr (rejected code status, e) ↦ elim (Bool-cases (code == "upstream.not_found")) [
          | inr other ↦ absurd (cc (rw (e, other) at h))
          | inl missing ↦ elim (Result-cases (ask s1).0) [
            | inl (kb, e1) ↦
                let this : (kb, true) ≡ found = cc (rw (e, missing, e1) at h) in
                subst (λ (f : KnowledgeBase × Bool). FromUpstream d n ledger f.0) this
                  (created s1 e1)
            | inr (x, e1) ↦ elim (Result-cases (asked s2).0) [
              | inl (kb, e2) ↦
                  let this : (kb, false) ≡ found = cc (rw (e, missing, e1, e2) at h) in
                  subst (λ (f : KnowledgeBase × Bool). FromUpstream d n ledger f.0) this
                    (read s2 e2)
              | inr (unreachable, e2) ↦ absurd (cc (rw (e, missing, e1, e2) at h))
              | inr (rejected again st, e2) ↦ elim (Bool-cases (again == "upstream.not_found")) [
                | inl gone ↦ absurd (cc (rw (e, missing, e1, e2, gone) at h))
                | inr broken ↦ absurd (cc (rw (e, missing, e1, e2, broken) at h))
              ]
            ]
          ]
        ]
      ]

  after_profile-HasProfile :
      (expected : Profile) (s : S)
      → (ensure_profile stores headers expected s).0 ≡ ok tt
      → HasProfile expected
  unfolding ensure_profile after_profile after_conflict
  after_profile-HasProfile expected s h =
      let s1 = (stores.create_profile expected s).1 in
      elim (Result-cases (stores.create_profile expected s).0) [
        | inl (made, e) ↦ stored s made e
        | inr (Profiles.Repository.Err.conflict, e) ↦
            elim (Result-cases (stores.get_profile expected.upstream_kb_id s1).0) [
              | inr (x, e') ↦ absurd (cc (rw (e, e') at h))
              | inl (existing, e') ↦
                  elim (Bool-cases (same_profile stores.canonical existing expected)) [
                    | inl same ↦ was_there s1 existing e' same
                    | inr other ↦ absurd (cc (rw (e, e', other) at h))
                  ]
            ]
        | inr (Profiles.Repository.Err.not_found, e) ↦ absurd (cc (rw e at h))
        | inr (Profiles.Repository.Err.invalid, e) ↦ absurd (cc (rw e at h))
        | inr (Profiles.Repository.Err.database, e) ↦ absurd (cc (rw e at h))
      ]

  verify-ok :
      (kb : KnowledgeBase) (ledger : Request) (input : CreateInput) (s : S)
      → (verify stores headers kb ledger input s).0 ≡ ok tt
      → (is_owned kb ledger input ≡ true) × (has_vision kb input ≡ true)
  unfolding verify
  verify-ok kb ledger input s h = elim (Bool-cases (is_owned kb ledger input)) [
    | inr e ↦ absurd (cc (rw e at h))
    | inl e ↦ elim (Bool-cases (has_vision kb input)) [
      | inr e' ↦ absurd (cc (rw (e, e') at h))
      | inl e' ↦ (e, e')
    ]
  ]

  -- Where the steps of Create after the claim succeed, the result names the knowledge base of the
  -- ledger's row; the upstream returned one that has that id and the row's owner and workspace, the
  -- name and type of the request and its vision model where one was asked for; its profile was
  -- stored now or an equal one was there; and the row was completed.
  pub provision-Provisioned :
      (n : Normalized) (d : Definition) (config : String) (who : Identity) (ledger : Request)
      (inserted : Bool) (result : CreateResult) (s : S)
      → (provision stores headers n d config who (ledger, inserted) s).0 ≡ ok result
      → Provisioned n d config who ledger result
  unfolding provision result_of
  provision-Provisioned n d config who ledger inserted result s h =
      let find = recording stores headers ledger (find_or_create stores headers n d ledger) in
      let s1 = (find s).1 in
      elim (Result-cases (find s).0) [
        | inr (x, e) ↦ absurd (cc (rw e at h))
        | inl (found, e) ↦
            let check =
              recording stores headers ledger (verify stores headers found.0 ledger n.input) in
            let s2 = (check s1).1 in
            elim (Result-cases (check s1).0) [
              | inr (x, e1) ↦ absurd (cc (rw (e, e1) at h))
              | inl (u, e1) ↦
                  let expected = expected_profile n d config who ledger in
                  let ensure =
                    recording stores headers ledger (ensure_profile stores headers expected) in
                  let s3 = (ensure s2).1 in
                  elim (Result-cases (ensure s2).0) [
                    | inr (x, e2) ↦ absurd (cc (rw (e, e1, e2) at h))
                    | inl (v, e2) ↦ elim (Result-cases (stores.complete ledger s3).0) [
                      | inr (x, e3) ↦ absurd (cc (rw (e, e1, e2, e3) at h))
                      | inl (w, e3) ↦
                          let this : result_of n ledger inserted found.0 found.1 ≡ result =
                            cc (rw (e, e1, e2, e3) at h) in
                          let (own, see) =
                            verify-ok found.0 ledger n.input s1
                              (recording-ok ledger (verify stores headers found.0 ledger n.input) s1
                                u e1).0 in
                          record {
                            kb = found.0;
                            of_ledger = rw (← this) refl;
                            from_upstream =
                                find_or_create-FromUpstream d n ledger found s
                                  (recording-ok ledger (find_or_create stores headers n d ledger) s
                                    found e).0;
                            owned = is_owned-Owned found.0 ledger n.input own;
                            vision = see;
                            profile =
                                after_profile-HasProfile expected s2
                                  (recording-ok ledger (ensure_profile stores headers expected) s2 v
                                    e2).0;
                            end = s3;
                            completed = e3;
                          }
                    ]
                  ]
            ]
      ]
