-- ===== src/Authorization/Soundness.antt =====
-- internal/authorization/decision.go over the repositories that cmd/gateway wires: Decide and
-- Authorize against the reasons of Authorization/Reasons.
use my_kb.Text.{is_blank}
use my_kb.Prelude.{
  ◌==◌, ◌=ℕ=◌, ℕ, ◌≡◌, refl, true, false, ◌&&◌, ◌||◌, String, arith, eq_iff, some, ◌⊎◌, inl, inr,
  find_row, Bool-cases,
}
use my_kb.Result.{Result, ok, err, Result-cases}
use my_kb.Http.{Headers}
use my_kb.Db.{Db, Env}
use my_kb.Frames.{SameRows, SameRows-resolve}
use my_kb.Authorization.Reasons.{
  Reason, owns, edits, views, sees, followed, SameRows-effective_grant, SameRows-published,
  effective_grant-ok, published-ok, effective-ok,
}
use my_kb.Ownership.{Ownership, resolve, owns_personal_notes}
use my_kb.Grant.{Grant, Permission, viewer, editor, other}
use my_kb.Grant.Repository as Grants
use my_kb.Grant.Repository.{effective_user_grant, is_effective, best_row}
use my_kb.Publication.{Publication, AccessMode, organization_public, visible_to}
use my_kb.Publication.Repository as Publications
use my_kb.Publication.Repository.{get_published_by_kb, is_published_of}
use my_kb.Subscription.Service.{effective}
use my_kb.Authorization.{
  Role, no_role, viewer_role, editor_role, owner_role, edit_content, Principal, Decision,
  PublicationAccess, base_decision, by_grant, by_publication, after_publication, after_subscription,
  without_grant, after_grant, decide_for, after_owner, decide, authorize, repositories,
  decision_allows, is_public,
}
use my_kb.Authorization.Roles.{edit-needs}

permission-cases : (m : Permission) → ((m ≡ viewer) ⊎ (m ≡ editor)) ⊎ ((s : String) × (m ≡ other s))
permission-cases viewer = inl (inl refl)
permission-cases editor = inl (inr refl)
permission-cases (other s) = inr (s, refl)

public-cases : (m : AccessMode) → (m ≡ organization_public) ⊎ (is_public m ≡ false)
unfolding is_public
public-cases organization_public = inl refl
public-cases _ = inr refl

abbrev access : PublicationAccess Db
access = record { published_by_kb = get_published_by_kb; effective_for = effective }

-- A decision has no role, or a reason for its role.
abbrev Backed : Env → String → Principal → Ownership → Db → Decision → Type 0
Backed env kb_id p o db d = (d.role ≡ no_role) ⊎ Reason env.now kb_id p o db d.role

module _ (env : Env) (kb_id : String) (p : Principal) (o : Ownership) (d : Decision)
    (shared : owns_personal_notes o ≡ false) where
  Backed-by_publication :
      (q : Publication) (db : Db)
      → find_row (is_published_of kb_id) db.publications ≡ some q
      → (by_publication access p (base_decision kb_id o) q db).0 ≡ ok d
      → Backed env kb_id p o db d
  unfolding by_publication after_subscription base_decision
  Backed-by_publication q db row h = elim (Bool-cases (visible_to q p.tenant_id)) [
    | inr hidden ↦ inl (ground arith)
    | inl visible ↦ elim (public-cases q.access_mode) [
      | inl open_to_all ↦
          let role : d.role ≡ viewer_role = ground arith in
          inr (rw role (sees q row visible open_to_all shared))
      | inr closed ↦ elim (Result-cases (effective q.id p.user_id p.tenant_id db).0) [
        | inl (s, e) ↦
            let (found, live) = effective-ok q.id p.user_id p.tenant_id s db e in
            let role : d.role ≡ viewer_role = ground arith in
            inr (rw role (followed q s row visible found live shared))
        | inr (x, e) ↦ inl (ground arith)
      ]
    ]
  ]

Reason-back :
    (now : ℕ) (kb_id : String) (p : Principal) (o : Ownership) (db db' : Db) {r : Role}
    → SameRows db db'
    → Reason now kb_id p o db' r
    → Reason now kb_id p o db r
Reason-back now kb_id p o db db' same (owns u t) = owns u t
Reason-back now kb_id p o db db' same (edits g row m t n) = edits g (rw same.grants at row) m t n
Reason-back now kb_id p o db db' same (views g row m t n) = views g (rw same.grants at row) m t n
Reason-back now kb_id p o db db' same (sees q row v m n) =
    sees q (rw same.publications at row) v m n
Reason-back now kb_id p o db db' same (followed q s row v found live n) =
    followed q s (rw same.publications at row) v (rw same.subscriptions at found) live n

Backed-back :
    (env : Env) (kb_id : String) (p : Principal) (o : Ownership) (db db' : Db) (d : Decision)
    → SameRows db db'
    → Backed env kb_id p o db' d
    → Backed env kb_id p o db d
Backed-back env kb_id p o db db' d same (inl h) = inl h
Backed-back env kb_id p o db db' d same (inr r) = inr (Reason-back env.now kb_id p o db db' same r)

module _ (env : Env) (kb_id : String) (p : Principal) (o : Ownership) (d : Decision)
    (shared : owns_personal_notes o ≡ false) where
  Backed-after_publication :
      (res : Result Publications.RepoErr Publication) (db : Db)
      → ((q : Publication) → res ≡ ok q → find_row (is_published_of kb_id) db.publications ≡ some q)
      → (after_publication access p (base_decision kb_id o) res db).0 ≡ ok d
      → Backed env kb_id p o db d
  unfolding after_publication base_decision
  Backed-after_publication (ok q) db row h =
      Backed-by_publication env kb_id p o d shared q db (row q refl) h
  Backed-after_publication (err Publications.RepoErr.not_found) db row h = inl (ground arith)
  Backed-after_publication (err _) db row h = cc

  Backed-without_grant :
      (db : Db)
      → (without_grant (some access) kb_id p (base_decision kb_id o) db).0 ≡ ok d
      → Backed env kb_id p o db d
  unfolding without_grant
  Backed-without_grant db h =
      let same = SameRows-published kb_id db in
      let found = get_published_by_kb kb_id db in
      Backed-back env kb_id p o db found.1 d same (
        Backed-after_publication found.0 found.1
          (λ q e. rw same.publications (published-ok kb_id q db e)) h)

  Backed-after_grant :
      (res : Result Grants.RepoErr Grant) (db : Db)
      → ((g : Grant)
          → res ≡ ok g
          → best_row (is_effective kb_id p.user_id env.now) db.grants ≡ some g)
      → p.tenant_id ≡ o.tenant_id
      → (after_grant (some access) kb_id p (base_decision kb_id o) res db).0 ≡ ok d
      → Backed env kb_id p o db d
  unfolding after_grant by_grant
  Backed-after_grant (ok g) db row t h = elim (permission-cases g.permission) [
    | inl (inl e) ↦
        let role : d.role ≡ viewer_role = ground arith in
        inr (rw role (views g (row g refl) e t shared))
    | inl (inr e) ↦
        let role : d.role ≡ editor_role = ground arith in
        inr (rw role (edits g (row g refl) e t shared))
    | inr (s, e) ↦ absurd (ground arith)
  ]
  Backed-after_grant (err Grants.RepoErr.not_found) db row t h = Backed-without_grant db h
  Backed-after_grant (err _) db row t h = cc

Backed-decide_for :
    (env : Env) (kb_id : String) (p : Principal) (o : Ownership) (d : Decision) (db : Db)
    → (decide_for (repositories env) kb_id p o db).0 ≡ ok d
    → Backed env kb_id p o db d
unfolding decide_for repositories base_decision
Backed-decide_for env kb_id p o d db h =
    elim (Bool-cases (p.user_id == o.owner_user_id && p.tenant_id =ℕ= o.tenant_id)) [
      | inl mine ↦
          let role : d.role ≡ owner_role = ground arith in
          inr (rw role (owns (ground (arith, eq_iff p.user_id o.owner_user_id)) (ground arith)))
      | inr foreign ↦ elim (Bool-cases (owns_personal_notes o)) [
        | inl notes ↦ inl (ground arith)
        | inr shared ↦ elim (Bool-cases (p.tenant_id =ℕ= o.tenant_id)) [
          | inl t ↦
              let same = SameRows-effective_grant kb_id p.user_id env.now db in
              let found = effective_user_grant kb_id p.user_id env.now db in
              Backed-back env kb_id p o db found.1 d same (
                Backed-after_grant env kb_id p o d shared found.0 found.1
                  (λ g e. rw same.grants (effective_grant-ok kb_id p.user_id env.now g db e))
                  (ground arith) (rw (foreign, shared, t) at h))
          | inr t ↦ Backed-without_grant env kb_id p o d shared db (rw (foreign, shared, t) at h)
        ]
      ]
    ]

-- Whatever statements fail: a decision gives a role only to the resolved owner, to a user of the
-- owner's workspace with an effective grant of that permission, or to a user of a workspace to
-- which the published publication is visible and which is public or followed by that user there;
-- and the last three only where the knowledge base is not Personal Notes.
pub decide_sound :
    (env : Env) (kb_id : String) (p : Principal) (h : Headers) (db : Db) {d : Decision}
    → (decide (repositories env) kb_id p h db).0 ≡ ok d
    → (o : Ownership) × ((resolve env.upstream kb_id h db).0 ≡ ok o)
      × ((d.role ≡ no_role) ⊎ Reason env.now kb_id p o db d.role)
unfolding decide repositories after_owner
decide_sound env kb_id p h db {d} done =
    elim (Bool-cases (is_blank kb_id || is_blank p.user_id || p.tenant_id =ℕ= 0)) [
      | inl b ↦ absurd (ground arith)
      | inr b ↦
          let found = resolve env.upstream kb_id h db in
          elim (Result-cases found.0) [
            | inr (x, e) ↦ absurd (ground arith)
            | inl (o, e) ↦ (
              o,
              e,
              Backed-back env kb_id p o db found.1 d (SameRows-resolve env kb_id h db)
                  (Backed-decide_for env kb_id p o d found.1 (rw (b, e) at done)),
            )
          ]
    ]

editing :
    (env : Env) (kb_id : String) (p : Principal) (o : Ownership) (db : Db) (d : Decision)
    → decision_allows d edit_content ≡ true
    → Backed env kb_id p o db d
    → Reason env.now kb_id p o db editor_role ⊎ Reason env.now kb_id p o db owner_role
editing env kb_id p o db d allowed (inl none_given) = absurd (ground (arith, edit-needs d))
editing env kb_id p o db d allowed (inr reason) = elim (edit-needs d allowed) [
  | inl e ↦ inl (rw e at reason)
  | inr e ↦ inr (rw e at reason)
]

-- Editing is authorized only for the resolved owner and for a user of the owner's workspace with
-- an effective editor grant, where the knowledge base is not Personal Notes.
pub authorize-edit :
    (env : Env) (kb_id : String) (p : Principal) (h : Headers) (db : Db) {d : Decision}
    → (authorize (repositories env) kb_id p edit_content h db).0 ≡ ok d
    → (o : Ownership) × ((resolve env.upstream kb_id h db).0 ≡ ok o)
      × (Reason env.now kb_id p o db editor_role ⊎ Reason env.now kb_id p o db owner_role)
unfolding authorize
authorize-edit env kb_id p h db {d} done =
    elim (Result-cases (decide (repositories env) kb_id p h db).0) [
      | inr (x, e) ↦ absurd (ground arith)
      | inl (x, e) ↦
          let (o, found, backed) = decide_sound env kb_id p h db e in
          let same : x ≡ d = ground arith in
          let allowed : decision_allows x edit_content ≡ true = ground arith in
          (o, found, editing env kb_id p o db x allowed backed)
    ]
