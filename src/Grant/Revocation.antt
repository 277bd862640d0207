-- ===== src/Grant/Revocation.antt =====
-- internal/grant/service.go: Revoke.
use my_kb.Prelude.{
  ℕ, ◌≡◌, refl, Bool, true, false, String, ◌==◌, ◌||◌, not, ltb, arith, eq_refl, some,
  if◌then◌else◌, Bool-cases, Option-cases, inl, inr, List, find_row, any, update_where,
}
use my_kb.Prelude.Rows.{find_row-holds, any-update_where_only}
use my_kb.Result.{ok, err, Result-cases}
use my_kb.Http.{Headers}
use my_kb.Db.{Db, Env, failing}
use my_kb.Ownership.{Ownership}
use my_kb.Grant.{Grant, SubjectType, user}
use my_kb.Grant.Repository
use my_kb.Grant.Repository.{
  RepoErr, get, effective_user_grant, is_current_for, collides, is_version, revoked,
}
use my_kb.Grant.Uniqueness.{IsUnique, current-collides}
use my_kb.Grant.Owner.{grants-require_owner}
use my_kb.Grant.Creation.{grants-record_audit, same_subject_type_refl}
use my_kb.Grant.Effect.{effective-none}
use my_kb.Grant.Service.{
  Actor, RevokeRequest, revoke, revoke_existing, require_owner, check_existing, record_audit,
  valid_correlation_id,
}
use mathlib.Core.Path.{subst}

-- What a successful UPDATE ... SET revoked_at did.
pub record Withdrawn (id : String) (n : ℕ) (c : String) (at : ℕ) (g : Grant) (gs gs' : List Grant)
    : Type 0 where
  pub row : Grant
  pub found : find_row (is_version id n) gs ≡ some row
  pub result : g ≡ revoked at c row
  pub rows : gs' ≡ update_where (is_version id n) (revoked at c) gs

pub revoke-Withdrawn :
    (id : String) (n : ℕ) (c : String) (at : ℕ) (db : Db) (g : Grant)
    → (Repository.revoke id n c at db).0 ≡ ok g
    → Withdrawn id n c at g db.grants (Repository.revoke id n c at db).1.grants
unfolding Repository.revoke
revoke-Withdrawn id n c at db g h = elim (Option-cases (find_row (is_version id n) db.grants)) [
  | inl e ↦ absurd (ground arith)
  | inr (x, e) ↦ record { row = x; found = e; result = ground arith; rows = ground arith }
]

revoked-off :
    (p : Grant → Bool) (kb : String) (k : SubjectType) (s c : String) (at : ℕ) (a : Grant)
    → is_current_for kb k s (if p a then revoked at c a else a) ≡ true
    → is_current_for kb k s a ≡ true
unfolding is_current_for revoked
revoked-off p kb k s c at a h = ground arith

revoked-not_current :
    (kb : String) (k : SubjectType) (s c : String) (at : ℕ) (a : Grant)
    → is_current_for kb k s (revoked at c a) ≡ false
unfolding is_current_for revoked
revoked-not_current kb k s c at a = ground arith

version-current :
    (id : String) (n : ℕ) (a : Grant)
    → is_version id n a ≡ true
    → is_current_for a.knowledge_base_id a.subject_type a.subject_id a ≡ true
unfolding is_version is_current_for
version-current id n a h = ground (
  arith,
  eq_refl a.knowledge_base_id,
  eq_refl a.subject_id,
  same_subject_type_refl a.subject_type,
)

subject-revoked :
    (c : String) (at : ℕ) (a : Grant)
    → ((revoked at c a).knowledge_base_id ≡ a.knowledge_base_id)
      × ((revoked at c a).subject_type ≡ a.subject_type)
      × ((revoked at c a).subject_id ≡ a.subject_id)
unfolding revoked
subject-revoked c at a = (refl, refl, refl)

-- No row is current for the subject of a revoked grant.
pub Withdrawn-none :
    (id : String) (n : ℕ) (c : String) (at : ℕ) (g : Grant) (gs gs' : List Grant)
    → IsUnique gs
    → Withdrawn id n c at g gs gs'
    → any (is_current_for g.knowledge_base_id g.subject_type g.subject_id) gs' ≡ false
Withdrawn-none id n c at g gs gs' u w =
    let x = w.row in
    let holds = find_row-holds (is_version id n) gs x w.found in
    rw w.rows (
      rw w.result (
        any-update_where_only collides
          (is_current_for (revoked at c x).knowledge_base_id (revoked at c x).subject_type
            (revoked at c x).subject_id)
          (current-collides _ _ _) (is_version id n) (revoked at c)
          (revoked-off (is_version id n) _ _ _ c at) gs x u w.found
          (unfold revoked in version-current id n x holds) (revoked-not_current _ _ _ c at x)))

grants-get : (id : String) (db : Db) → (get id db).1.grants ≡ db.grants
unfolding get
grants-get id db = ground arith

revoke_existing-Withdrawn :
    (env : Env) (o : Ownership) (kb_id id : String) (actor : Actor) (r : RevokeRequest)
    (x g : Grant) (db : Db)
    → (revoke_existing env o kb_id id actor r x db).0 ≡ ok g
    → Withdrawn id r.expected_revision r.correlation_id env.now g db.grants
        (revoke_existing env o kb_id id actor r x db).1.grants
      × (check_existing kb_id r.expected_revision x ≡ ok tt)
unfolding revoke_existing
revoke_existing-Withdrawn env o kb_id id actor r x g db done =
    elim (Result-cases (check_existing kb_id r.expected_revision x)) [
      | inr (_, c) ↦ absurd (ground arith)
      | inl (_, c) ↦
          let stored = Repository.revoke id r.expected_revision r.correlation_id env.now db in
          elim (Result-cases stored.0) [
            | inr (_, e) ↦ absurd (ground arith)
            | inl (y, e) ↦
                let kept =
                  grants-record_audit env o actor "grant.revoke" (some x) y r.correlation_id
                    stored.1 in
                let w = revoke-Withdrawn id r.expected_revision r.correlation_id env.now db y e in
                elim (Result-cases
                  (record_audit env o actor "grant.revoke" (some x) y r.correlation_id
                    stored.1).0) [
                      | inr (_, a) ↦ absurd (ground arith)
                      | inl (_, a) ↦
                          let same : y ≡ g = ground arith in (rw (c, e, a, kept, ← same) w, c)
                    ]
          ]
    ]

-- Service.Revoke writes what the repository's statement writes.
service_revoke-Withdrawn :
    (env : Env) (kb_id id : String) (actor : Actor) (r : RevokeRequest) (h : Headers) (db : Db)
    (g : Grant)
    → (revoke env kb_id id actor r h db).0 ≡ ok g
    → Withdrawn id r.expected_revision r.correlation_id env.now g db.grants
        (revoke env kb_id id actor r h db).1.grants
unfolding revoke
service_revoke-Withdrawn env kb_id id actor r h db g done =
    elim (Result-cases (require_owner env kb_id actor h db).0) [
      | inr (_, e) ↦ absurd (ground arith)
      | inl (o, e) ↦
          elim (Bool-cases (
            id == "" || ltb r.expected_revision 1 || not (valid_correlation_id r.correlation_id))) [
              | inl b ↦ absurd (ground arith)
              | inr b ↦
                  let kept = grants-require_owner env kb_id actor h db in
                  let db' = (require_owner env kb_id actor h db).1 in
                  elim (Result-cases (get id db').0) [
                    | inr (_, s) ↦ absurd (ground arith)
                    | inl (x, s) ↦
                        let w =
                          revoke_existing-Withdrawn env o kb_id id actor r x g (get id db').1
                            (rw (e, b, s) at done) in
                        rw (e, b, s) (rw (grants-get id db', kept) at (w.0))
                  ]
            ]
    ]

-- No row is current for the subject of a grant that Service.Revoke has revoked.
pub revoke-none_current :
    (env : Env) (kb_id id : String) (actor : Actor) (r : RevokeRequest) (h : Headers) (db : Db)
    {g : Grant}
    → IsUnique db.grants
    → (revoke env kb_id id actor r h db).0 ≡ ok g
    → g.subject_type ≡ user
    → any
        (is_current_for g.knowledge_base_id user g.subject_id)
        (revoke env kb_id id actor r h db).1.grants
      ≡ false
revoke-none_current env kb_id id actor r h db {g} u done kind =
    let after = (revoke env kb_id id actor r h db).1 in
    let w = service_revoke-Withdrawn env kb_id id actor r h db g done in
    subst (λ k. any (is_current_for g.knowledge_base_id k g.subject_id) after.grants ≡ false) kind
      (Withdrawn-none id r.expected_revision r.correlation_id env.now g db.grants after.grants u w)

-- From a table without duplicates: when Service.Revoke succeeds on a user's grant, the lookup that
-- authorization makes finds no grant of that user at any time afterwards, if its statement does
-- not fail.
pub revoke-not_effective :
    (env : Env) (kb_id id : String) (actor : Actor) (r : RevokeRequest) (h : Headers) (db : Db)
    (at : ℕ) {g : Grant}
    → IsUnique db.grants
    → (revoke env kb_id id actor r h db).0 ≡ ok g
    → g.subject_type ≡ user
    → failing (revoke env kb_id id actor r h db).1.faults ≡ false
    → (effective_user_grant g.knowledge_base_id g.subject_id at
        (revoke env kb_id id actor r h db).1).0
      ≡ err RepoErr.not_found
revoke-not_effective env kb_id id actor r h db at {g} u done kind f =
    effective-none g.knowledge_base_id g.subject_id at (revoke env kb_id id actor r h db).1 f
      (revoke-none_current env kb_id id actor r h db u done kind)
