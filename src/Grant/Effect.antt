-- ===== src/Grant/Effect.antt =====
-- internal/grant: what Create and Revoke change for EffectiveUserGrant, the lookup by which the
-- authorization decision reads grants.
use my_kb.Prelude.{
  ℕ, ◌≡◌, true, false, String, ◌&&◌, arith, ◌⊎◌, ◌≤◌, Option, none, some, inl, inr, List, find_row,
  any,
}
use my_kb.Prelude.Rows.{find_row-holds, find_row-narrow, find_row-none, any_mono}
use my_kb.Result.{Result, ok, err, Result-cases}
use my_kb.Http.{Headers}
use my_kb.Db.{Db, Env, failing}
use my_kb.Grant.{Grant, user, editor, is_valid, same_permission}
use my_kb.Grant.Repository
use my_kb.Grant.Repository.{
  RepoErr, as_stored, effective_user_grant, is_effective, best_row, is_current_for, scan_grant,
  collides, find_current_by_subject,
}
use my_kb.Grant.Uniqueness.{IsUnique, create-IsUnique, current-collides}
use my_kb.Grant.Creation.{validated-user, create-Meets, grants-after_insert, grants-find_current}
use my_kb.Grant.Owner.{grants-require_owner}
use my_kb.Ownership.{Ownership}
use mathlib.Core.Path.{subst}
use my_kb.Grant.Service.{
  Actor, CreateRequest, create, create_new, candidate, after_find, require_owner,
  validate_create_request,
}

is_effective-is_current :
    (kb_id user_id : String) (at : ℕ) (g : Grant)
    → is_effective kb_id user_id at g ≡ true
    → is_current_for kb_id user user_id g ≡ true
unfolding is_effective
is_effective-is_current kb_id user_id at g h = ground arith

editor-is_current :
    (kb_id user_id : String) (at : ℕ) (g : Grant)
    → (is_effective kb_id user_id at g && same_permission g.permission editor) ≡ true
    → is_current_for kb_id user user_id g ≡ true
editor-is_current kb_id user_id at g h = is_effective-is_current kb_id user_id at g (ground arith)

-- The one current row is what the ordered query returns.
best_row-current :
    (kb_id user_id : String) (at : ℕ) (gs : List Grant) (g : Grant)
    → IsUnique gs
    → find_row (is_current_for kb_id user user_id) gs ≡ some g
    → is_effective kb_id user_id at g ≡ true
    → best_row (is_effective kb_id user_id at) gs ≡ some g
unfolding best_row
best_row-current kb_id user_id at gs g u h e =
    let narrow =
      find_row-narrow collides (is_current_for kb_id user user_id)
        (current-collides kb_id user user_id) in
    let editors =
      narrow (λ a. is_effective kb_id user_id at a && same_permission a.permission editor)
        (editor-is_current kb_id user_id at) gs g u h in
    let rows =
      narrow (is_effective kb_id user_id at) (is_effective-is_current kb_id user_id at) gs g u h in
    ground arith

pub effective-current :
    (kb_id user_id : String) (at : ℕ) (g : Grant) (db : Db)
    → IsUnique db.grants
    → failing db.faults ≡ false
    → find_row (is_current_for kb_id user user_id) db.grants ≡ some g
    → is_valid g ≡ true
    → is_effective kb_id user_id at g ≡ true
    → (effective_user_grant kb_id user_id at db).0 ≡ ok g
unfolding effective_user_grant
effective-current kb_id user_id at g db u f h v e =
    ground (arith, best_row-current kb_id user_id at db.grants g u h e)

-- No current row: the ordered query returns none.
pub best_row-none :
    (kb_id user_id : String) (at : ℕ) (gs : List Grant)
    → any (is_current_for kb_id user user_id) gs ≡ false
    → best_row (is_effective kb_id user_id at) gs ≡ none
unfolding best_row
best_row-none kb_id user_id at gs h =
    let is_editor =
      λ (a : Grant). is_effective kb_id user_id at a && same_permission a.permission editor in
    let editors = find_row-none is_editor gs (
      any_mono (is_current_for kb_id user user_id) is_editor (editor-is_current kb_id user_id at) gs
        h) in
    let rows = find_row-none (is_effective kb_id user_id at) gs (
      any_mono (is_current_for kb_id user user_id) (is_effective kb_id user_id at)
        (is_effective-is_current kb_id user_id at) gs h) in
    ground arith

pub effective-none :
    (kb_id user_id : String) (at : ℕ) (db : Db)
    → failing db.faults ≡ false
    → any (is_current_for kb_id user user_id) db.grants ≡ false
    → (effective_user_grant kb_id user_id at db).0 ≡ err RepoErr.not_found
unfolding effective_user_grant
effective-none kb_id user_id at db f h = ground (arith, best_row-none kb_id user_id at db.grants h)

create_new-IsUnique :
    (env : Env) (o : Ownership) (kb_id : String) (actor : Actor) (r : CreateRequest)
    (fresh : Option String) (db : Db)
    → IsUnique db.grants
    → IsUnique (create_new env o kb_id actor r fresh db).1.grants
unfolding create_new
create_new-IsUnique env o kb_id actor r none db u = u
create_new-IsUnique env o kb_id actor r (some id) db u =
    let new = candidate env id kb_id actor r in
    rw
      (grants-after_insert env o kb_id actor r (Repository.create new db).0
        (Repository.create new db).1)
      (create-IsUnique new db u)

after_find-IsUnique :
    (env : Env) (o : Ownership) (kb_id : String) (actor : Actor) (r : CreateRequest)
    (res : Result RepoErr Grant) (db : Db)
    → IsUnique db.grants
    → IsUnique (after_find env o kb_id actor r res db).1.grants
unfolding after_find
after_find-IsUnique env o kb_id actor r (ok g) db u = ground arith
after_find-IsUnique env o kb_id actor r (err RepoErr.not_found) db u =
    create_new-IsUnique env o kb_id actor r env.new_id db u
after_find-IsUnique env o kb_id actor r (err _) db u = u

pub service_create-IsUnique :
    (env : Env) (kb_id : String) (actor : Actor) (r : CreateRequest) (h : Headers) (db : Db)
    → IsUnique db.grants
    → IsUnique (create env kb_id actor r h db).1.grants
unfolding create
service_create-IsUnique env kb_id actor r h db u =
    let kept = grants-require_owner env kb_id actor h db in
    let db' = (require_owner env kb_id actor h db).1 in
    elim (Result-cases (require_owner env kb_id actor h db).0) [
      | inr (x, e) ↦ rw (e, kept) u
      | inl (o, e) ↦ elim (Result-cases (validate_create_request r o env.now)) [
        | inr (x, v) ↦ rw (e, v) (rw kept u)
        | inl (_, v) ↦
            let found = find_current_by_subject kb_id r.subject_type r.subject_id db' in
            rw (e, v)
              (after_find-IsUnique env o kb_id actor r found.0 found.1
                (rw grants-find_current (rw kept u)))
      ]
    ]

-- From a table without duplicates: when Service.Create succeeds, the lookup that authorization
-- makes, at the time of the request and if its statement does not fail, finds a grant, and it is the
-- one that was returned or what the columns keep of it. Assumes that the clock is past the first
-- microsecond of Go's times.
pub create-effective :
    (env : Env) (kb_id : String) (actor : Actor) (r : CreateRequest) (h : Headers) (db : Db)
    {g : Grant}
    → IsUnique db.grants
    → 1000 ≤ env.now
    → (create env kb_id actor r h db).0 ≡ ok g
    → failing (create env kb_id actor r h db).1.faults ≡ false
    → (row : Grant) × ((effective_user_grant kb_id r.subject_id env.now
          (create env kb_id actor r h db).1).0
        ≡ ok row)
      × ((row ≡ g) ⊎ (row ≡ as_stored g))
unfolding is_effective
create-effective env kb_id actor r h db {g} u past done f =
    let (m, entry) = create-Meets env kb_id actor r h db past done in
    let (o, found, by_user, by_tenant, shareable, v) = entry in
    let (kind, live) = validated-user r o env.now v in
    let after = (create env kb_id actor r h db).1 in
    let stored =
      subst (λ k. find_row (is_current_for kb_id k r.subject_id) after.grants ≡ some m.row) kind
        m.stored in
    let current =
      find_row-holds (is_current_for kb_id user r.subject_id) after.grants m.row stored in
    let unexpired = m.unexpired in
    let open_now : is_effective kb_id r.subject_id env.now m.row ≡ true = ground arith in
    (
      m.row,
      effective-current kb_id r.subject_id env.now m.row after
          (service_create-IsUnique env kb_id actor r h db u) f stored m.valid open_now,
      m.kept,
    )
