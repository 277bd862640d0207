-- ===== src/Grant/Creation.antt =====
-- internal/grant/service.go: Create.
use my_kb.Prelude.{
  ℕ, ◌≡◌, refl, true, false, String, arith, eq_iff, eq_refl, Option, none, some, inl, inr, List, [],
  ◌∷◌, ◌++◌, find_row, ◌⊎◌, ◌≤◌, Bool-cases,
}
use my_kb.Prelude.Rows.{find_row-append}
use my_kb.Result.{Result, ok, err, Result-cases}
use my_kb.Http.{Headers}
use my_kb.Db.{Db, Env}
use my_kb.Ownership.{Ownership, resolve, owns_personal_notes}
use my_kb.Grant.{
  Grant, is_valid, nil_or_after, SubjectType, user, other, Permission, same_subject_type,
  same_permission,
}
use my_kb.Grant.Repository
use my_kb.Grant.Repository.{
  RepoErr, find_current_by_subject, scan_grant, is_current_for, collides, as_stored, fits,
}
use my_kb.Db.Times.{column_time, column_times, column_time_le, column_time_past}
use my_kb.Grant.Service.{
  Actor, CreateRequest, create, create_new, candidate, after_find, after_insert, after_lost_race,
  record_audit, same_grant_request, same_time, validate_create_request, require_owner,
}
use my_kb.Grant.Owner.{require_owner-ok, grants-record_event}

pub grants-find_current :
    (kb : String) (k : SubjectType) (s : String) (db : Db)
    → (find_current_by_subject kb k s db).1.grants ≡ db.grants
unfolding find_current_by_subject
grants-find_current kb k s db = ground arith

pub find_current-ok :
    (kb : String) (k : SubjectType) (s : String) (g : Grant) (db : Db)
    → (find_current_by_subject kb k s db).0 ≡ ok g
    → (find_row (is_current_for kb k s) db.grants ≡ some g) × (is_valid g ≡ true)
unfolding find_current_by_subject
find_current-ok kb k s g db h = ground arith

pub find_current-not_found :
    (kb : String) (k : SubjectType) (s : String) (db : Db)
    → (find_current_by_subject kb k s db).0 ≡ err RepoErr.not_found
    → find_row (is_current_for kb k s) db.grants ≡ none
unfolding find_current_by_subject
find_current-not_found kb k s db h = ground arith

-- The row is appended and comes back, or nothing is written.
create-ok :
    (g g' : Grant) (db : Db)
    → (Repository.create g db).0 ≡ ok g'
    → (g' ≡ g)
      × ((Repository.create g db).1.grants ≡ db.grants ++ as_stored g ∷ [])
      × (is_valid g ≡ true)
      × (fits (as_stored g) ≡ true)
unfolding Repository.create
create-ok g g' db h = ground arith

pub create-err :
    (g : Grant) (e : RepoErr) (db : Db)
    → (Repository.create g db).0 ≡ err e
    → (Repository.create g db).1.grants ≡ db.grants
unfolding Repository.create
create-err g e db h = ground arith

pub grants-record_audit :
    (env : Env) (o : Ownership) (actor : Actor) (action : String) (old : Option Grant) (new : Grant)
    (c : String) (db : Db)
    → (record_audit env o actor action old new c db).1.grants ≡ db.grants
unfolding record_audit
grants-record_audit env o actor action old new c db = grind (arith, grants-record_event)

-- The grant that is returned is what the request asks for. It is the subject's row, or the row is
-- what the columns keep of it; that row validates, and it has not expired at the given time.
pub record Meets (kb_id : String) (r : CreateRequest) (now : ℕ) (g : Grant) (gs : List Grant)
    : Type 0 where
  pub permission : g.permission ≡ r.permission
  pub expiry : g.expires_at ≡ r.expires_at
  pub row : Grant
  pub stored : find_row (is_current_for kb_id r.subject_type r.subject_id) gs ≡ some row
  pub kept : (row ≡ g) ⊎ (row ≡ as_stored g)
  pub valid : is_valid row ≡ true
  pub unexpired : nil_or_after row.expires_at (column_time now) ≡ true

pub validated-user :
    (r : CreateRequest) (o : Ownership) (now : ℕ)
    → validate_create_request r o now ≡ ok tt
    → (r.subject_type ≡ user) × (nil_or_after r.expires_at now ≡ true)
unfolding validate_create_request
validated-user r o now h = ground arith

-- What is after a time is after what a column keeps of it.
after_column :
    (t : Option ℕ) (now : ℕ) → nil_or_after t now ≡ true → nil_or_after t (column_time now) ≡ true
unfolding nil_or_after
after_column none now h = refl
after_column (some t) now h = ground (arith, column_time_le now)

pub same_subject_type_refl : (k : SubjectType) → same_subject_type k k ≡ true
unfolding same_subject_type
same_subject_type_refl (other s) = eq_refl s
same_subject_type_refl user = refl
same_subject_type_refl _ = refl

same_permission-eq : (p q : Permission) → same_permission p q ≡ true → p ≡ q
unfolding same_permission
same_permission-eq (other s) (other t) h = ground (arith, eq_iff s t)
same_permission-eq Permission.viewer q h = ground arith
same_permission-eq Permission.editor q h = ground arith
same_permission-eq (other s) q h = ground arith

same_time-eq : (s t : Option ℕ) → same_time s t ≡ true → s ≡ t
unfolding same_time
same_time-eq (some s) (some t) h = ground arith
same_time-eq s t h = ground arith

pub asked :
    (g : Grant) (r : CreateRequest)
    → same_grant_request g r ≡ true
    → (g.permission ≡ r.permission) × (g.expires_at ≡ r.expires_at)
unfolding same_grant_request
asked g r h =
    ground
      (arith, same_permission-eq g.permission r.permission, same_time-eq g.expires_at r.expires_at)

-- A fresh row is the current one of its subject and is what was asked for.
module _ (env : Env) (id kb_id : String) (actor : Actor) (r : CreateRequest) where
  candidate-is_current :
      is_current_for kb_id r.subject_type r.subject_id (as_stored (candidate env id kb_id actor r))
      ≡ true
  unfolding candidate is_current_for as_stored column_times
  candidate-is_current =
      ground (arith, eq_refl kb_id, eq_refl r.subject_id, same_subject_type_refl r.subject_type)

  candidate-asked :
      ((candidate env id kb_id actor r).permission ≡ r.permission)
      × ((candidate env id kb_id actor r).expires_at ≡ r.expires_at)
  unfolding candidate
  candidate-asked = (refl, refl)

  -- The new row validates when it is read, and has not expired.
  candidate-readable :
      1000 ≤ env.now
      → is_valid (candidate env id kb_id actor r) ≡ true
      → fits (as_stored (candidate env id kb_id actor r)) ≡ true
      → (is_valid (as_stored (candidate env id kb_id actor r)) ≡ true)
        × (nil_or_after
              (as_stored (candidate env id kb_id actor r)).expires_at
              (column_time env.now)
            ≡ true)
  unfolding candidate as_stored is_valid fits column_times
  candidate-readable past valid kept = (ground (arith, column_time_past env.now past), ground arith)

module _ (env : Env) (o : Ownership) (kb_id : String) (actor : Actor) (r : CreateRequest) where
  pub grants-after_insert :
      (res : Result RepoErr Grant) (db : Db)
      → (after_insert env o kb_id actor r res db).1.grants ≡ db.grants
  unfolding after_insert after_lost_race
  grants-after_insert (ok c) db =
      ground (arith, grants-record_audit env o actor "grant.create" none c r.correlation_id db)
  grants-after_insert (err RepoErr.conflict) db =
      ground (arith, grants-find_current kb_id r.subject_type r.subject_id db)
  grants-after_insert (err _) db = refl

module _ (env : Env) (o : Ownership) (kb_id : String) (actor : Actor) (r : CreateRequest)
    (g : Grant) (past : 1000 ≤ env.now) (live : nil_or_after r.expires_at env.now ≡ true) where
  found-Meets :
      (x : Grant) (gs : List Grant)
      → find_row (is_current_for kb_id r.subject_type r.subject_id) gs ≡ some x
      → is_valid x ≡ true
      → same_grant_request x r ≡ true
      → Meets kb_id r env.now x gs
  found-Meets x gs found valid same =
      let (permission, expiry) = asked x r same in
      record {
        permission = permission;
        expiry = expiry;
        row = x;
        stored = found;
        kept = inl refl;
        valid = valid;
        unexpired = rw expiry (after_column r.expires_at env.now live);
      }

  after_insert-ok :
      (c : Grant) (db : Db) → (after_insert env o kb_id actor r (ok c) db).0 ≡ ok g → c ≡ g
  unfolding after_insert
  after_insert-ok c db h = ground arith

  after_insert-err :
      (e : RepoErr) (db : Db)
      → (after_insert env o kb_id actor r (err e) db).0 ≡ ok g
      → Meets kb_id r env.now g db.grants
  unfolding after_insert after_lost_race
  after_insert-err RepoErr.conflict db h =
      let found = find_current_by_subject kb_id r.subject_type r.subject_id db in
      elim (Result-cases found.0) [
        | inr (x, e) ↦ absurd (ground arith)
        | inl (x, e) ↦ elim (Bool-cases (same_grant_request x r)) [
          | inr differs ↦ absurd (ground arith)
          | inl same ↦
              let this : x ≡ g = ground arith in
              let (row, valid) = find_current-ok kb_id r.subject_type r.subject_id x db e in
              rw (← this) (found-Meets x db.grants row valid same)
        ]
      ]
  after_insert-err _ db h = ground arith

  inserted-Meets :
      (id : String) (db : Db)
      → find_row (is_current_for kb_id r.subject_type r.subject_id) db.grants ≡ none
      → (c : Grant) → (Repository.create (candidate env id kb_id actor r) db).0 ≡ ok c
      → Meets kb_id r env.now c (Repository.create (candidate env id kb_id actor r) db).1.grants
  inserted-Meets id db vacant c h =
      let new = candidate env id kb_id actor r in
      let (same, rows, valid, kept) = create-ok new c db h in
      let (readable, unexpired) = candidate-readable env id kb_id actor r past valid kept in
      let last =
        find_row-append (is_current_for kb_id r.subject_type r.subject_id) db.grants (as_stored new)
          vacant in
      rw (same, rows)
        (record {
          permission = (candidate-asked env id kb_id actor r).0;
          expiry = (candidate-asked env id kb_id actor r).1;
          row = as_stored new;
          stored = rw last (rw (candidate-is_current env id kb_id actor r) refl);
          kept = inr refl;
          valid = readable;
          unexpired = unexpired;
        })

  create_new-Meets :
      (fresh : Option String) (db : Db)
      → find_row (is_current_for kb_id r.subject_type r.subject_id) db.grants ≡ none
      → (create_new env o kb_id actor r fresh db).0 ≡ ok g
      → Meets kb_id r env.now g (create_new env o kb_id actor r fresh db).1.grants
  unfolding create_new
  create_new-Meets none db vacant h = cc
  create_new-Meets (some id) db vacant h =
      let new = candidate env id kb_id actor r in
      let db' = (Repository.create new db).1 in
      elim (Result-cases (Repository.create new db).0) [
        | inl (c, e) ↦
            let same = after_insert-ok c db' (rw e at h) in
            rw (grants-after_insert env o kb_id actor r (Repository.create new db).0 db')
              (rw (← same) (inserted-Meets id db vacant c e))
        | inr (x, e) ↦
            rw (grants-after_insert env o kb_id actor r (Repository.create new db).0 db')
              (after_insert-err x db' (rw e at h))
      ]

  after_find-Meets :
      (res : Result RepoErr Grant) (db : Db)
      → ((x : Grant)
          → res ≡ ok x
          → (find_row (is_current_for kb_id r.subject_type r.subject_id) db.grants ≡ some x)
            × (is_valid x ≡ true))
      → (res ≡ err RepoErr.not_found
          → find_row (is_current_for kb_id r.subject_type r.subject_id) db.grants ≡ none)
      → (after_find env o kb_id actor r res db).0 ≡ ok g
      → Meets kb_id r env.now g (after_find env o kb_id actor r res db).1.grants
  unfolding after_find
  after_find-Meets (ok x) db found missing h = elim (Bool-cases (same_grant_request x r)) [
    | inr differs ↦ absurd (cc (rw (after_find, differs) at h))
    | inl same ↦
        let this : x ≡ g = cc (rw (after_find, same) at h) in
        let (row, valid) = found x refl in
        rw (after_find, same) (rw (← this) (found-Meets x db.grants row valid same))
  ]
  after_find-Meets (err RepoErr.not_found) db found missing h =
      create_new-Meets env.new_id db (missing refl) h
  after_find-Meets (err _) db found missing h = cc

looked_up-Meets :
    (env : Env) (o : Ownership) (kb_id : String) (actor : Actor) (r : CreateRequest) (g : Grant)
    (db : Db)
    → 1000 ≤ env.now
    → nil_or_after r.expires_at env.now ≡ true
    → let found = find_current_by_subject kb_id r.subject_type r.subject_id db in
      (after_find env o kb_id actor r found.0 found.1).0 ≡ ok g
      → Meets kb_id r env.now g (after_find env o kb_id actor r found.0 found.1).1.grants
looked_up-Meets env o kb_id actor r g db past live =
    let rows = grants-find_current kb_id r.subject_type r.subject_id db in
    let found = find_current_by_subject kb_id r.subject_type r.subject_id db in
    after_find-Meets env o kb_id actor r g past live found.0 found.1
      (λ x e. rw rows (find_current-ok kb_id r.subject_type r.subject_id x db e))
      (λ e. rw rows (find_current-not_found kb_id r.subject_type r.subject_id db e))

-- Service.Create succeeds only for the owner of a knowledge base that is not Personal Notes and
-- for a request that validates. The grant that it returns then has the permission and the expiry
-- asked for, and the unrevoked row of the subject is that grant, or what the columns keep of it,
-- whose times are whole microseconds. That row validates when it is read and has not expired at the
-- time of the request. Assumes that the clock is past the first microsecond of Go's times.
pub create-Meets :
    (env : Env) (kb_id : String) (actor : Actor) (r : CreateRequest) (h : Headers) (db : Db)
    {g : Grant}
    → 1000 ≤ env.now
    → (create env kb_id actor r h db).0 ≡ ok g
    → Meets kb_id r env.now g (create env kb_id actor r h db).1.grants
      × ((o : Ownership) × ((resolve env.upstream kb_id h db).0 ≡ ok o)
          × (actor.user_id ≡ o.owner_user_id)
          × (actor.tenant_id ≡ o.tenant_id)
          × (owns_personal_notes o ≡ false)
          × (validate_create_request r o env.now ≡ ok tt))
unfolding create
create-Meets env kb_id actor r h db {g} past done =
    elim (Result-cases (require_owner env kb_id actor h db).0) [
      | inr (x, e) ↦ absurd (ground arith)
      | inl (o, e) ↦ elim (Result-cases (validate_create_request r o env.now)) [
        | inr (x, v) ↦ absurd (ground arith)
        | inl (_, v) ↦
            let (found, by_user, by_tenant, shareable) =
              require_owner-ok env kb_id actor h o db e in
            (
              rw (e, v)
                  (looked_up-Meets env o kb_id actor r g (require_owner env kb_id actor h db).1 past
                    (validated-user r o env.now v).1 (rw (e, v) at done)),
              (o, found, by_user, by_tenant, shareable, v),
            )
      ]
    ]
