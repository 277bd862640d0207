-- ===== src/Revision/Growth.antt =====
-- internal/revision/repository.go: the stored revisions before and after Ensure and Increment.
use my_kb.Db.Times.{column_time}
use my_kb.Prelude.{
  ℕ, ◌≤◌, ◌≡◌, refl, Bool, true, false, String, arith, Option, none, some, List, [], ◌∷◌, ◌++◌, inl,
  inr, find_row, update_where, Bool-cases, eq_iff,
}
use my_kb.Result.{Result-cases}
use my_kb.Db.{Db}
use my_kb.Db.Transactions.{begun, transaction-keeps}
use my_kb.Revision.{ContentRevision, is_valid}
use my_kb.Revision.Repository.{
  is_for, upsert_statement, ensure, increment, bumped, insert_activity, Err, increment_row,
  ensure_row, record_first, unchanged,
}

-- The revision that is stored for a knowledge base; 0 where there is none.
abbrev pub stored : Option ContentRevision → ℕ
stored none = 0
stored (some row) = row.content_revision

abbrev pub revision_of : String → List ContentRevision → ℕ
revision_of kb_id rows = stored (find_row (is_for kb_id) rows)

same_kb :
    (kb_id other : String) (row : ContentRevision)
    → is_for kb_id row ≡ true
    → is_for other row ≡ true
    → kb_id ≡ other
unfolding is_for
same_kb kb_id other row h k =
    ground (arith, eq_iff row.knowledge_base_id kb_id, eq_iff row.knowledge_base_id other)

-- Updates of rows that keep the knowledge base and do not lower the revision.
module _ (f : ContentRevision → ContentRevision)
    (keeps : (a : ContentRevision) → (f a).knowledge_base_id ≡ a.knowledge_base_id)
    (grows : (a : ContentRevision) → a.content_revision ≤ (f a).content_revision) where
  is_for_kept : (kb_id : String) (a : ContentRevision) → is_for kb_id (f a) ≡ is_for kb_id a
  unfolding is_for
  is_for_kept kb_id a = rw (keeps a) refl

  revision_of-update_where :
      (kb_id other : String) (rows : List ContentRevision)
      → revision_of kb_id rows ≤ revision_of kb_id (update_where (is_for other) f rows)
  revision_of-update_where kb_id other [] = omega arith
  revision_of-update_where kb_id other (x ∷ xs) =
      ground (arith, is_for_kept kb_id x, grows x, revision_of-update_where kb_id other xs)

revision_of-append :
    (kb_id : String) (rows : List ContentRevision) (row : ContentRevision)
    → revision_of kb_id rows ≤ revision_of kb_id (rows ++ row ∷ [])
revision_of-append kb_id [] row = omega arith
revision_of-append kb_id (x ∷ xs) row = ground (arith, revision_of-append kb_id xs row)

upsert-grows :
    (f : ContentRevision → ContentRevision)
    (keeps : (a : ContentRevision) → (f a).knowledge_base_id ≡ a.knowledge_base_id)
    (grows : (a : ContentRevision) → a.content_revision ≤ (f a).content_revision)
    (kb_id other : String) (at : ℕ) (db : Db)
    → revision_of kb_id db.revisions
      ≤ revision_of kb_id (upsert_statement other at f db).1.revisions
unfolding upsert_statement
upsert-grows f keeps grows kb_id other at db =
    let written = revision_of-update_where f keeps grows kb_id other db.revisions in
    let first =
      revision_of-append kb_id db.revisions
        (record { knowledge_base_id = other; content_revision = 1; updated_at = column_time at }) in
    ground arith

pub insert-keeps :
    (id : Option String) (kb_id actor_id event_type summary c : String) (value at : ℕ) (db : Db)
    → (insert_activity id kb_id actor_id event_type summary c value at db).1.revisions
      ≡ db.revisions
unfolding insert_activity
insert-keeps none kb_id actor_id event_type summary c value at db = refl
insert-keeps (some id) kb_id actor_id event_type summary c value at db = ground arith

pub bumped_kb :
    (at : ℕ) (a : ContentRevision) → (bumped at a).knowledge_base_id ≡ a.knowledge_base_id
unfolding bumped
bumped_kb at a = refl

bumped_up : (at : ℕ) (a : ContentRevision) → a.content_revision ≤ (bumped at a).content_revision
unfolding bumped
bumped_up at a = omega arith

unchanged_kb : (a : ContentRevision) → (unchanged a).knowledge_base_id ≡ a.knowledge_base_id
unfolding unchanged
unchanged_kb a = refl

unchanged_same : (a : ContentRevision) → a.content_revision ≤ (unchanged a).content_revision
unfolding unchanged
unchanged_same a = omega arith

record_first-keeps :
    (first : Bool) (id : Option String) (kb_id actor_id event_type summary c : String)
    (value at : ℕ) (db : Db)
    → (record_first first id kb_id actor_id event_type summary c value at db).1.revisions
      ≡ db.revisions
unfolding record_first
record_first-keeps true id kb_id actor_id event_type summary c value at db =
    insert-keeps id kb_id actor_id event_type summary c value at db
record_first-keeps false id kb_id actor_id event_type summary c value at db = refl

module _ (kb_id other : String) (id : Option String) (actor_id event_type summary c : String)
    (at : ℕ) (db : Db) where
  increment_row-grows :
      revision_of kb_id db.revisions
      ≤ revision_of kb_id (increment_row id other actor_id event_type summary c at db).1.revisions
  unfolding increment_row
  increment_row-grows =
      let grown = upsert-grows (bumped at) (λ a. bumped_kb at a) (bumped_up at) kb_id other at db in
      elim (Result-cases (upsert_statement other at (bumped at) db).0) [
        | inr (x, r) ↦ rw r grown
        | inl ((n, b), r) ↦
            let kept =
              insert-keeps id other actor_id event_type summary c n at
                (upsert_statement other at (bumped at) db).1 in
            ground arith
      ]

  ensure_row-grows :
      revision_of kb_id db.revisions
      ≤ revision_of kb_id (ensure_row id other actor_id event_type summary c at db).1.revisions
  unfolding ensure_row
  ensure_row-grows =
      let grown =
        upsert-grows unchanged (λ a. unchanged_kb a) (λ a. unchanged_same a) kb_id other at db in
      elim (Result-cases (upsert_statement other at unchanged db).0) [
        | inr (x, r) ↦ rw r grown
        | inl ((n, b), r) ↦
            let kept =
              record_first-keeps b id other actor_id event_type summary c n at
                (upsert_statement other at unchanged db).1 in
            ground arith
      ]

module _ (kb_id other : String) (id : Option String) (actor_id event_type summary c : String)
    (at : ℕ) (db : Db) where
  increment-grows :
      revision_of kb_id db.revisions
      ≤ revision_of kb_id (increment id other actor_id event_type summary c at db).1.revisions
  unfolding increment
  increment-grows = elim (Bool-cases (is_valid other actor_id event_type summary c at)) [
    | inl v ↦ rw v (
        transaction-keeps Err.database Err.database
          (increment_row id other actor_id event_type summary c at) db
          (λ d. revision_of kb_id db.revisions ≤ revision_of kb_id d.revisions) (λ d fs h. h)
          (omega arith)
          (increment_row-grows kb_id other id actor_id event_type summary c at (begun db)))
    | inr v ↦ rw v (omega arith)
  ]

  ensure-grows :
      revision_of kb_id db.revisions
      ≤ revision_of kb_id (ensure id other actor_id event_type summary c at db).1.revisions
  unfolding ensure
  ensure-grows = elim (Bool-cases (is_valid other actor_id event_type summary c at)) [
    | inl v ↦ rw v (
        transaction-keeps Err.database Err.database
          (ensure_row id other actor_id event_type summary c at) db
          (λ d. revision_of kb_id db.revisions ≤ revision_of kb_id d.revisions) (λ d fs h. h)
          (omega arith)
          (ensure_row-grows kb_id other id actor_id event_type summary c at (begun db)))
    | inr v ↦ rw v (omega arith)
  ]

-- One call that writes revisions, whoever makes it, whether it succeeds or not.
pub data Step : Db → Db → Type 0 where
  ensured :
      (id : Option String) (kb_id actor_id event_type summary c : String) (at : ℕ) (db : Db)
      → Step db (ensure id kb_id actor_id event_type summary c at db).1
  incremented :
      (id : Option String) (kb_id actor_id event_type summary c : String) (at : ℕ) (db : Db)
      → Step db (increment id kb_id actor_id event_type summary c at db).1

pub data Reach (start : Db) : Db → Type 0 where
  here : Reach start start
  next : {db db' : Db} → Reach start db → Step db db' → Reach start db'

Step-grows :
    (kb_id : String) {db db' : Db}
    → Step db db'
    → revision_of kb_id db.revisions ≤ revision_of kb_id db'.revisions
Step-grows kb_id (ensured id other actor_id event_type summary c at db) =
    ensure-grows kb_id other id actor_id event_type summary c at db
Step-grows kb_id (incremented id other actor_id event_type summary c at db) =
    increment-grows kb_id other id actor_id event_type summary c at db

-- Whatever calls of Ensure and Increment run, in whatever order and with whatever failures: the
-- stored revision of no knowledge base is ever lowered.
pub never_lower :
    (kb_id : String) {start db : Db}
    → Reach start db
    → revision_of kb_id start.revisions ≤ revision_of kb_id db.revisions
never_lower kb_id here = omega arith
never_lower kb_id (next r s) =
    let before = never_lower kb_id r in let step = Step-grows kb_id s in omega arith
