-- ===== src/Revision/Counting.antt =====
-- internal/revision/repository.go: what a successful Increment gives and stores.
use my_kb.Prelude.{
  ℕ, ◌+◌, ◌≢◌, ◌≡◌, refl, ap, ◌∙◌, Bool, true, String, arith, none, some, List, [], ◌∷◌, ◌++◌, inl,
  inr, find_row, update_where, Bool-cases, Option-cases, eq_iff,
}
use my_kb.Prelude.Rows.{find_row-append}
use my_kb.Result.{ok, Result-cases}
use my_kb.Db.Times.{column_time}
use my_kb.Db.{Db}
use my_kb.Db.Transactions.{begun, transaction-ok}
use my_kb.Revision.{ContentRevision, Activity, is_valid}
use my_kb.Revision.Repository.{
  is_for, upsert_statement, increment, bumped, insert_activity, Err, increment_row,
}
use my_kb.Revision.Growth.{revision_of, insert-keeps, bumped_kb}

find_row-update_where :
    (kb_id : String) (f : ContentRevision → ContentRevision)
    (kept : (a : ContentRevision) → is_for kb_id (f a) ≡ is_for kb_id a) (xs : List ContentRevision)
    (x : ContentRevision)
    → find_row (is_for kb_id) xs ≡ some x
    → find_row (is_for kb_id) (update_where (is_for kb_id) f xs) ≡ some (f x)
find_row-update_where kb_id f kept [] x h = cc
find_row-update_where kb_id f kept (y ∷ ys) x h =
    ground (arith, kept y, find_row-update_where kb_id f kept ys x)

is_for-bumped :
    (kb_id : String) (at : ℕ) (a : ContentRevision) → is_for kb_id (bumped at a) ≡ is_for kb_id a
unfolding is_for
is_for-bumped kb_id at a = rw (bumped_kb at a) refl

is_for-first :
    (kb_id : String) (at : ℕ)
    → is_for kb_id (record { knowledge_base_id = kb_id; content_revision = 1; updated_at = at })
      ≡ true
unfolding is_for
is_for-first kb_id at = ground (arith, eq_iff kb_id kb_id)

upsert-counts :
    (kb_id : String) (at : ℕ) (db : Db) (n : ℕ) (b : Bool)
    → (upsert_statement kb_id at (bumped at) db).0 ≡ ok (n, b)
    → (n ≡ revision_of kb_id db.revisions + 1)
      × (revision_of kb_id (upsert_statement kb_id at (bumped at) db).1.revisions ≡ n)
      × ((upsert_statement kb_id at (bumped at) db).1.activities ≡ db.activities)
unfolding upsert_statement bumped
upsert-counts kb_id at db n b h = elim (Option-cases (find_row (is_for kb_id) db.revisions)) [
  | inl e ↦
      let first : ContentRevision = record {
        knowledge_base_id = kb_id;
        content_revision = 1;
        updated_at = column_time at;
      } in
      ground (arith, is_for-first kb_id at, find_row-append (is_for kb_id) db.revisions first e)
  | inr (row, e) ↦
      ground
        (arith, find_row-update_where kb_id (bumped at) (is_for-bumped kb_id at) db.revisions row e)
]

-- The event of an activity feed.
abbrev pub event : String → String → String → String → String → String → ℕ → ℕ → Activity
event id kb_id actor_id event_type summary c value at = record {
  id = id;
  knowledge_base_id = kb_id;
  actor_id = actor_id;
  event_type = event_type;
  content_revision = value;
  summary = summary;
  correlation_id = c;
  created_at = column_time at;
}

insert-adds :
    (id : String) (kb_id actor_id event_type summary c : String) (value at : ℕ) (db : Db)
    (x : Unit {0})
    → (insert_activity (some id) kb_id actor_id event_type summary c value at db).0 ≡ ok x
    → (insert_activity (some id) kb_id actor_id event_type summary c value at db).1.activities
      ≡ db.activities ++ event id kb_id actor_id event_type summary c value at ∷ []
unfolding insert_activity
insert-adds id kb_id actor_id event_type summary c value at db x h = ground arith

insert-id :
    (kb_id actor_id event_type summary c : String) (value at : ℕ) (db : Db) (x : Unit {0})
    → (insert_activity none kb_id actor_id event_type summary c value at db).0 ≢ ok x
unfolding insert_activity
insert-id kb_id actor_id event_type summary c value at db x h = cc

-- What Increment did to the rows.
pub record Counted (kb_id : String) (n : ℕ) (e : Activity) (before after : Db) : Type 0 where
  pub one_more : n ≡ revision_of kb_id before.revisions + 1
  pub kept : revision_of kb_id after.revisions ≡ n
  pub logged : after.activities ≡ before.activities ++ e ∷ []

increment_row-Counted :
    (id kb_id actor_id event_type summary c : String) (at n : ℕ) (db : Db)
    → (increment_row (some id) kb_id actor_id event_type summary c at db).0 ≡ ok n
    → Counted kb_id n
        (event id kb_id actor_id event_type summary c n at)
        db
        (increment_row (some id) kb_id actor_id event_type summary c at db).1
unfolding increment_row
increment_row-Counted id kb_id actor_id event_type summary c at n db h =
    let written = upsert_statement kb_id at (bumped at) db in
    elim (Result-cases written.0) [
      | inr (x, r) ↦ absurd (ground arith)
      | inl ((k, b), r) ↦
          let (one_more, kept, same) = upsert-counts kb_id at db k b r in
          let log = insert_activity (some id) kb_id actor_id event_type summary c k at written.1 in
          let rows = insert-keeps (some id) kb_id actor_id event_type summary c k at written.1 in
          elim (Result-cases log.0) [
            | inr (x, s) ↦ absurd (ground arith)
            | inl (x, s) ↦
                let added = insert-adds id kb_id actor_id event_type summary c k at written.1 x s in
                let same_n : k ≡ n = ground arith in
                rw (r, s, ← same_n)
                  (record {
                    one_more = one_more;
                    kept = rw rows kept;
                    logged =
                        added
                        ∙ ap (λ l. l ++ event id kb_id actor_id event_type summary c k at ∷ [])
                            same;
                  })
          ]
    ]

-- Increment succeeds only with the revision after the stored one, which it stores, and with one
-- event of that revision at the end of the activity feed.
pub increment-Counted :
    (id kb_id actor_id event_type summary c : String) (at : ℕ) (db : Db) {n : ℕ}
    → (increment (some id) kb_id actor_id event_type summary c at db).0 ≡ ok n
    → Counted kb_id n
        (event id kb_id actor_id event_type summary c n at)
        db
        (increment (some id) kb_id actor_id event_type summary c at db).1
unfolding increment
increment-Counted id kb_id actor_id event_type summary c at db {n} h =
    elim (Bool-cases (is_valid kb_id actor_id event_type summary c at)) [
      | inr v ↦ absurd (ground arith)
      | inl v ↦
          let body = increment_row (some id) kb_id actor_id event_type summary c at in
          let (done, same) = transaction-ok Err.database Err.database body db n (rw v at h) in
          let counted =
            increment_row-Counted id kb_id actor_id event_type summary c at n (begun db) done in
          rw v (record {
            one_more = counted.one_more;
            kept = rw same counted.kept;
            logged = rw same counted.logged;
          })
    ]
