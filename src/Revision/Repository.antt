-- ===== src/Revision/Repository.antt =====
-- internal/revision/repository.go: the content revision of a knowledge base and its activity feed.
use my_kb.Prelude.{
  ℕ, ◌+◌, Bool, true, false, not, String, ◌==◌, ltb, Option, none, some, [], ◌∷◌, ◌++◌, find_row,
  update_where, any, if◌then◌else◌,
}
use my_kb.Result.{Result, ok, err, Exec, fail, fail_if, pure, ◌>>=◌, ◌>>◌}
use my_kb.Text.{is_blank}
use my_kb.Db.{Db, statement, transaction}
use my_kb.Db.Times.{column_time}
use my_kb.Revision.{ContentRevision, Activity, is_valid}

pub data Err : Type 0 where
  invalid not_found id_unavailable database : Err

unfoldable pub is_for : String → ContentRevision → Bool
is_for kb_id row = row.knowledge_base_id == kb_id

insert_row : Activity → Exec Db Err (Unit {0})
insert_row a db =
    if any (λ b. b.id == a.id) db.activities
    then (err database, db)
    else (ok tt, record db { activities = db.activities ++ (a ∷ []) })

-- insertActivity
unfoldable pub insert_activity :
    Option String → String → String → String → String → String → ℕ → ℕ → Exec Db Err (Unit {0})
unfolding insert_row statement
insert_activity none kb_id actor_id event_type summary correlation_id value at = fail id_unavailable
insert_activity (some id) kb_id actor_id event_type summary correlation_id value at =
    statement database (
      insert_row (record {
        id = id;
        knowledge_base_id = kb_id;
        actor_id = actor_id;
        event_type = event_type;
        content_revision = value;
        summary = summary;
        correlation_id = correlation_id;
        created_at = column_time at;
      }))

-- INSERT ... ON CONFLICT (knowledge_base_id) DO UPDATE SET change RETURNING content_revision,
-- and whether the row was inserted.
upsert :
    String
    → ℕ
    → (ContentRevision → ContentRevision)
    → Option ContentRevision
    → Exec Db Err (ℕ × Bool)
upsert kb_id at change none db = (
  ok (1, true),
  record db {
    revisions =
        db.revisions
        ++ (record { knowledge_base_id = kb_id; content_revision = 1; updated_at = column_time at }
            ∷ []);
  },
)
upsert kb_id at change (some row) db =
    if ltb 9223372036854775807 (change row).content_revision then (err database, db) else (
      ok ((change row).content_revision, false),
      record db { revisions = update_where (is_for kb_id) change db.revisions },
    )

unfoldable pub upsert_statement :
    String → ℕ → (ContentRevision → ContentRevision) → Exec Db Err (ℕ × Bool)
unfolding upsert is_for statement
upsert_statement kb_id at change =
    statement database λ db. upsert kb_id at change (find_row (is_for kb_id) db.revisions) db

unfoldable pub unchanged : ContentRevision → ContentRevision
unchanged row = row

unfoldable pub record_first :
    Bool
    → Option String
    → String
    → String
    → String
    → String
    → String
    → ℕ
    → ℕ
    → Exec Db Err (Unit {0})
unfolding insert_activity
record_first true id kb_id actor_id event_type summary correlation_id value at =
    insert_activity id kb_id actor_id event_type summary correlation_id value at
record_first false id kb_id actor_id event_type summary correlation_id value at = pure tt

-- What Ensure does between BeginTx and Commit.
unfoldable pub ensure_row :
    Option String → String → String → String → String → String → ℕ → Exec Db Err ℕ
ensure_row id kb_id actor_id event_type summary correlation_id at =
    upsert_statement kb_id at unchanged >>= λ row. (do
      record_first row.1 id kb_id actor_id event_type summary correlation_id row.0 at
      pure row.0)

-- Repository.Ensure
unfoldable pub ensure :
    Option String → String → String → String → String → String → ℕ → Exec Db Err ℕ
ensure id kb_id actor_id event_type summary correlation_id at =
    fail_if (not (is_valid kb_id actor_id event_type summary correlation_id at)) invalid (
      transaction database database
        (ensure_row id kb_id actor_id event_type summary correlation_id at))

current_of : Option ContentRevision → Result Err ℕ
current_of none = err not_found
current_of (some row) = ok row.content_revision

-- Repository.Current
unfoldable pub current : String → Exec Db Err ℕ
unfolding current_of is_for statement
current kb_id =
    fail_if (is_blank kb_id) invalid
      (statement database λ db. (current_of (find_row (is_for kb_id) db.revisions), db))

unfoldable pub bumped : ℕ → ContentRevision → ContentRevision
bumped at row = record row {
  content_revision = row.content_revision + 1;
  updated_at = column_time at;
}

-- What Increment does between BeginTx and Commit.
unfoldable pub increment_row :
    Option String → String → String → String → String → String → ℕ → Exec Db Err ℕ
increment_row id kb_id actor_id event_type summary correlation_id at =
    upsert_statement kb_id at (bumped at) >>= λ row. (do
      insert_activity id kb_id actor_id event_type summary correlation_id row.0 at
      pure row.0)

-- Repository.Increment
unfoldable pub increment :
    Option String → String → String → String → String → String → ℕ → Exec Db Err ℕ
increment id kb_id actor_id event_type summary correlation_id at =
    fail_if (not (is_valid kb_id actor_id event_type summary correlation_id at)) invalid (
      transaction database database
        (increment_row id kb_id actor_id event_type summary correlation_id at))
