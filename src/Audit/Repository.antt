-- ===== src/Audit/Repository.antt =====
-- internal/audit/audit.go: the statement on the table kb_access_audit_events.
use my_kb.Prelude.{not, String, ◌==◌, Option, none, some, [], ◌∷◌, ◌++◌, any, if◌then◌else◌}
use my_kb.Result.{ok, err, Exec, fail, fail_if}
use my_kb.Db.{Db, Env, statement}
use my_kb.Db.Times.{column_time}
use my_kb.Audit.{Event, is_valid}

pub data Err : Type 0 where
  invalid id_unavailable database : Err

insert : Event → Exec Db Err Unit
insert e db = if any (λ f. f.id == e.id) db.audit_log then (err database, db) else (
  ok tt,
  record db {
    audit_log = db.audit_log ++ ((record e { created_at = column_time e.created_at }) ∷ []);
  },
)

with_id : Env → Event → Option String → Exec Db Err Unit
unfolding insert statement
with_id env e none = fail id_unavailable
with_id env e (some id) =
    let event = record e { id = id } in
    fail_if (not (is_valid env.json_size event)) invalid (statement database (insert event))

-- Repository.Record
unfoldable pub record_event : Env → Event → Exec Db Err Unit
unfolding with_id
record_event env e = with_id env e (if e.id == "" then env.audit_id else some e.id)
