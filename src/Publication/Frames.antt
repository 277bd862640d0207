-- ===== src/Publication/Frames.antt =====
-- internal/publication/service.go: calls that leave the tables as they were.
use my_kb.Prelude.{◌≡◌, true, String, arith, Option, some, find_row}
use my_kb.Result.{ok}
use my_kb.Http.{Headers}
use my_kb.Db.{Db, Env}
use my_kb.Frames.{SameRows, SameRows-resolve, SameRows-record_event}
use my_kb.Ownership.{Ownership}
use my_kb.Publication.{Publication, is_valid}
use my_kb.Publication.Repository.{get_by_kb, is_of}
use my_kb.Publication.Service.{Actor, require_owner, check_owner, record_denied, record_audit}

SameRows-record_denied :
    (env : Env) (o : Ownership) (actor : Actor) (h : Headers) (db : Db)
    → SameRows db (record_denied env o actor h db).1
unfolding record_denied
SameRows-record_denied env o actor h db = record {
  grants = grind (arith, SameRows-record_event);
  publications = grind (arith, SameRows-record_event);
  subscriptions = grind (arith, SameRows-record_event);
}

SameRows-check_owner :
    (env : Env) (actor : Actor) (h : Headers) (o : Ownership) (db : Db)
    → SameRows db (check_owner env actor h o db).1
unfolding check_owner
SameRows-check_owner env actor h o db =
    let same = SameRows-record_denied env o actor h db in
    record {
      grants = ground (arith, same.grants);
      publications = ground (arith, same.publications);
      subscriptions = ground (arith, same.subscriptions);
    }

pub SameRows-require_owner :
    (env : Env) (kb_id : String) (actor : Actor) (h : Headers) (db : Db)
    → SameRows db (require_owner env kb_id actor h db).1
unfolding require_owner
SameRows-require_owner env kb_id actor h db = record {
  grants = grind (arith, SameRows-check_owner, SameRows-resolve);
  publications = grind (arith, SameRows-check_owner, SameRows-resolve);
  subscriptions = grind (arith, SameRows-check_owner, SameRows-resolve);
}

pub SameRows-record_audit :
    (env : Env) (o : Ownership) (actor : Actor) (action : String) (old : Option Publication)
    (new : Publication) (c : String) (db : Db)
    → SameRows db (record_audit env o actor action old new c db).1
unfolding record_audit
SameRows-record_audit env o actor action old new c db = record {
  grants = grind (arith, SameRows-record_event);
  publications = grind (arith, SameRows-record_event);
  subscriptions = grind (arith, SameRows-record_event);
}

-- What a lookup by knowledge base that succeeds has found.
pub get_by_kb-ok :
    (kb_id : String) (p : Publication) (db : Db)
    → (get_by_kb kb_id db).0 ≡ ok p
    → (find_row (is_of kb_id) db.publications ≡ some p) × (is_valid p ≡ true)
unfolding get_by_kb
get_by_kb-ok kb_id p db h = ground arith

pub SameRows-get_by_kb : (kb_id : String) (db : Db) → SameRows db (get_by_kb kb_id db).1
unfolding get_by_kb
SameRows-get_by_kb kb_id db = ground arith
