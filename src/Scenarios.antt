-- ===== src/Scenarios.antt =====
-- Concrete requests on a small database, at which the theorems of the other modules are applied.
mod Sharing
mod Publishing
mod Following
mod Browsing
mod Policies
mod Routing
mod Creating
use my_kb.Prelude.{ℕ, String, true, Option, none, some, List, [], ◌∷◌}
use my_kb.Result.{ok}
use my_kb.Http.{Headers, Upstream}
use my_kb.Db.{Db, Env}

abbrev pub empty : Db
empty = record {
  profiles = [];
  grants = [];
  publications = [];
  subscriptions = [];
  revisions = [];
  activities = [];
  audit_log = [];
  faults = [];
}

abbrev pub headers : Headers
headers = record { authorization = "Bearer t"; api_key = ""; tenant_id = ""; request_id = "r1" }

-- Every knowledge base belongs to alice, in workspace 7.
abbrev pub upstream : Upstream
upstream id h = ok (record { id = id; tenant_id = 7; creator_id = "alice" })

-- A request at the given time, with the given identifiers for its row and its audit event.
abbrev pub request : ℕ → String → String → Env
request now row_id audit_id = record {
  now = now;
  new_id = some row_id;
  audit_id = some audit_id;
  activity_id = some audit_id;
  auditing = true;
  json_size = λ v. 100;
  upstream = upstream;
  to_lower = λ s. s;
  collate = λ s t. true;
}
