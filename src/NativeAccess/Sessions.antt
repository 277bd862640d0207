-- ===== src/NativeAccess/Sessions.antt =====
-- internal/nativeaccess/store.go: which actor a native session belongs to, and the knowledge bases
-- that it has used; and the log of the decisions.
pub mod Binding
use my_kb.Prelude.{
  ℕ, Bool, true, false, ◌||◌, ◌&&◌, not, String, ◌==◌, ◌=ℕ=◌, ltb, leb, Option, none, some, List,
  [], ◌∷◌, ◌++◌, length, len, count, find_row, update_where, select, order_by, any, take, map,
  if◌then◌else◌,
}
use my_kb.Result.{Result, ok, err, Exec, fail_if}
use my_kb.Db.{failing, later}
use my_kb.Text.{first_of_each}
use my_kb.NativeAccess.{Actor, Kind, human, api_key, other, same_actor, Err, refused, failed}

-- A row of native_session_bindings.
pub record Row : Type 0 where
  pub session_id : String
  pub actor : Actor
  pub kb_ids : List String
  pub created_at : ℕ
  pub updated_at : ℕ

-- A row of native_access_events.
pub record Event : Type 0 where
  pub actor : Actor
  pub operation : String
  pub outcome : String
  pub error_code : String
  pub kb_ids : List String
  pub correlation_id : String

pub record Store : Type 0 where
  pub rows : List Row
  pub events : List Event
  pub faults : List Bool

-- Binding, as Binding and Bindings return it.
pub record SessionBinding : Type 0 where
  pub session_id : String
  pub actor : Actor
  pub kb_ids : List String

-- One statement: it fails without effect, or the server does `body`.
unfoldable pub statement : {A : Type 0} → Exec Store Err A → Exec Store Err A
statement body store =
    let next = record store { faults = later store.faults } in
    if failing store.faults then (err failed, next) else body next

unfoldable pub binding_of : Row → SessionBinding
binding_of row = record { session_id = row.session_id; actor = row.actor; kb_ids = row.kb_ids }

unfoldable pub has_session : String → Row → Bool
has_session id row = row.session_id == id

unfoldable pub is_actors : Actor → Row → Bool
is_actors a row = same_actor row.actor a

found_binding : Option Row → Result Err SessionBinding
unfolding binding_of
found_binding none = err (refused 403 "session.unbound")
found_binding (some row) = ok (binding_of row)

-- Repository.Binding
unfoldable pub binding : String → Exec Store Err SessionBinding
unfolding found_binding has_session statement
binding id = statement λ store. (found_binding (find_row (has_session id) store.rows), store)

newest : Row → Row → Bool
newest a b = leb b.created_at a.created_at

-- Repository.Bindings; rows of one time come in the order of the table here.
unfoldable pub bindings : Actor → Exec Store Err (List SessionBinding)
unfolding is_actors statement newest binding_of
bindings actor = statement λ store.
    let found = take 10001 (order_by newest (select (is_actors actor) store.rows)) in
    (
      (if ltb 10000 (length found)
          then err (refused 422 "session.history_limit")
          else ok (map binding_of found)),
      store,
    )

-- The test of Bind on the kind.
known_kind : Kind → Bool
known_kind (other s) = false
known_kind _ = true

-- The first test of Bind.
unfoldable pub bad_binding : String → Actor → Bool
unfolding known_kind
bad_binding id a =
    id == "" || ltb 128 (len id) || a.id == "" || a.tenant_id =ℕ= 0 || not (known_kind a.kind)

-- The union that the upsert makes; the database keeps it in its own order.
unfoldable pub extended : ℕ → List String → Row → Row
extended now ids row = record row {
  kb_ids = first_of_each [] (row.kb_ids ++ ids);
  updated_at = now;
}

unfoldable pub new_row : ℕ → String → Actor → List String → Row
new_row now id actor ids = record {
  session_id = id;
  actor = actor;
  kb_ids = ids;
  created_at = now;
  updated_at = now;
}

-- The constraints of the columns, that on the array last.
fits : Row → Bool
unfolding known_kind
fits row =
    known_kind row.actor.kind
    && leb (count row.actor.id) 512
    && ltb row.actor.tenant_id 9223372036854775808
    && leb (length row.kb_ids) 256

-- The update of the upsert, which has a condition on the actor, and the test on the rows affected.
extend : ℕ → String → Actor → List String → Option Row → Exec Store Err (Unit {0})
unfolding extended new_row has_session fits
extend now id actor ids none store =
    (ok tt, record store { rows = store.rows ++ new_row now id actor ids ∷ [] })
extend now id actor ids (some row) store =
    if not (same_actor row.actor actor)
    then (err (refused 403 "session.principal_mismatch"), store)
    else if not (fits (extended now ids row))
    then (err failed, store)
    else (
      ok tt,
      record store { rows = update_where (has_session id) (extended now ids) store.rows },
    )

upsert : ℕ → String → Actor → List String → Option Row → Exec Store Err (Unit {0})
unfolding extend fits new_row
upsert now id actor ids found =
    fail_if (not (fits (new_row now id actor ids))) failed (extend now id actor ids found)

-- Repository.Bind
unfoldable pub bind : ℕ → String → Actor → List String → Exec Store Err (Unit {0})
unfolding upsert has_session statement
bind now id actor ids =
    fail_if (bad_binding id actor) failed
      (statement λ store. upsert now id actor ids (find_row (has_session id) store.rows) store)

known_outcome : String → Bool
known_outcome o = o == "allowed" || o == "denied" || o == "failure"

fits_event : Event → Bool
unfolding known_kind known_outcome
fits_event e =
    known_kind e.actor.kind
    && leb (count e.actor.id) 512
    && (ltb 0 e.actor.tenant_id && ltb e.actor.tenant_id 9223372036854775808)
    && leb (count e.operation) 128
    && known_outcome e.outcome
    && leb (count e.error_code) 128

-- Repository.Record
unfoldable pub record_event :
    Actor → String → String → String → List String → String → Exec Store Err (Unit {0})
unfolding statement fits_event
record_event actor operation outcome code ids correlation =
    let event : Event = record {
      actor = actor;
      operation = operation;
      outcome = outcome;
      error_code = code;
      kb_ids = ids;
      correlation_id = (if ltb 128 (len correlation) then "" else correlation);
    } in
    statement λ store.
      (if not (fits_event event)
        then (err failed, store)
        else (ok tt, record store { events = store.events ++ event ∷ [] }))
