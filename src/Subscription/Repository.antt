-- ===== src/Subscription/Repository.antt =====
-- internal/subscription/repository.go: the statements on the table kb_subscriptions, with the
-- constraints of database/migrations/000008_phase3_publications.up.sql.
use my_kb.Prelude.{
  ℕ, Bool, true, false, ◌||◌, ◌&&◌, not, String, ◌==◌, ◌=ℕ=◌, ltb, leb, max, Option, none, some,
  List, [], ◌∷◌, ◌++◌, count, find_row, select, order_by, update_where, any, if◌then◌else◌,
}
use my_kb.Result.{Result, ok, err, Exec, fail_if, pure, ◌>>=◌}
use my_kb.Db.{Db, statement, transaction}
use my_kb.Db.Times.{column_time, column_times}
use my_kb.Publication.{Audience, allows, valid_audience, is_organization}
use my_kb.Publication.Repository.{has_id as publication_has_id}
use my_kb.Subscription.{Subscription, Status, active, inactive, unsubscribed, is_valid, is_active}

pub data RepoErr : Type 0 where
  invalid not_found stored_invalid database : RepoErr

-- The constraint kb_subscriptions_ended_state.
ended_fits : Status → Option ℕ → ℕ → Bool
ended_fits active none at = true
ended_fits inactive (some t) at = leb at t
ended_fits unsubscribed (some t) at = leb at t
ended_fits _ _ at = false

-- Column lengths and CHECK constraints.
unfoldable pub fits : Subscription → Bool
unfolding ended_fits
fits s =
    leb (count s.id) 36
    && leb (count s.publication_id) 36
    && leb (count s.subscriber_id) 512
    && ltb 0 s.subscriber_tenant_id
    && leb s.subscriber_tenant_id 9223372036854775807
    && leb s.last_seen_revision 9223372036854775807
    && leb s.created_at s.updated_at
    && ended_fits s.status s.ended_at s.created_at
    && leb (count s.last_audit_correlation_id) 128

unfoldable pub is_by : String → String → Subscription → Bool
is_by publication_id user_id s = s.publication_id == publication_id && s.subscriber_id == user_id

unfoldable pub collides : Subscription → Subscription → Bool
unfolding is_by
collides new old = old.id == new.id || is_by new.publication_id new.subscriber_id old

-- A missing publication breaks the foreign key.
-- The row that an INSERT stores.
unfoldable pub as_stored : Subscription → Subscription
as_stored s = record s {
  created_at = column_time s.created_at;
  updated_at = column_time s.updated_at;
  ended_at = column_times s.ended_at;
}

-- The caller gets back the subscription that it passed, not the row.
insert : Subscription → Exec Db RepoErr Subscription
unfolding fits collides as_stored
insert s db =
    if not (fits (as_stored s))
    then (err database, db)
    else if any (collides (as_stored s)) db.subscriptions
    then (err invalid, db)
    else if not (any (publication_has_id s.publication_id) db.publications)
    then (err database, db)
    else (ok s, record db { subscriptions = db.subscriptions ++ (as_stored s ∷ []) })

-- Repository.Create
unfoldable pub create : Subscription → Exec Db RepoErr Subscription
unfolding insert statement
create candidate =
    fail_if (not (is_valid candidate) || not (is_active candidate)) invalid
      (statement database (insert candidate))

-- scanSubscription
unfoldable pub scan_subscription : Option Subscription → Result RepoErr Subscription
scan_subscription none = err not_found
scan_subscription (some s) = if is_valid s then ok s else err stored_invalid

-- Repository.GetByPublicationUser
unfoldable pub get_by_publication_user : String → String → Exec Db RepoErr Subscription
unfolding is_by scan_subscription statement
get_by_publication_user publication_id user_id =
    statement database
      λ db. (scan_subscription (find_row (is_by publication_id user_id) db.subscriptions), db)

-- The loop over the rows: the first that does not validate ends it.
unfoldable pub scan_all : List Subscription → Result RepoErr (List Subscription)
unfolding scan_subscription
scan_all [] = ok []
scan_all (s ∷ ss) =
    let rest = scan_all ss in
    elim (scan_subscription (some s)) [
      | err e ↦ err e
      | ok x ↦ elim rest [ err e ↦ err e | ok xs ↦ ok (x ∷ xs) ]
    ]

-- ORDER BY updated_at DESC, id
unfoldable pub before : (String → String → Bool) → Subscription → Subscription → Bool
before collate a b =
    ltb b.updated_at a.updated_at || (a.updated_at =ℕ= b.updated_at && collate a.id b.id)

-- Repository.ListByUser
unfoldable pub list_by_user :
    (String → String → Bool) → String → Exec Db RepoErr (List Subscription)
unfolding before scan_all statement
list_by_user collate user_id = statement database λ db. (
  scan_all (order_by (before collate) (select (λ s. s.subscriber_id == user_id) db.subscriptions)),
  db,
)

-- UPDATE ... SET change WHERE p RETURNING ...: nothing is written when a new row breaks a constraint.
returning :
    (Subscription → Bool)
    → (Subscription → Subscription)
    → Option Subscription
    → Exec Db RepoErr Subscription
unfolding fits scan_subscription
returning p change none db = (err not_found, db)
returning p change (some x) db =
    if fits (change x)
    then (
      scan_subscription (some (change x)),
      record db { subscriptions = update_where p change db.subscriptions },
    )
    else (err database, db)

unfoldable pub has_id : String → Subscription → Bool
has_id id s = s.id == id

unfoldable pub activated : ℕ → ℕ → String → ℕ → Subscription → Subscription
activated tenant_id revision correlation_id at s = record s {
  subscriber_tenant_id = tenant_id;
  status = active;
  last_seen_revision = revision;
  updated_at = column_time at;
  ended_at = none;
  last_audit_correlation_id = correlation_id;
}

-- Repository.Activate
unfoldable pub activate : String → ℕ → ℕ → String → ℕ → Exec Db RepoErr Subscription
unfolding activated has_id returning statement
activate id tenant_id revision correlation_id at = statement database λ db.
    returning (has_id id) (activated tenant_id revision correlation_id at)
      (find_row (has_id id) db.subscriptions) db

unfoldable pub ended : Status → String → ℕ → Subscription → Subscription
ended status correlation_id at s = record s {
  status = status;
  updated_at = column_time at;
  ended_at = some (column_time at);
  last_audit_correlation_id = correlation_id;
}

-- Repository.Unsubscribe
unfoldable pub unsubscribe : String → String → ℕ → Exec Db RepoErr Subscription
unfolding ended has_id returning statement
unsubscribe id correlation_id at = statement database λ db.
    returning (has_id id) (ended unsubscribed correlation_id at)
      (find_row (has_id id) db.subscriptions) db

unfoldable pub is_status_active : Subscription → Bool
is_status_active s = elim s.status [ active ↦ true | _ ↦ false ]

unfoldable pub is_live : String → Subscription → Bool
unfolding has_id is_status_active
is_live id s = has_id id s && is_status_active s

unfoldable pub seen : ℕ → String → ℕ → Subscription → Subscription
seen revision correlation_id at s = record s {
  last_seen_revision = max s.last_seen_revision revision;
  updated_at = column_time at;
  last_audit_correlation_id = correlation_id;
}

-- Repository.MarkSeen
unfoldable pub mark_seen : String → ℕ → String → ℕ → Exec Db RepoErr Subscription
unfolding seen is_live returning statement
mark_seen id revision correlation_id at = statement database λ db.
    returning (is_live id) (seen revision correlation_id at)
      (find_row (is_live id) db.subscriptions) db

-- UPDATE ... SET change WHERE p: every row that passes, or none when one breaks a constraint.
update_rows : (Subscription → Bool) → (Subscription → Subscription) → Exec Db RepoErr (Unit {0})
unfolding fits
update_rows p change db =
    if any (λ s. p s && not (fits (change s))) db.subscriptions
    then (err database, db)
    else (ok tt, record db { subscriptions = update_where p change db.subscriptions })

unfoldable pub is_live_of : String → Subscription → Bool
unfolding is_status_active
is_live_of publication_id s = s.publication_id == publication_id && is_status_active s

-- Repository.InactivatePublication
unfoldable pub inactivate_publication : String → String → ℕ → Exec Db RepoErr (Unit {0})
unfolding is_live_of ended update_rows statement
inactivate_publication publication_id correlation_id at =
    statement database (update_rows (is_live_of publication_id) (ended inactive correlation_id at))

-- The UPDATE of the loop of InactivateOutsideAudience.
unfoldable pub inactivate_row : String → String → ℕ → Exec Db RepoErr (Unit {0})
unfolding is_live ended update_rows statement
inactivate_row id correlation_id at =
    statement database (update_rows (is_live id) (ended inactive correlation_id at))

-- The loop of InactivateOutsideAudience over the rows that it has read.
unfoldable pub end_outside : Audience → String → ℕ → List Subscription → Exec Db RepoErr (Unit {0})
end_outside audience correlation_id at [] db = (ok tt, db)
end_outside audience correlation_id at (c ∷ cs) db =
    let rest = λ (db' : Db). end_outside audience correlation_id at cs db' in
    let write = inactivate_row c.id correlation_id at db in
    if allows audience c.subscriber_tenant_id
    then rest db
    else elim write.0 [ ok _ ↦ rest write.1 | err e ↦ (err e, write.1) ]

-- The SELECT of InactivateOutsideAudience.
unfoldable pub live_rows : String → Exec Db RepoErr (List Subscription)
unfolding is_live_of statement
live_rows publication_id =
    statement database λ db. (ok (select (is_live_of publication_id) db.subscriptions), db)

-- What InactivateOutsideAudience does between BeginTx and Commit.
unfoldable pub end_all_outside : String → Audience → String → ℕ → Exec Db RepoErr (Unit {0})
end_all_outside publication_id audience correlation_id at =
    live_rows publication_id >>= end_outside audience correlation_id at

-- Repository.InactivateOutsideAudience
unfoldable pub inactivate_outside_audience :
    String → Audience → String → ℕ → Exec Db RepoErr (Unit {0})
inactivate_outside_audience publication_id audience correlation_id at =
    fail_if (not (valid_audience audience)) invalid (
      if is_organization audience.kind
      then pure tt
      else transaction database database
          (end_all_outside publication_id audience correlation_id at))
