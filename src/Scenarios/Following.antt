-- ===== src/Scenarios/Following.antt =====
-- Subscriptions and content revisions: bob follows alice's notes, alice narrows the audience, and
-- the notes change.
use my_kb.Db.Times.{column_time, column_times}
use my_kb.Prelude.{arith, ◌⊎◌, ◌≤◌, ◌≡◌, refl, true, false, some, [], ◌∷◌, length, select}
use my_kb.Result.{ok}
use my_kb.Text.{is_blank, trim_space}
use my_kb.Db.{Db, Env, statement, transaction}
use my_kb.Audit
use my_kb.Audit.Repository.{record_event}
use my_kb.Publication.{Publication, is_published, visible_to}
use my_kb.Publication.Repository as Publications
use my_kb.Publication.Uniqueness as PublicationRows
use my_kb.Publication.Uniqueness.{one_publication}
use my_kb.Revision.Repository as Revisions
use my_kb.Revision.Repository.{increment, ensure}
use my_kb.Revision.Growth as Growth
use my_kb.Revision.Growth.{never_lower, revision_of}
use my_kb.Revision.Counting.{increment-Counted, Counted, event}
use my_kb.Subscription.{Subscription, active}
use my_kb.Subscription.Service
use my_kb.Revision
use my_kb.Subscription.Repository as Subscriptions
use my_kb.Subscription.Repository.{is_by}
use my_kb.Subscription.Uniqueness as Rows
use my_kb.Subscription.Uniqueness.{one_subscription}
use my_kb.Subscription.Effect.{subscribe-Subscribed, Subscribed, subscribe-effective}
use my_kb.Subscription.Service.{Actor, SubscribeResult, subscribe, effective}
use my_kb.Scenarios.{empty, request}
use my_kb.Publication.{workspace_set, subscriber}
use my_kb.Publication.Service as Publishing
use my_kb.Publication.Service.{WriteRequest}
use my_kb.Scenarios.Publishing.{notes, follow, public_db}

abbrev bob : Actor
bob = record { user_id = "bob"; tenant_id = 8 }

abbrev env : Env
env = request 150000 "s1" "a1"

one_publication_example :
    length (
      select
        (Publications.is_of "kb")
        (Publications.create notes (Publications.create notes empty).1).1.publications)
    ≤ 1
one_publication_example = one_publication "kb" refl (
    PublicationRows.next
      (PublicationRows.next PublicationRows.here (PublicationRows.create_step notes empty))
      (PublicationRows.create_step notes (Publications.create notes empty).1))

one_subscription_example :
    length (
      select
        (is_by "p1" "bob")
        (Subscriptions.create follow (record public_db { subscriptions = [] })).1.subscriptions)
    ≤ 1
one_subscription_example =
    one_subscription "p1" "bob" refl
      (Rows.next Rows.here (Rows.create_step follow (record public_db { subscriptions = [] })))

never_lower_example :
    revision_of "kb" empty.revisions
    ≤ revision_of "kb"
        (increment (some "a1") "kb" "alice" "content.changed" "" "c1" 100000 empty).1.revisions
never_lower_example = never_lower "kb" (
    Growth.next Growth.here
      (Growth.incremented (some "a1") "kb" "alice" "content.changed" "" "c1" 100000 empty))

counting : (increment (some "a1") "kb" "alice" "content.changed" "" "c1" 100000 empty).0 ≡ ok 1
unfolding increment Revision.is_valid is_blank transaction Revisions.increment_row
    Revisions.upsert_statement Revisions.insert_activity
counting = refl

increment-Counted_example :
    Counted "kb" 1
      (event "a1" "kb" "alice" "content.changed" "" "c1" 1 100000)
      empty
      (increment (some "a1") "kb" "alice" "content.changed" "" "c1" 100000 empty).1
increment-Counted_example =
    increment-Counted "a1" "kb" "alice" "content.changed" "" "c1" 100000 empty counting

abbrev open_db : Db
open_db = record public_db {
  subscriptions = [];
  revisions = record { knowledge_base_id = "kb"; content_revision = 1; updated_at = 100000 } ∷ [];
}

abbrev joined : SubscribeResult
joined = record {
  item = record {
    subscription = follow;
    publication = notes;
    current_revision = 1;
    updated = false;
  };
  changed = true;
}

-- Opens the calls of Subscribe.
joined_db : Db
unfolding subscribe Service.valid_actor is_blank Service.valid_correlation Publications.get
    my_kb.Publication.is_valid my_kb.Publication.bad_fields my_kb.Publication.valid_audience
    my_kb.Publication.valid_access_mode my_kb.Publication.valid_tags Service.subscribe_to
    is_published visible_to my_kb.Publication.allows Revisions.current Service.after_lookup
    Subscriptions.get_by_publication_user record_event Audit.is_valid statement Publications.has_id
    Publications.scan_publication my_kb.Publication.distinct_ids my_kb.Publication.has_id
    my_kb.Publication.is_organization Revisions.is_for Subscriptions.collides Subscriptions.create
    Subscriptions.fits Subscriptions.has_id is_by Subscriptions.scan_subscription
    Service.after_write Service.create_row Service.follows Service.from_repo Service.item_of
    Service.new_subscription Service.record_audit my_kb.Subscription.is_active
    my_kb.Subscription.is_valid trim_space column_time column_times
joined_db = (subscribe env "p1" bob "c2" open_db).1

joining : (subscribe env "p1" bob "c2" open_db).0 ≡ ok joined
unfolding joined_db
joining = refl

subscribe-Subscribed_example :
    (q : Publication) × ((Publications.get "p1" open_db).0 ≡ ok q)
    × Subscribed "p1" bob joined q joined_db
unfolding joined_db
subscribe-Subscribed_example =
    subscribe-Subscribed env "p1" bob "c2" open_db (omega arith) tt joining

subscribe-effective_example :
    (row : Subscription) × ((effective "p1" "bob" 8 joined_db).0 ≡ ok row)
    × ((row ≡ follow) ⊎ (row ≡ Subscriptions.as_stored follow))
unfolding joined_db
subscribe-effective_example =
    subscribe-effective env "p1" bob "c2" open_db (omega arith) tt joining refl

abbrev narrow : WriteRequest
narrow = record {
  title = "Notes";
  description = "";
  tags = [];
  usage_guidance = "";
  audience = record { kind = workspace_set; workspace_ids = 9 ∷ [] };
  access_mode = subscriber;
  expected_row_version = 1;
  correlation_id = "c4";
}

abbrev narrowed_notes : Publication
narrowed_notes = record notes {
  audience = record { kind = workspace_set; workspace_ids = 9 ∷ [] };
  updated_at = 200000;
  row_version = 2;
  last_audit_correlation_id = "c4";
}

abbrev followed_db : Db
followed_db = record open_db { subscriptions = follow ∷ [] }

abbrev later_env : Env
later_env = request 200000 "p2" "a2"
