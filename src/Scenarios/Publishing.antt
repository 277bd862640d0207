-- ===== src/Scenarios/Publishing.antt =====
-- Publications: alice publishes her knowledge base, bob follows it, and alice withdraws it.
use my_kb.Db.Times.{column_time}
use my_kb.Prelude.{◌≡◌, refl, true, some, none, [], ◌∷◌, ◌⊎◌}
use my_kb.Result.{ok}
use my_kb.Text.{is_blank, trim_space}
use my_kb.Db.{Db, Env, statement}
use my_kb.Audit
use my_kb.Audit.Repository.{record_event}
use my_kb.Ownership.{Ownership, resolve, owns_personal_notes}
use my_kb.Profile.{ProductMode, is_personal_notes, known_mode}
use my_kb.Profile.Repository as Profiles
use my_kb.Publication.Repository as Store
use my_kb.Publication.Repository.{
  get_by_kb, get_published_by_kb, is_published_of, has_status, is_of, is_published_version,
  is_version, scan_publication, withdrawn, collides,
}
use my_kb.Subscription.Repository as Subscriptions
use my_kb.Subscription.Repository.{ended, inactivate_publication, is_live_of, is_status_active}
use my_kb.Publication.{
  is_valid, bad_fields, valid_audience, valid_access_mode, valid_tags, distinct_ids, has_id,
  is_published,
}
use my_kb.Publication.{Publication, subscriber, organization, published, unpublished}
use my_kb.Publication.Service.{
  Actor, unpublish, require_owner, check_owner, valid_correlation, unpublish_existing,
  not_publisher, from_repo, publication_audit_value, record_audit, report_withdrawal, withdraw_row,
}
use my_kb.Publication.Withdrawal.{Ended, unpublish-Ended}
use my_kb.Subscription.{Subscription, active}
use my_kb.Authorization.{
  Principal, Decision, decide, repositories, no_role, no_source, after_owner, decide_for,
  after_grant, without_grant, after_publication, base_decision,
}
use my_kb.Grant.Repository.{effective_user_grant}
use my_kb.Authorization.Lifecycle.{OwnAccess, unpublish_denies}
use my_kb.Scenarios.{empty, headers, request}

abbrev pub alice : Actor
alice = record { user_id = "alice"; tenant_id = 7 }

abbrev pub notes : Publication
notes = record {
  id = "p1";
  knowledge_base_id = "kb";
  publisher_id = "alice";
  publisher_tenant_id = 7;
  title = "Notes";
  description = "";
  tags = [];
  usage_guidance = "";
  audience = record { kind = organization; workspace_ids = [] };
  access_mode = subscriber;
  status = published;
  published_revision = 1;
  created_at = 100000;
  published_at = 100000;
  unpublished_at = none;
  updated_at = 100000;
  row_version = 1;
  last_audit_correlation_id = "c1";
}

abbrev pub follow : Subscription
follow = record {
  id = "s1";
  publication_id = "p1";
  subscriber_id = "bob";
  subscriber_tenant_id = 8;
  status = active;
  notification_enabled = true;
  last_seen_revision = 1;
  created_at = 150000;
  updated_at = 150000;
  ended_at = none;
  last_audit_correlation_id = "c2";
}

abbrev pub public_db : Db
public_db = record empty { publications = notes ∷ []; subscriptions = follow ∷ [] }

abbrev env : Env
env = request 200000 "p2" "a2"

abbrev hidden_notes : Publication
hidden_notes = record notes {
  status = unpublished;
  unpublished_at = some 200000;
  updated_at = 200000;
  row_version = 2;
  last_audit_correlation_id = "c3";
}

-- Opens the calls of Unpublish.
withdrawn_db : Db
unfolding unpublish require_owner is_blank resolve Profiles.get check_owner owns_personal_notes
    is_personal_notes valid_correlation get_by_kb is_valid bad_fields valid_audience
    valid_access_mode valid_tags unpublish_existing not_publisher record_event Audit.is_valid
    statement known_mode Store.fits has_status is_of is_published_version is_version
    scan_publication Store.unpublish withdrawn from_repo publication_audit_value record_audit
    report_withdrawal withdraw_row distinct_ids has_id is_published ended Subscriptions.fits
    inactivate_publication is_live_of is_status_active trim_space column_time
withdrawn_db = (unpublish env "kb" alice 1 "c3" headers public_db).1

withdrawing : (unpublish env "kb" alice 1 "c3" headers public_db).0 ≡ ok hidden_notes
unfolding withdrawn_db
withdrawing = refl

unpublish-Ended_example : Ended "kb" "p1" withdrawn_db
unfolding withdrawn_db
unpublish-Ended_example =
    unpublish-Ended env "kb" alice 1 "c3" headers public_db {q = hidden_notes} (refl, tt)
      withdrawing

abbrev bob : Principal
bob = record { user_id = "bob"; tenant_id = 8 }

abbrev nothing : Decision
nothing = record {
  knowledge_base_id = "kb";
  role = no_role;
  source = no_source;
  source_tenant_id = 7;
  grant_id = "";
  grant_revision = 0;
  publication_id = "";
  subscription_id = "";
  product_mode = ProductMode.other "";
}

unpublish_denies_example :
    (o : Ownership) × ((resolve env.upstream "kb" headers withdrawn_db).0 ≡ ok o)
    × ((nothing.role ≡ no_role) ⊎ OwnAccess 200000 "kb" bob o withdrawn_db)
unfolding withdrawn_db decide repositories after_owner decide_for effective_user_grant after_grant
    without_grant get_published_by_kb after_publication base_decision is_published_of
unpublish_denies_example =
    unpublish_denies env "kb" alice 1 "c3" headers public_db {q = hidden_notes} (refl, tt)
      withdrawing env bob headers {d = nothing} refl
