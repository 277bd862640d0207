-- ===== src/Scenarios/Sharing.antt =====
-- Grants: alice lets bob edit, changes her mind, and lets the grant expire.
use my_kb.Db.Times.{column_time, column_times}
use my_kb.Prelude.{◌≤◌, ◌≡◌, ◌≢◌, refl, some, none, [], ◌∷◌, false, length, select, arith, ◌⊎◌}
use my_kb.Result.{ok, err}
use my_kb.Text.{is_blank}
use my_kb.Db.{Db, Env}
use my_kb.Audit
use my_kb.Profile.{ProductMode, is_personal_notes}
use my_kb.Audit.Repository.{record_event}
use my_kb.Profile.Repository as Profiles
use my_kb.Ownership.{Ownership, upstream_creator, resolve, owns_personal_notes}
use my_kb.Grant
use my_kb.Grant.{Grant, user, viewer, editor}
use my_kb.Grant.Repository as Store
use my_kb.Grant.Repository.{
  RepoErr, is_current_for, effective_user_grant, find_current_by_subject, get,
}
use my_kb.Grant.Service.{
  Actor, CreateRequest, RevokeRequest, create, create_new, candidate, after_find, after_insert,
  require_owner, check_owner, record_audit, validate_create_request, revoke, revoke_existing,
  check_existing, valid_correlation_id, from_repo,
}
use my_kb.Grant.Uniqueness.{one_current_grant, here, next, create_step}
use my_kb.Grant.Versions.{edit, withdraw, run, no_lost_update}
use my_kb.Grant.Creation.{create-Meets, Meets}
use my_kb.Grant.Effect.{create-effective}
use my_kb.Grant.Revocation.{revoke-not_effective}
use my_kb.Grant.Expiry.{fine_expiry_blocks, expired_grant_blocks}
use my_kb.Authorization.{
  Principal, Decision, decide, authorize, repositories, editor_role, owner_role, no_role,
  user_grant, no_source, after_owner, decide_for, after_grant, by_grant, decision_allows,
  base_decision, without_grant, after_publication,
}
use my_kb.Authorization.Roles.{decision_allows-needed, needed, reaches, rank}
use my_kb.Authorization.{configure}
use my_kb.Publication.Repository.{get_published_by_kb}
use my_kb.Authorization.Reasons.{Reason}
use my_kb.Authorization.Lifecycle.{revoke_denies}
use my_kb.Authorization.Soundness.{decide_sound, authorize-edit}
use my_kb.Scenarios.{empty, headers, request}

abbrev alice : Actor
alice = record { user_id = "alice"; tenant_id = 7 }

abbrev bob : Principal
bob = record { user_id = "bob"; tenant_id = 7 }

abbrev share : CreateRequest
share = record {
  subject_type = user;
  subject_id = "bob";
  permission = editor;
  expires_at = some 500000;
  correlation_id = "c1";
}

abbrev grant : Grant
grant = record {
  id = "g1";
  knowledge_base_id = "kb";
  subject_type = user;
  subject_id = "bob";
  permission = editor;
  granted_by = "alice";
  created_at = 100000;
  updated_at = 100000;
  expires_at = some 500000;
  revoked_at = none;
  revision = 1;
  last_audit_correlation_id = "c1";
}

abbrev sharing : Env
sharing = request 100000 "g1" "a1"

-- Opens the calls of a creation and of what follows it.
shared : Db
unfolding create create_new candidate after_find after_insert require_owner check_owner record_audit
    validate_create_request resolve Profiles.get find_current_by_subject Store.create record_event
    is_blank owns_personal_notes is_personal_notes Grant.is_valid Audit.is_valid
    effective_user_grant get revoke revoke_existing check_existing valid_correlation_id Store.update
    Store.revoke from_repo decide after_owner decide_for after_grant by_grant repositories authorize
    decision_allows base_decision column_time column_times
shared = (create sharing "kb" alice share headers empty).1

-- A clock that reads a quarter of a microsecond more: the row keeps less than is returned.
abbrev fine_sharing : Env
fine_sharing = request 100250 "g1" "a1"

abbrev fine_grant : Grant
fine_grant = record grant { created_at = 100250; updated_at = 100250 }

create-Meets_example :
    Meets "kb" share 100250 fine_grant (create fine_sharing "kb" alice share headers empty).1.grants
    × ((o : Ownership) × ((resolve fine_sharing.upstream "kb" headers empty).0 ≡ ok o)
        × (alice.user_id ≡ o.owner_user_id)
        × (alice.tenant_id ≡ o.tenant_id)
        × (owns_personal_notes o ≡ false)
        × (validate_create_request share o fine_sharing.now ≡ ok tt))
unfolding shared
create-Meets_example =
    create-Meets fine_sharing "kb" alice share headers empty {g = fine_grant} (omega arith) refl

create-effective_example :
    (row : Grant) × ((effective_user_grant "kb" "bob" 100250
        (create fine_sharing "kb" alice share headers empty).1).0
      ≡ ok row)
    × ((row ≡ fine_grant) ⊎ (row ≡ Store.as_stored fine_grant))
unfolding shared
create-effective_example =
    create-effective fine_sharing "kb" alice share headers empty {g = fine_grant} tt (omega arith)
      refl refl

one_current_grant_example :
    length (
      select
        (is_current_for "kb" user "bob")
        (Store.create grant (Store.create grant empty).1).1.grants)
    ≤ 1
one_current_grant_example =
    one_current_grant "kb" user "bob" refl
      (next (next here (create_step grant empty)) (create_step grant (Store.create grant empty).1))

-- Bob may only view from now on; a second edit at the same revision comes too late.
no_lost_update_example :
    (run "g1" 1
      (withdraw "c3" 300000)
      (run "g1" 1 (edit viewer none "c2" 200000) (Store.create grant empty).1).1).0
    ≢ ok grant
unfolding shared
no_lost_update_example =
    no_lost_update "g1" 1 (edit viewer none "c2" 200000) (withdraw "c3" 300000)
      {g = record grant {
        permission = viewer;
        expires_at = none;
        updated_at = 200000;
        revision = 2;
        last_audit_correlation_id = "c2";
      }}
      refl (next here (create_step grant empty)) refl here

abbrev withdrawing : Env
withdrawing = request 200000 "g2" "a2"

abbrev withdrawal : RevokeRequest
withdrawal = record { expected_revision = 1; correlation_id = "c2" }

abbrev stored : Db
stored = record empty { grants = grant ∷ [] }

abbrev revoked_grant : Grant
revoked_grant = record grant {
  revoked_at = some 200000;
  updated_at = 200000;
  revision = 2;
  last_audit_correlation_id = "c2";
}

revoke-not_effective_example :
    (effective_user_grant "kb" "bob" 300000
      (revoke withdrawing "kb" "g1" alice withdrawal headers stored).1).0
    ≡ err RepoErr.not_found
unfolding shared
revoke-not_effective_example =
    revoke-not_effective withdrawing "kb" "g1" alice withdrawal headers stored 300000
      {g = revoked_grant} (refl, tt) refl refl refl

expired_grant_blocks_example :
    (create
      (request 600000 "g2" "a2")
      "kb"
      alice
      (record share { expires_at = some 900000 })
      headers
      stored).0
    ≢ ok (record grant { id = "g2" })
unfolding shared
expired_grant_blocks_example =
    expired_grant_blocks (request 600000 "g2" "a2") "kb" alice
      (record share { expires_at = some 900000 }) headers stored grant (record grant { id = "g2" })
      refl refl

abbrev fine_share : CreateRequest
fine_share = record share { expires_at = some 500250 }

-- The same request again, after it has succeeded.
fine_expiry_blocks_example :
    (create
      (request 200000 "g2" "a2")
      "kb"
      alice
      fine_share
      headers
      (create sharing "kb" alice fine_share headers empty).1).0
    ≢ ok (record grant { expires_at = some 500250 })
unfolding shared
fine_expiry_blocks_example =
    fine_expiry_blocks (request 200000 "g2" "a2") "kb" alice fine_share headers
      (create sharing "kb" alice fine_share headers empty).1 grant
      (record grant { expires_at = some 500250 }) refl refl (λ e. ground arith)

abbrev edited : Decision
edited = record {
  knowledge_base_id = "kb";
  role = editor_role;
  source = user_grant;
  source_tenant_id = 7;
  grant_id = "g1";
  grant_revision = 1;
  publication_id = "";
  subscription_id = "";
  product_mode = ProductMode.other "";
}

abbrev owner : Ownership
owner = record {
  knowledge_base_id = "kb";
  owner_user_id = "alice";
  tenant_id = 7;
  product_mode = ProductMode.other "";
  source = upstream_creator;
}

decide_sound_example :
    (o : Ownership) × ((resolve withdrawing.upstream "kb" headers stored).0 ≡ ok o)
    × ((edited.role ≡ no_role) ⊎ Reason withdrawing.now "kb" bob o stored edited.role)
unfolding shared
decide_sound_example = decide_sound withdrawing "kb" bob headers stored {d = edited} refl

authorize-edit_example :
    (o : Ownership) × ((resolve withdrawing.upstream "kb" headers stored).0 ≡ ok o)
    × (Reason withdrawing.now "kb" bob o stored editor_role
        ⊎ Reason withdrawing.now "kb" bob o stored owner_role)
unfolding shared
authorize-edit_example = authorize-edit withdrawing "kb" bob headers stored {d = edited} refl

abbrev denied : Decision
denied = record edited { role = no_role; source = no_source; grant_id = ""; grant_revision = 0 }

revoke_denies_example : denied.role ≢ editor_role
unfolding shared without_grant after_publication get_published_by_kb
revoke_denies_example =
    revoke_denies withdrawing "kb" "g1" alice withdrawal headers stored {g = revoked_grant}
      (refl, tt) refl refl (request 300000 "g3" "a3") bob headers {d = denied} refl refl

decision_allows-needed_example :
    decision_allows edited configure ≡ reaches (needed configure) (rank edited.role)
decision_allows-needed_example = decision_allows-needed edited configure
