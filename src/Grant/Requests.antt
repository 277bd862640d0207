-- ===== src/Grant/Requests.antt =====
-- internal/grant/service.go: requests, the checks on them, and the audit events of the service.
use my_kb.Prelude.{
  ℕ, Bool, true, false, ◌||◌, ◌&&◌, not, String, ◌==◌, ◌=ℕ=◌, ltb, Option, none, some, len,
  if◌then◌else◌,
}
use my_kb.Result.{Result, ok, err, Exec, fail, fail_if, pure, attempt, wrap, ◌>>=◌, ◌>>◌}
use my_kb.Text.{is_blank, trim_space}
use my_kb.Http.{Headers}
use my_kb.Db.{Db, Env}
use my_kb.Audit
use my_kb.Audit.{Event, Outcome, success, denied}
use my_kb.Audit.Repository.{record_event}
use my_kb.Ownership
use my_kb.Ownership.{Ownership, resolve, owns_personal_notes}
use my_kb.Grant.{
  Grant, SubjectType, Permission, user, same_subject_type, same_permission, valid_subject_type,
  valid_permission, nil_or_after,
}
use my_kb.Grant.Repository.{RepoErr}

pub data Err : Type 0 where
  invalid not_found conflict revision_conflict not_owner personal_notes : Err
  subject_unsupported audit_unavailable id_unavailable stored_invalid database : Err
  ownership : Ownership.Err → Err

-- The repository's errors are returned as they are.
unfoldable pub from_repo : RepoErr → Err
from_repo RepoErr.invalid = invalid
from_repo RepoErr.not_found = not_found
from_repo RepoErr.conflict = conflict
from_repo RepoErr.revision_conflict = revision_conflict
from_repo RepoErr.stored_invalid = stored_invalid
from_repo RepoErr.database = database

pub record Actor : Type 0 where
  pub user_id : String
  pub tenant_id : ℕ

pub record CreateRequest : Type 0 where
  pub subject_type : SubjectType
  pub subject_id : String
  pub permission : Permission
  pub expires_at : Option ℕ
  pub correlation_id : String

pub record UpdateRequest : Type 0 where
  pub expected_revision : ℕ
  pub permission : Permission
  pub expires_at : Option ℕ
  pub correlation_id : String

pub record RevokeRequest : Type 0 where
  pub expected_revision : ℕ
  pub correlation_id : String

-- recordDeniedGrant; what the recorder returns is dropped.
unfoldable pub record_denied_grant : Env → Ownership → Actor → Headers → Exec Db Err Unit
record_denied_grant env owner actor headers =
    let correlation_id = trim_space headers.request_id in
    if not env.auditing || is_blank actor.user_id || actor.tenant_id =ℕ= 0 || correlation_id == ""
    then pure tt
    else do
      attempt (
          record_event env (record {
            id = "";
            tenant_id = owner.tenant_id;
            knowledge_base_id = owner.knowledge_base_id;
            actor_user_id = actor.user_id;
            action = "authorization.denied.manage_grants";
            target_type = "knowledge_base";
            target_id = owner.knowledge_base_id;
            outcome = denied;
            error_code = "resource.not_found";
            correlation_id = correlation_id;
            old_value = none;
            new_value = none;
            created_at = env.now;
          }))
      pure tt

-- The tests of requireOwner on the resolved owner.
unfoldable pub check_owner : Env → Actor → Headers → Ownership → Exec Db Err Ownership
check_owner env actor headers owner =
    if not (actor.user_id == owner.owner_user_id) || not (actor.tenant_id =ℕ= owner.tenant_id)
    then (do record_denied_grant env owner actor headers; fail not_owner)
    else if owns_personal_notes owner
    then (do record_denied_grant env owner actor headers; fail personal_notes)
    else pure owner

-- requireOwner
unfoldable pub require_owner : Env → String → Actor → Headers → Exec Db Err Ownership
require_owner env kb_id actor headers =
    fail_if (is_blank actor.user_id || actor.tenant_id =ℕ= 0) not_owner (do
      owner ← wrap ownership (resolve env.upstream kb_id headers)
      check_owner env actor headers owner)

-- validCorrelationID
unfoldable pub valid_correlation_id : String → Bool
valid_correlation_id value =
    let trimmed = trim_space value in not (trimmed == "") && not (ltb 128 (len trimmed))

is_user : SubjectType → Bool
is_user user = true
is_user _ = false

-- validateCreateRequest
unfoldable pub validate_create_request : CreateRequest → Ownership → ℕ → Result Err (Unit {0})
unfolding is_user valid_subject_type valid_permission valid_correlation_id nil_or_after
validate_create_request r owner now =
    if not (is_user r.subject_type)
    then if valid_subject_type r.subject_type then err subject_unsupported else err invalid
    else if is_blank r.subject_id
        || ltb 36 (len r.subject_id)
        || r.subject_id == owner.owner_user_id
        || not (valid_permission r.permission)
        || not (valid_correlation_id r.correlation_id)
        || not (nil_or_after r.expires_at now)
    then err invalid
    else ok tt

-- sameTime
unfoldable pub same_time : Option ℕ → Option ℕ → Bool
same_time none none = true
same_time (some s) (some t) = s =ℕ= t
same_time _ _ = false

-- sameGrantRequest
unfoldable pub same_grant_request : Grant → CreateRequest → Bool
unfolding same_subject_type same_permission same_time
same_grant_request g r =
    same_subject_type g.subject_type r.subject_type
    && g.subject_id == r.subject_id
    && same_permission g.permission r.permission
    && same_time g.expires_at r.expires_at

-- auditGrantValue
unfoldable pub audit_grant_value : Grant → Audit.Value
audit_grant_value g =
    Audit.Value.grant g.subject_type g.subject_id g.permission g.expires_at g.revoked_at g.revision

-- A grant with no identifier is the zero value, which has no audit value.
audit_value : Option Grant → Option Audit.Value
unfolding audit_grant_value
audit_value none = none
audit_value (some g) = if g.id == "" then none else some (audit_grant_value g)

-- recordAudit; the old grant of a creation is the zero value, written `none`.
unfoldable pub record_audit :
    Env → Ownership → Actor → String → Option Grant → Grant → String → Exec Db Err Unit
unfolding audit_value
record_audit env owner actor action old_grant new_grant correlation_id =
    if not env.auditing
    then pure tt
    else wrap (λ _. audit_unavailable)
        (record_event env (record {
          id = "";
          tenant_id = owner.tenant_id;
          knowledge_base_id = owner.knowledge_base_id;
          actor_user_id = actor.user_id;
          action = action;
          target_type = "kb_grant";
          target_id =
              if new_grant.id == ""
              then elim old_grant [ none ↦ "" | some g ↦ g.id ]
              else new_grant.id;
          outcome = success;
          error_code = "";
          correlation_id = correlation_id;
          old_value = audit_value old_grant;
          new_value = audit_value (some new_grant);
          created_at = env.now;
        }))
