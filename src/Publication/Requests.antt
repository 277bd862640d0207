-- ===== src/Publication/Requests.antt =====
-- internal/publication/service.go: requests, the checks on them, and the audit events of the service.
use Prim.Native.Nat.{Ordering}
use Prim.Native.String.{compare}
use my_kb.Prelude.{
  ℕ, Bool, true, false, ◌||◌, ◌&&◌, not, String, ◌==◌, ◌=ℕ=◌, ltb, leb, Option, none, some, List,
  [], ◌∷◌, len, member, order_by, if◌then◌else◌,
}
use my_kb.Result.{Result, ok, err, Exec, fail, fail_if, pure, attempt, wrap, ◌>>=◌, ◌>>◌}
use my_kb.Text.{is_blank, trim_space}
use my_kb.Http.{Headers}
use my_kb.Db.{Db, Env}
use my_kb.Audit
use my_kb.Audit.{success, denied}
use my_kb.Audit.Repository.{record_event}
use my_kb.Ownership
use my_kb.Ownership.{Ownership, resolve, owns_personal_notes}
use my_kb.Publication.{Publication, Audience, AccessMode, published, is_valid}
use my_kb.Publication.Repository.{RepoErr}

pub data Err : Type 0 where
  invalid not_found conflict revision_conflict not_owner personal_notes : Err
  unavailable id_unavailable stored_invalid database : Err
  ownership : Ownership.Err → Err

-- The repository's errors are returned as they are.
unfoldable pub from_repo : RepoErr → Err
from_repo RepoErr.invalid = invalid
from_repo RepoErr.not_found = not_found
from_repo RepoErr.conflict = conflict
from_repo RepoErr.revision_conflict = revision_conflict
from_repo RepoErr.stored_invalid = stored_invalid
from_repo RepoErr.database = database

pub record Actor : Type 0 where
  pub user_id : String
  pub tenant_id : ℕ

pub record WriteRequest : Type 0 where
  pub title : String
  pub description : String
  pub tags : List String
  pub usage_guidance : String
  pub audience : Audience
  pub access_mode : AccessMode
  pub expected_row_version : ℕ
  pub correlation_id : String

-- recordDenied; what the recorder returns is dropped.
unfoldable pub record_denied : Env → Ownership → Actor → Headers → Exec Db Err (Unit {0})
record_denied env owner actor headers =
    let correlation_id = trim_space headers.request_id in
    if not env.auditing || actor.user_id == "" || actor.tenant_id =ℕ= 0 || correlation_id == ""
    then pure tt
    else do
      attempt (
          record_event env (record {
            id = "";
            tenant_id = owner.tenant_id;
            knowledge_base_id = owner.knowledge_base_id;
            actor_user_id = actor.user_id;
            action = "authorization.denied.publish";
            target_type = "knowledge_base";
            target_id = owner.knowledge_base_id;
            outcome = denied;
            error_code = "resource.not_found";
            correlation_id = correlation_id;
            old_value = none;
            new_value = none;
            created_at = env.now;
          }))
      pure tt

-- The tests of requireOwner on the resolved owner.
unfoldable pub check_owner : Env → Actor → Headers → Ownership → Exec Db Err Ownership
check_owner env actor headers owner =
    if not (actor.user_id == owner.owner_user_id) || not (actor.tenant_id =ℕ= owner.tenant_id)
    then (do record_denied env owner actor headers; fail not_owner)
    else if owns_personal_notes owner
    then (do record_denied env owner actor headers; fail personal_notes)
    else pure owner

-- requireOwner
unfoldable pub require_owner : Env → String → Actor → Headers → Exec Db Err Ownership
require_owner env kb_id actor headers =
    fail_if (is_blank actor.user_id || actor.tenant_id =ℕ= 0 || is_blank kb_id) not_owner (do
      owner ← wrap ownership (resolve env.upstream kb_id headers)
      check_owner env actor headers owner)

-- validCorrelation
unfoldable pub valid_correlation : String → Bool
valid_correlation value =
    let trimmed = trim_space value in not (trimmed == "") && not (ltb 128 (len trimmed))

-- sort.Strings
unfoldable pub text_le : String → String → Bool
text_le a b = elim (compare a b) [ Ordering.gt ↦ false | _ ↦ true ]

-- Audience.normalized
unfoldable pub normalized : Audience → Audience
normalized a = record a { workspace_ids = order_by leb a.workspace_ids }

-- The loop of normalizeWrite over the tags.
unfoldable pub clean_tags : (String → String) → List String → List String → List String
clean_tags lower seen [] = []
clean_tags lower seen (raw ∷ rest) =
    let tag = lower (trim_space raw) in
    let kept = clean_tags lower (tag ∷ seen) rest in
    let skipped = clean_tags lower seen rest in
    if tag == "" || member tag seen then skipped else tag ∷ kept

unfoldable pub trimmed : (String → String) → WriteRequest → WriteRequest
unfolding normalized clean_tags text_le
trimmed lower r = record r {
  title = trim_space r.title;
  description = trim_space r.description;
  tags = order_by text_le (clean_tags lower [] r.tags);
  usage_guidance = trim_space r.usage_guidance;
  audience = normalized r.audience;
  correlation_id = trim_space r.correlation_id;
}

-- The publication by which normalizeWrite checks the texts; time.Unix(1, 0) is not the zero time.
unfoldable pub probe : WriteRequest → Publication
probe r = record {
  id = "probe";
  knowledge_base_id = "probe";
  publisher_id = "probe";
  publisher_tenant_id = 1;
  title = r.title;
  description = r.description;
  tags = r.tags;
  usage_guidance = r.usage_guidance;
  audience = r.audience;
  access_mode = r.access_mode;
  status = published;
  published_revision = 1;
  created_at = 62135596801000000000;
  published_at = 62135596801000000000;
  unpublished_at = none;
  updated_at = 62135596801000000000;
  row_version = 1;
  last_audit_correlation_id = r.correlation_id;
}

-- normalizeWrite
unfoldable pub normalize_write : (String → String) → WriteRequest → Result Err WriteRequest
unfolding trimmed probe valid_correlation
normalize_write lower raw =
    let r = trimmed lower raw in
    if not (is_valid (probe r)) || not (valid_correlation r.correlation_id)
    then err invalid
    else ok r

-- applyWrite
unfoldable pub apply_write : Publication → WriteRequest → ℕ → String → ℕ → Publication
apply_write existing r revision correlation_id at = record existing {
  title = r.title;
  description = r.description;
  tags = r.tags;
  usage_guidance = r.usage_guidance;
  audience = r.audience;
  access_mode = r.access_mode;
  published_revision = revision;
  updated_at = at;
  last_audit_correlation_id = correlation_id;
}

-- publicationAuditValue
unfoldable pub publication_audit_value : Publication → Audit.Value
publication_audit_value p =
    Audit.Value.publication p.audience p.access_mode p.status p.published_revision p.row_version

audit_value : Option Publication → Option Audit.Value
unfolding publication_audit_value
audit_value none = none
audit_value (some p) = if p.id == "" then none else some (publication_audit_value p)

-- recordAudit; the old value of a creation is the zero value, written `none`.
unfoldable pub record_audit :
    Env
    → Ownership
    → Actor
    → String
    → Option Publication
    → Publication
    → String
    → Exec Db Err (Unit {0})
unfolding audit_value
record_audit env owner actor action old_value new_value correlation_id =
    if not env.auditing
    then pure tt
    else wrap (λ _. unavailable)
        (record_event env (record {
          id = "";
          tenant_id = owner.tenant_id;
          knowledge_base_id = owner.knowledge_base_id;
          actor_user_id = actor.user_id;
          action = action;
          target_type = "kb_publication";
          target_id =
              if new_value.id == ""
              then elim old_value [ none ↦ "" | some p ↦ p.id ]
              else new_value.id;
          outcome = success;
          error_code = "";
          correlation_id = correlation_id;
          old_value = audit_value old_value;
          new_value = audit_value (some new_value);
          created_at = env.now;
        }))
