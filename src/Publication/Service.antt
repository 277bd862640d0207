-- ===== src/Publication/Service.antt =====
-- internal/publication/service.go: publishing, updating and withdrawing a knowledge base.
use my_kb.Prelude.{ℕ, Bool, ◌||◌, not, String, ◌==◌, ◌=ℕ=◌, ltb, Option, none, some, if◌then◌else◌}
use my_kb.Result.{Result, ok, err, Exec, fail, fail_if, pure, attempt, wrap, ◌>>=◌, ◌>>◌}
use my_kb.Http.{Headers}
use my_kb.Db.{Db, Env}
use my_kb.Ownership.{Ownership}
use my_kb.Revision.Repository
use my_kb.Subscription.Repository.{inactivate_publication, inactivate_outside_audience}
use my_kb.Publication.{Publication, published, is_published}
use my_kb.Publication.Repository as Store
use my_kb.Publication.Repository.{RepoErr}
pub use my_kb.Publication.Requests.{
  Err, Actor, WriteRequest, invalid, not_found, conflict, revision_conflict, not_owner,
  personal_notes, unavailable, id_unavailable, stored_invalid, database, ownership,
}
unfoldable pub use my_kb.Publication.Requests.{
  from_repo, record_denied, check_owner, require_owner, valid_correlation, text_le, normalized,
  clean_tags, trimmed, probe, normalize_write, apply_write, publication_audit_value, record_audit,
}

-- Publish again what was withdrawn.
unfoldable pub republish :
    Env
    → Ownership
    → Actor
    → WriteRequest
    → WriteRequest
    → ℕ
    → Publication
    → Exec Db Err Publication
republish env owner actor request normal revision existing =
    let candidate = record (apply_write existing normal revision request.correlation_id env.now) {
      status = published;
      published_at = env.now;
      unpublished_at = none;
    } in
    fail_if (is_published existing) conflict (
      fail_if (not (request.expected_row_version =ℕ= existing.row_version)) revision_conflict (do
        updated ← wrap from_repo (Store.update candidate existing.row_version)
        record_audit env owner actor "publication.published" (some existing) updated
            request.correlation_id
        pure updated))

-- The first publication of a knowledge base.
unfoldable pub first_publication :
    Env
    → Ownership
    → String
    → Actor
    → WriteRequest
    → WriteRequest
    → ℕ
    → Option String
    → Exec Db Err Publication
first_publication env owner kb_id actor request normal revision none = fail id_unavailable
first_publication env owner kb_id actor request normal revision (some id) = do
  created ← wrap from_repo (
      Store.create (record {
        id = id;
        knowledge_base_id = kb_id;
        publisher_id = actor.user_id;
        publisher_tenant_id = owner.tenant_id;
        title = normal.title;
        description = normal.description;
        tags = normal.tags;
        usage_guidance = normal.usage_guidance;
        audience = normal.audience;
        access_mode = normal.access_mode;
        status = published;
        published_revision = revision;
        created_at = env.now;
        published_at = env.now;
        unpublished_at = none;
        updated_at = env.now;
        row_version = 1;
        last_audit_correlation_id = request.correlation_id;
      }))
  record_audit env owner actor "publication.published" none created request.correlation_id
  pure created

-- What the lookup by knowledge base returned.
unfoldable pub after_lookup :
    Env
    → Ownership
    → String
    → Actor
    → WriteRequest
    → WriteRequest
    → ℕ
    → Result RepoErr Publication
    → Exec Db Err Publication
after_lookup env owner kb_id actor request normal revision (ok existing) =
    republish env owner actor request normal revision existing
after_lookup env owner kb_id actor request normal revision (err RepoErr.not_found) =
    first_publication env owner kb_id actor request normal revision env.new_id
after_lookup env owner kb_id actor request normal revision (err e) = fail (from_repo e)

-- Service.Publish
unfoldable pub publish : Env → String → Actor → WriteRequest → Headers → Exec Db Err Publication
publish env kb_id actor request headers = do
  owner ← require_owner env kb_id actor headers
  normal ← λ db. (normalize_write env.to_lower request, db)
  revision ←
      wrap (λ _. unavailable)
        (Repository.ensure env.activity_id kb_id actor.user_id "publication.initialized" ""
          request.correlation_id env.now)
  found ← attempt (Store.get_by_kb kb_id)
  after_lookup env owner kb_id actor request normal revision found

-- `existing.PublisherID != actor.UserID || existing.PublisherTenantID != actor.TenantID`
unfoldable pub not_publisher : Publication → Actor → Bool
not_publisher p actor =
    not (p.publisher_id == actor.user_id) || not (p.publisher_tenant_id =ℕ= actor.tenant_id)

-- The statements of Update, and its audit event.
unfoldable pub write_update :
    Env → Ownership → Actor → WriteRequest → Publication → Publication → Exec Db Err Publication
write_update env owner actor request existing candidate = do
  updated ← wrap from_repo (Store.update candidate request.expected_row_version)
  wrap (λ _. unavailable)
      (inactivate_outside_audience updated.id updated.audience request.correlation_id env.now)
  record_audit env owner actor "publication.updated" (some existing) updated request.correlation_id
  pure updated

-- What Update does with the stored publication.
unfoldable pub update_existing :
    Env
    → Ownership
    → String
    → Actor
    → WriteRequest
    → WriteRequest
    → Publication
    → Exec Db Err Publication
update_existing env owner kb_id actor request normal existing =
    fail_if (not (is_published existing)) not_found (
      fail_if (not_publisher existing actor) not_owner (
        fail_if (not (existing.row_version =ℕ= request.expected_row_version)) revision_conflict (do
          revision ← wrap (λ _. unavailable) (Repository.current kb_id)
          write_update env owner actor request existing
              (apply_write existing normal revision request.correlation_id env.now))))

-- Service.Update
unfoldable pub update : Env → String → Actor → WriteRequest → Headers → Exec Db Err Publication
update env kb_id actor request headers = do
  owner ← require_owner env kb_id actor headers
  fail_if (ltb request.expected_row_version 1) invalid (do
    normal ← λ db. (normalize_write env.to_lower request, db)
    existing ← wrap from_repo (Store.get_by_kb kb_id)
    update_existing env owner kb_id actor request normal existing)

unfoldable pub withdraw_row : Env → ℕ → String → Publication → Exec Db Err Publication
withdraw_row env expected correlation_id existing =
    if is_published existing
    then wrap from_repo (Store.unpublish existing.id expected correlation_id env.now)
    else pure existing

unfoldable pub report_withdrawal :
    Env → Ownership → Actor → String → Publication → Publication → Exec Db Err (Unit {0})
report_withdrawal env owner actor correlation_id existing result =
    if is_published existing
    then record_audit env owner actor "publication.unpublished" (some existing) result
        correlation_id
    else pure tt

-- What Unpublish does with the stored publication.
unfoldable pub unpublish_existing :
    Env → Ownership → Actor → ℕ → String → Publication → Exec Db Err Publication
unpublish_existing env owner actor expected correlation_id existing =
    fail_if (not_publisher existing actor) not_owner (
      fail_if (not (existing.row_version =ℕ= expected)) revision_conflict (do
        result ← withdraw_row env expected correlation_id existing
        wrap (λ _. unavailable) (inactivate_publication result.id correlation_id env.now)
        report_withdrawal env owner actor correlation_id existing result
        pure result))

-- Service.Unpublish
unfoldable pub unpublish : Env → String → Actor → ℕ → String → Headers → Exec Db Err Publication
unpublish env kb_id actor expected correlation_id headers = do
  owner ← require_owner env kb_id actor headers
  fail_if (ltb expected 1 || not (valid_correlation correlation_id)) invalid (do
    existing ← wrap from_repo (Store.get_by_kb kb_id)
    unpublish_existing env owner actor expected correlation_id existing)

-- What the lookup of UnpublishForDeletion returned.
unfoldable pub after_deletion_lookup :
    Env → String → Actor → String → Headers → Result RepoErr Publication → Exec Db Err (Unit {0})
after_deletion_lookup env kb_id actor correlation_id headers (err RepoErr.not_found) = pure tt
after_deletion_lookup env kb_id actor correlation_id headers (err e) = fail (from_repo e)
after_deletion_lookup env kb_id actor correlation_id headers (ok existing) =
    if not (is_published existing)
    then wrap (λ _. database) (inactivate_publication existing.id correlation_id env.now)
    else do unpublish env kb_id actor existing.row_version correlation_id headers; pure tt

-- Service.UnpublishForDeletion
unfoldable pub unpublish_for_deletion :
    Env → String → Actor → String → Headers → Exec Db Err (Unit {0})
unpublish_for_deletion env kb_id actor correlation_id headers = do
  require_owner env kb_id actor headers
  found ← attempt (Store.get_by_kb kb_id)
  after_deletion_lookup env kb_id actor correlation_id headers found

-- Service.GetForOwner
unfoldable pub get_for_owner : Env → String → Actor → Headers → Exec Db Err Publication
get_for_owner env kb_id actor headers = do
  require_owner env kb_id actor headers
  wrap from_repo (Store.get_by_kb kb_id)
