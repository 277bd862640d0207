-- ===== src/Grant/Service.antt =====
-- internal/grant/service.go: the operations on grants that an owner may request.
use my_kb.Prelude.{
  ℕ, ◌||◌, not, String, ◌==◌, ◌=ℕ=◌, ltb, Option, none, some, List, select, if◌then◌else◌,
}
use my_kb.Result.{Result, ok, err, Exec, fail, fail_if, pure, attempt, wrap, ◌>>=◌, ◌>>◌}
use my_kb.Http.{Headers}
use my_kb.Db.{Db, Env}
use my_kb.Ownership.{Ownership}
use my_kb.Grant.{Grant, valid_permission, is_nil, nil_or_after, active}
use my_kb.Grant.Repository
use my_kb.Grant.Repository.{RepoErr, get, find_current_by_subject, list_current_by_kb}
pub use my_kb.Grant.Requests.{
  Err, Actor, CreateRequest, UpdateRequest, RevokeRequest, invalid, not_found, conflict,
  revision_conflict, not_owner, personal_notes, subject_unsupported, audit_unavailable,
  id_unavailable, stored_invalid, database, ownership,
}
unfoldable pub use my_kb.Grant.Requests.{
  from_repo, record_denied_grant, check_owner, require_owner, valid_correlation_id,
  validate_create_request, same_time, same_grant_request, audit_grant_value, record_audit,
}

-- The row that Create stores.
unfoldable pub candidate : Env → String → String → Actor → CreateRequest → Grant
candidate env id kb_id actor r = record {
  id = id;
  knowledge_base_id = kb_id;
  subject_type = r.subject_type;
  subject_id = r.subject_id;
  permission = r.permission;
  granted_by = actor.user_id;
  created_at = env.now;
  updated_at = env.now;
  expires_at = r.expires_at;
  revoked_at = none;
  revision = 1;
  last_audit_correlation_id = r.correlation_id;
}

-- The second lookup, after a concurrent request won the race for the unique index.
unfoldable pub after_lost_race : CreateRequest → Result RepoErr Grant → Exec Db Err Grant
after_lost_race r (ok g) = if same_grant_request g r then pure g else fail conflict
after_lost_race r (err e) = fail conflict

unfoldable pub after_insert :
    Env → Ownership → String → Actor → CreateRequest → Result RepoErr Grant → Exec Db Err Grant
after_insert env owner kb_id actor r (ok created) = do
  record_audit env owner actor "grant.create" none created r.correlation_id
  pure created
after_insert env owner kb_id actor r (err RepoErr.conflict) = do
  found ← attempt (find_current_by_subject kb_id r.subject_type r.subject_id)
  after_lost_race r found
after_insert env owner kb_id actor r (err e) = fail (from_repo e)

unfoldable pub create_new :
    Env → Ownership → String → Actor → CreateRequest → Option String → Exec Db Err Grant
create_new env owner kb_id actor r none = fail id_unavailable
create_new env owner kb_id actor r (some id) = do
  inserted ← attempt (Repository.create (candidate env id kb_id actor r))
  after_insert env owner kb_id actor r inserted

-- What the first lookup returned.
unfoldable pub after_find :
    Env → Ownership → String → Actor → CreateRequest → Result RepoErr Grant → Exec Db Err Grant
after_find env owner kb_id actor r (ok g) = if same_grant_request g r then pure g else fail conflict
after_find env owner kb_id actor r (err RepoErr.not_found) =
    create_new env owner kb_id actor r env.new_id
after_find env owner kb_id actor r (err e) = fail (from_repo e)

-- Service.Create
unfoldable pub create : Env → String → Actor → CreateRequest → Headers → Exec Db Err Grant
create env kb_id actor r headers = do
  owner ← require_owner env kb_id actor headers
  λ db. (validate_create_request r owner env.now, db)
  found ← attempt (find_current_by_subject kb_id r.subject_type r.subject_id)
  after_find env owner kb_id actor r found

-- Service.List
unfoldable pub list_active : Env → String → Actor → Headers → Exec Db Err (List Grant)
list_active env kb_id actor headers = do
  require_owner env kb_id actor headers
  items ← wrap from_repo (list_current_by_kb env.collate kb_id)
  pure (select (λ g. active g env.now) items)

-- The tests of Update and Revoke on the stored grant.
unfoldable pub check_existing : String → ℕ → Grant → Result Err (Unit {0})
unfolding is_nil
check_existing kb_id expected g =
    if not (g.knowledge_base_id == kb_id) || not (is_nil g.revoked_at)
    then err not_found
    else if not (g.revision =ℕ= expected)
    then err revision_conflict
    else ok tt

-- What Update does with the stored grant.
unfoldable pub update_existing :
    Env → Ownership → String → String → Actor → UpdateRequest → Grant → Exec Db Err Grant
update_existing env owner kb_id grant_id actor r existing = do
  λ db. (check_existing kb_id r.expected_revision existing, db)
  updated ← wrap from_repo (
      Repository.update grant_id r.expected_revision r.permission r.expires_at r.correlation_id
        env.now)
  record_audit env owner actor "grant.update" (some existing) updated r.correlation_id
  pure updated

-- Service.Update
unfoldable pub update : Env → String → String → Actor → UpdateRequest → Headers → Exec Db Err Grant
update env kb_id grant_id actor r headers = do
  owner ← require_owner env kb_id actor headers
  fail_if
      (grant_id == ""
        || ltb r.expected_revision 1
        || not (valid_permission r.permission)
        || not (valid_correlation_id r.correlation_id)
        || not (nil_or_after r.expires_at env.now))
      invalid
      (do
        existing ← wrap from_repo (get grant_id)
        update_existing env owner kb_id grant_id actor r existing)

-- What Revoke does with the stored grant.
unfoldable pub revoke_existing :
    Env → Ownership → String → String → Actor → RevokeRequest → Grant → Exec Db Err Grant
revoke_existing env owner kb_id grant_id actor r existing = do
  λ db. (check_existing kb_id r.expected_revision existing, db)
  revoked ← wrap from_repo (Repository.revoke grant_id r.expected_revision r.correlation_id env.now)
  record_audit env owner actor "grant.revoke" (some existing) revoked r.correlation_id
  pure revoked

-- Service.Revoke
unfoldable pub revoke : Env → String → String → Actor → RevokeRequest → Headers → Exec Db Err Grant
revoke env kb_id grant_id actor r headers = do
  owner ← require_owner env kb_id actor headers
  fail_if
      (grant_id == "" || ltb r.expected_revision 1 || not (valid_correlation_id r.correlation_id))
      invalid
      (do
        existing ← wrap from_repo (get grant_id)
        revoke_existing env owner kb_id grant_id actor r existing)
