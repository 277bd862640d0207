-- ===== src/Subscription/Service.antt =====
-- internal/subscription/service.go: following a publication.
use my_kb.Prelude.{
  ℕ, Bool, true, false, ◌||◌, ◌&&◌, not, String, ◌==◌, ◌=ℕ=◌, ltb, leb, Option, none, some, len,
  if◌then◌else◌,
}
use my_kb.Result.{Result, ok, err, Exec, fail, fail_if, pure, attempt, wrap, ◌>>=◌, ◌>>◌}
use my_kb.Text.{is_blank}
use my_kb.Db.{Db, Env}
use my_kb.Audit
use my_kb.Audit.{success}
use my_kb.Audit.Repository.{record_event}
use my_kb.Revision.Repository
use my_kb.Publication.{Publication, is_published, visible_to}
use my_kb.Publication.Repository as Publications
use my_kb.Subscription.{Subscription, active, unsubscribed, is_active}
use my_kb.Subscription.Repository as Store
use my_kb.Subscription.Repository.{RepoErr}

pub data Err : Type 0 where
  invalid not_found unavailable publication outside_audience owner : Err
  id_unavailable stored_invalid database : Err
  revision : Repository.Err → Err

unfoldable pub from_repo : RepoErr → Err
from_repo RepoErr.invalid = invalid
from_repo RepoErr.not_found = not_found
from_repo RepoErr.stored_invalid = stored_invalid
from_repo RepoErr.database = database

pub record Actor : Type 0 where
  pub user_id : String
  pub tenant_id : ℕ

pub record Item : Type 0 where
  pub subscription : Subscription
  pub publication : Publication
  pub current_revision : ℕ
  pub updated : Bool

pub record SubscribeResult : Type 0 where
  pub item : Item
  pub changed : Bool

-- item
unfoldable pub item_of : Subscription → Publication → ℕ → Item
item_of s p current = record {
  subscription = s;
  publication = p;
  current_revision = current;
  updated = ltb s.last_seen_revision current;
}

-- validActor
unfoldable pub valid_actor : Actor → Bool
valid_actor a = not (is_blank a.user_id) && ltb 0 a.tenant_id

-- validCorrelation
unfoldable pub valid_correlation : String → Bool
valid_correlation value = not (is_blank value) && leb (len value) 128

audit_value : Option Subscription → Option Audit.Value
audit_value none = none
audit_value (some s) =
    if s.id == "" then none else some (Audit.Value.subscription s.status s.last_seen_revision)

-- recordAudit
unfoldable pub record_audit :
    Env
    → Publication
    → Actor
    → String
    → Option Subscription
    → Subscription
    → String
    → Exec Db Err (Unit {0})
unfolding audit_value
record_audit env pub_row actor action old_value new_value correlation_id =
    if not env.auditing
    then pure tt
    else wrap (λ _. unavailable)
        (record_event env (record {
          id = "";
          tenant_id = actor.tenant_id;
          knowledge_base_id = pub_row.knowledge_base_id;
          actor_user_id = actor.user_id;
          action = action;
          target_type = "kb_subscription";
          target_id = new_value.id;
          outcome = success;
          error_code = "";
          correlation_id = correlation_id;
          old_value = audit_value old_value;
          new_value = audit_value (some new_value);
          created_at = env.now;
        }))

-- `s.Active() && s.SubscriberTenantID == tenantID`
unfoldable pub follows : Subscription → ℕ → Bool
follows s tenant_id = is_active s && s.subscriber_tenant_id =ℕ= tenant_id

-- The row that Subscribe stores for a new follower.
unfoldable pub new_subscription : Env → String → String → Actor → ℕ → String → Subscription
new_subscription env id publication_id actor current correlation_id = record {
  id = id;
  publication_id = publication_id;
  subscriber_id = actor.user_id;
  subscriber_tenant_id = actor.tenant_id;
  status = active;
  notification_enabled = true;
  last_seen_revision = current;
  created_at = env.now;
  updated_at = env.now;
  ended_at = none;
  last_audit_correlation_id = correlation_id;
}

-- The read after an ErrInvalid, by which a lost race is told from a bad row.
unfoldable pub after_invalid :
    Actor → Publication → ℕ → Err → Result RepoErr Subscription → Exec Db Err SubscribeResult
after_invalid actor pub_row current e (ok winner) =
    if follows winner actor.tenant_id
    then pure (record { item = item_of winner pub_row current; changed = false })
    else fail e
after_invalid actor pub_row current e (err x) = fail e

-- What Activate or Create returned; a stored row that does not validate wraps ErrInvalid too.
unfoldable pub after_write :
    Env
    → String
    → Actor
    → String
    → Publication
    → ℕ
    → Option Subscription
    → Result RepoErr Subscription
    → Exec Db Err SubscribeResult
after_write env publication_id actor correlation_id pub_row current existing (ok written) = do
  record_audit env pub_row actor "subscription.created" existing written correlation_id
  pure (record { item = item_of written pub_row current; changed = true })
after_write env publication_id actor correlation_id pub_row current existing (err RepoErr.invalid) =
    do
      winner ← attempt (Store.get_by_publication_user publication_id actor.user_id)
      after_invalid actor pub_row current invalid winner
after_write env publication_id actor correlation_id pub_row current existing
      (err RepoErr.stored_invalid) =
    do
      winner ← attempt (Store.get_by_publication_user publication_id actor.user_id)
      after_invalid actor pub_row current stored_invalid winner
after_write env publication_id actor correlation_id pub_row current existing (err e) =
    fail (from_repo e)

unfoldable pub create_row :
    Env → String → Actor → String → Publication → ℕ → Option String → Exec Db Err SubscribeResult
create_row env publication_id actor correlation_id pub_row current none = fail id_unavailable
create_row env publication_id actor correlation_id pub_row current (some id) = do
  written ←
      attempt (Store.create (new_subscription env id publication_id actor current correlation_id))
  after_write env publication_id actor correlation_id pub_row current none written

-- What the lookup of the follower returned.
unfoldable pub after_lookup :
    Env
    → String
    → Actor
    → String
    → Publication
    → ℕ
    → Result RepoErr Subscription
    → Exec Db Err SubscribeResult
after_lookup env publication_id actor correlation_id pub_row current (ok existing) =
    if follows existing actor.tenant_id
    then pure (record { item = item_of existing pub_row current; changed = false })
    else do
      written ← attempt (Store.activate existing.id actor.tenant_id current correlation_id env.now)
      after_write env publication_id actor correlation_id pub_row current (some existing) written
after_lookup env publication_id actor correlation_id pub_row current (err RepoErr.not_found) =
    create_row env publication_id actor correlation_id pub_row current env.new_id
after_lookup env publication_id actor correlation_id pub_row current (err RepoErr.stored_invalid) =
    do
      winner ← attempt (Store.get_by_publication_user publication_id actor.user_id)
      after_invalid actor pub_row current stored_invalid winner
after_lookup env publication_id actor correlation_id pub_row current (err e) = fail (from_repo e)

-- What Subscribe does with the publication.
unfoldable pub subscribe_to :
    Env → String → Actor → String → Publication → Exec Db Err SubscribeResult
subscribe_to env publication_id actor correlation_id pub_row =
    fail_if (not (is_published pub_row)) publication (
      fail_if (pub_row.publisher_id == actor.user_id) owner (
        fail_if (not (visible_to pub_row actor.tenant_id)) outside_audience (do
          current ← wrap (λ _. unavailable) (Repository.current pub_row.knowledge_base_id)
          found ← attempt (Store.get_by_publication_user publication_id actor.user_id)
          after_lookup env publication_id actor correlation_id pub_row current found)))

-- Service.Subscribe
unfoldable pub subscribe : Env → String → Actor → String → Exec Db Err SubscribeResult
subscribe env publication_id actor correlation_id =
    fail_if
      (not (valid_actor actor) || not (valid_correlation correlation_id) || is_blank publication_id)
      invalid
      (do
        pub_row ← wrap (λ _. publication) (Publications.get publication_id)
        subscribe_to env publication_id actor correlation_id pub_row)

current_or_published : Publication → Result Repository.Err ℕ → Result Err ℕ
current_or_published p (ok n) = ok n
current_or_published p (err e) =
    if ltb 0 p.published_revision then ok p.published_revision else err (revision e)

is_unsubscribed : Subscription → Bool
is_unsubscribed s = elim s.status [ unsubscribed ↦ true | _ ↦ false ]

-- What Unsubscribe does with the stored subscription.
unfoldable pub end_existing :
    Env → Actor → String → Publication → Subscription → Exec Db Err SubscribeResult
unfolding current_or_published is_unsubscribed
end_existing env actor correlation_id pub_row existing =
    fail_if (not (existing.subscriber_tenant_id =ℕ= actor.tenant_id)) not_found (do
      read ← attempt (Repository.current pub_row.knowledge_base_id)
      current ← λ db. (current_or_published pub_row read, db)
      if is_unsubscribed existing
          then pure (record { item = item_of existing pub_row current; changed = false })
          else do
            ended ← wrap from_repo (Store.unsubscribe existing.id correlation_id env.now)
            record_audit env pub_row actor "subscription.ended" (some existing) ended correlation_id
            pure (record { item = item_of ended pub_row current; changed = true }))

-- Service.Unsubscribe
unfoldable pub unsubscribe : Env → String → Actor → String → Exec Db Err SubscribeResult
unsubscribe env publication_id actor correlation_id =
    fail_if
      (not (valid_actor actor) || not (valid_correlation correlation_id) || publication_id == "")
      invalid
      (do
        pub_row ← wrap (λ _. publication) (Publications.get publication_id)
        existing ← wrap from_repo (Store.get_by_publication_user publication_id actor.user_id)
        end_existing env actor correlation_id pub_row existing)

-- What MarkSeen does with the stored subscription.
unfoldable pub see_existing :
    Env → Actor → String → Publication → Subscription → Exec Db Err SubscribeResult
see_existing env actor correlation_id pub_row existing =
    fail_if (not (follows existing actor.tenant_id)) not_found (do
      current ← wrap (λ _. unavailable) (Repository.current pub_row.knowledge_base_id)
      if leb current existing.last_seen_revision
          then pure (record { item = item_of existing pub_row current; changed = false })
          else do
            updated ← wrap from_repo (Store.mark_seen existing.id current correlation_id env.now)
            pure (record { item = item_of updated pub_row current; changed = true }))

-- Service.MarkSeen
unfoldable pub mark_seen : Env → String → Actor → String → Exec Db Err SubscribeResult
mark_seen env publication_id actor correlation_id =
    fail_if
      (not (valid_actor actor) || not (valid_correlation correlation_id) || publication_id == "")
      invalid
      (do
        pub_row ← wrap (λ _. publication) (Publications.get publication_id)
        fail_if (not (visible_to pub_row actor.tenant_id)) publication (do
          existing ←
              wrap (λ _. not_found) (Store.get_by_publication_user publication_id actor.user_id)
          see_existing env actor correlation_id pub_row existing))

-- Service.Effective
unfoldable pub effective : String → String → ℕ → Exec Db RepoErr Subscription
effective publication_id user_id tenant_id =
    fail_if (publication_id == "" || user_id == "" || tenant_id =ℕ= 0) RepoErr.invalid (do
      s ← Store.get_by_publication_user publication_id user_id
      fail_if (not (follows s tenant_id)) RepoErr.not_found (pure s))
