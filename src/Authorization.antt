-- ===== src/Authorization.antt =====
-- internal/authorization/decision.go: the role of a principal on a knowledge base, and whether it
-- allows an action. The service reads through interfaces; `repositories` are the ones it is given.
pub mod Roles
pub mod Reasons
pub mod Soundness
pub mod Lifecycle
use my_kb.Prelude.{
  ℕ, Bool, true, false, ◌||◌, ◌&&◌, not, String, ◌==◌, ◌=ℕ=◌, Option, none, some, if◌then◌else◌,
}
use my_kb.Result.{Result, ok, err, Exec, fail, fail_if, pure, attempt, ◌>>=◌}
use my_kb.Text.{is_blank}
use my_kb.Http.{Headers}
use my_kb.Db.{Db, Env}
use my_kb.Profile.{ProductMode}
use my_kb.Ownership
use my_kb.Ownership.{Ownership, resolve, owns_personal_notes}
use my_kb.Grant.{Grant, Permission, viewer, editor, other}
use my_kb.Grant.Repository as Grants
use my_kb.Grant.Repository.{effective_user_grant}
use my_kb.Publication.{Publication, AccessMode, organization_public, visible_to}
use my_kb.Publication.Repository as Publications
use my_kb.Publication.Repository.{get_published_by_kb}
use my_kb.Subscription.{Subscription}
use my_kb.Subscription.Repository as Subscriptions
use my_kb.Subscription.Service.{effective}

pub data Err : Type 0 where
  invalid not_found denied unavailable : Err

pub data Role : Type 0 where
  no_role viewer_role editor_role owner_role : Role

-- A Go string type with named values: `unknown` holds every other text.
pub data Action : Type 0 where
  discover read edit_content configure manage_grants delete : Action
  unknown : String → Action

-- Action.Valid
unfoldable pub valid_action : Action → Bool
valid_action (unknown s) = false
valid_action _ = true

pub record Principal : Type 0 where
  pub user_id : String
  pub tenant_id : ℕ

pub data Source : Type 0 where
  no_source owner_source user_grant subscription_source public_source : Source

pub record Decision : Type 0 where
  pub knowledge_base_id : String
  pub role : Role
  pub source : Source
  pub source_tenant_id : ℕ
  pub grant_id : String
  pub grant_revision : ℕ
  pub publication_id : String
  pub subscription_id : String
  pub product_mode : ProductMode

role_allows : Role → Action → Bool
role_allows owner_role a = true
role_allows editor_role a = elim a [
  | discover ↦ true
  | read ↦ true
  | edit_content ↦ true
  | _ ↦ false
]
role_allows viewer_role a = elim a [ discover ↦ true | read ↦ true | _ ↦ false ]
role_allows no_role a = false

-- Decision.Allows
unfoldable pub decision_allows : Decision → Action → Bool
unfolding role_allows valid_action
decision_allows d a = if not (valid_action a) then false else role_allows d.role a

-- PublicationReader and SubscriptionReader, which are configured together.
pub record PublicationAccess (S : Type 0) : Type 0 where
  pub published_by_kb : String → Exec S Publications.RepoErr Publication
  pub effective_for : String → String → ℕ → Exec S Subscriptions.RepoErr Subscription

-- OwnerResolver, GrantReader, and the publication readers where they are configured.
pub record Readers (S : Type 0) : Type 0 where
  pub resolve_owner : String → Headers → Exec S Ownership.Err Ownership
  pub effective_grant : String → String → ℕ → Exec S Grants.RepoErr Grant
  pub publication_access : Option (PublicationAccess S)
  pub now : ℕ

unfoldable pub owner_error : Ownership.Err → Err
owner_error Ownership.Err.not_found = not_found
owner_error Ownership.Err.adoption_required = not_found
owner_error _ = unavailable

unfoldable pub base_decision : String → Ownership → Decision
base_decision kb_id owner = record {
  knowledge_base_id = kb_id;
  role = no_role;
  source = no_source;
  source_tenant_id = owner.tenant_id;
  grant_id = "";
  grant_revision = 0;
  publication_id = "";
  subscription_id = "";
  product_mode = owner.product_mode;
}

unfoldable pub by_grant : Decision → Role → Grant → Decision
by_grant base role g = record base {
  role = role;
  source = user_grant;
  grant_id = g.id;
  grant_revision = g.revision;
}

unfoldable pub is_public : AccessMode → Bool
is_public organization_public = true
is_public _ = false

-- What the subscription lookup returned.
unfoldable pub after_subscription :
    Decision → Result Subscriptions.RepoErr Subscription → Result Err Decision
after_subscription base (ok s) =
    ok (record base { role = viewer_role; source = subscription_source; subscription_id = s.id })
after_subscription base (err Subscriptions.RepoErr.not_found) = ok base
after_subscription base (err e) = err unavailable

module _ {S : Type 0} where
  -- What a visible publication gives.
  unfoldable pub by_publication :
      PublicationAccess S → Principal → Decision → Publication → Exec S Err Decision
  unfolding is_public
  by_publication access p base row =
      let known = record base { publication_id = row.id } in
      if not (visible_to row p.tenant_id)
      then pure base
      else if is_public row.access_mode
      then pure (record known { role = viewer_role; source = public_source })
      else do
        found ← attempt (access.effective_for row.id p.user_id p.tenant_id)
        λ s. (after_subscription known found, s)

  -- What the publication lookup returned.
  unfoldable pub after_publication :
      PublicationAccess S
      → Principal
      → Decision
      → Result Publications.RepoErr Publication
      → Exec S Err Decision
  after_publication access p base (ok row) = by_publication access p base row
  after_publication access p base (err Publications.RepoErr.not_found) = pure base
  after_publication access p base (err e) = fail unavailable

  unfoldable pub without_grant :
      Option (PublicationAccess S) → String → Principal → Decision → Exec S Err Decision
  without_grant none kb_id p base = pure base
  without_grant (some access) kb_id p base = do
    found ← attempt (access.published_by_kb kb_id)
    after_publication access p base found

  -- What the grant lookup returned.
  unfoldable pub after_grant :
      Option (PublicationAccess S)
      → String
      → Principal
      → Decision
      → Result Grants.RepoErr Grant
      → Exec S Err Decision
  after_grant access kb_id p base (ok g) = elim g.permission [
    | viewer ↦ pure (by_grant base viewer_role g)
    | editor ↦ pure (by_grant base editor_role g)
    | other _ ↦ fail unavailable
  ]
  after_grant access kb_id p base (err Grants.RepoErr.not_found) = without_grant access kb_id p base
  after_grant access kb_id p base (err e) = fail unavailable

  -- What Decide does for a resolved owner.
  unfoldable pub decide_for : Readers S → String → Principal → Ownership → Exec S Err Decision
  decide_for readers kb_id p owner =
      let base = base_decision kb_id owner in
      if p.user_id == owner.owner_user_id && p.tenant_id =ℕ= owner.tenant_id
      then pure (record base { role = owner_role; source = owner_source })
      else if owns_personal_notes owner
      then pure base
      else if p.tenant_id =ℕ= owner.tenant_id
      then (do
        found ← attempt (readers.effective_grant kb_id p.user_id readers.now)
        after_grant readers.publication_access kb_id p base found)
      else without_grant readers.publication_access kb_id p base

  -- What the owner resolver returned.
  unfoldable pub after_owner :
      Readers S → String → Principal → Result Ownership.Err Ownership → Exec S Err Decision
  after_owner readers kb_id p (ok owner) = decide_for readers kb_id p owner
  after_owner readers kb_id p (err e) = fail (owner_error e)

  -- Service.Decide
  unfoldable pub decide : Readers S → String → Principal → Headers → Exec S Err Decision
  decide readers kb_id p headers =
      fail_if (is_blank kb_id || is_blank p.user_id || p.tenant_id =ℕ= 0) invalid (do
        owner ← attempt (readers.resolve_owner kb_id headers)
        after_owner readers kb_id p owner)

  -- Service.Authorize; the decision that comes with ErrDenied is not modelled.
  unfoldable pub authorize : Readers S → String → Principal → Action → Headers → Exec S Err Decision
  authorize readers kb_id p action headers = fail_if (not (valid_action action)) invalid (do
    d ← decide readers kb_id p headers
    fail_if (not (decision_allows d action)) denied (pure d))

-- The resolver and the repositories that cmd/gateway gives the service.
unfoldable pub repositories : Env → Readers Db
repositories env = record {
  resolve_owner = resolve env.upstream;
  effective_grant = effective_user_grant;
  publication_access =
      some (record { published_by_kb = get_published_by_kb; effective_for = effective });
  now = env.now;
}
