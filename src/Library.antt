-- ===== src/Library.antt =====
-- internal/library/service.go: the knowledge bases that a user owns, has been given or follows.
pub mod Views
pub mod Distinct
use my_kb.Prelude.{
  ℕ, Bool, true, false, ◌||◌, ◌&&◌, not, String, ◌=ℕ=◌, ltb, leb, Option, none, some, List, [], ◌∷◌,
  ◌++◌, map, member, if◌then◌else◌,
}
use my_kb.Result.{Result, ok, err, Exec, fail, fail_if, pure, lift, attempt, wrap, ◌>>=◌, ◌>>◌}
use my_kb.Text.{is_blank}
use my_kb.Http.{Headers, UpstreamErr}
use my_kb.Paging.{Page, paginate, is_negative}
use my_kb.Profile.{ProductMode, rag}
use my_kb.Authorization as Decisions
use my_kb.Authorization.{
  Principal, Decision, Role, no_role, viewer_role, editor_role, owner_role, Source, no_source,
  owner_source, user_grant, subscription_source, public_source,
}
use my_kb.Subscription.Service as Subscriptions

-- `panicked` stands for a slice expression out of bounds.
pub data Err : Type 0 where
  invalid unavailable panicked : Err

-- A Go string type with named values: `unknown` holds every other text.
pub data View : Type 0 where
  owned shared subscribed everything : View
  unknown : String → View

-- weknora.KnowledgeBase, the fields that List shows.
pub record KnowledgeBase : Type 0 where
  pub id : String
  pub name : String
  pub description : String
  pub kind : String
  pub creator_id : String

-- An absent field of the JSON object is empty, zero or `none`.
pub record Item : Type 0 where
  pub id : String
  pub name : String
  pub description : String
  pub kind : String
  pub creator_id : String
  pub role : Role
  pub product_mode : ProductMode
  pub access_source : Source
  pub publication_id : String
  pub current_revision : ℕ
  pub last_seen_revision : ℕ
  pub updated : Bool

-- Upstream, Decisions, and SubscriptionLister where it is configured.
pub record Readers (S : Type 0) : Type 0 where
  pub list_knowledge_bases : Headers → Exec S UpstreamErr (List KnowledgeBase)
  pub decide : String → Principal → Headers → Exec S Decisions.Err Decision
  pub subscriptions :
      Option (Subscriptions.Actor → Exec S Subscriptions.Err (List Subscriptions.Item))

unfoldable pub known_view : View → Bool
known_view (unknown s) = false
known_view _ = true

-- `view == ViewSubscribed || view == ViewAll`
unfoldable pub with_subscribed : View → Bool
with_subscribed subscribed = true
with_subscribed everything = true
with_subscribed _ = false

unfoldable pub is_owner : Role → Bool
is_owner owner_role = true
is_owner _ = false

unfoldable pub from_grant : Source → Bool
from_grant user_grant = true
from_grant _ = false

unfoldable pub from_owner : Source → Bool
from_owner owner_source = true
from_owner _ = false

-- The test by which the loop of List leaves a knowledge base out.
unfoldable pub left_out : View → Decision → Bool
unfolding is_owner from_grant from_owner
left_out owned d = not (is_owner d.role)
left_out shared d = not (from_grant d.source)
left_out everything d = not (from_owner d.source) && not (from_grant d.source)
left_out _ d = false

unfoldable pub decided_item : KnowledgeBase → Decision → Item
decided_item kb d = record {
  id = kb.id;
  name = kb.name;
  description = kb.description;
  kind = kb.kind;
  creator_id = kb.creator_id;
  role = d.role;
  product_mode = d.product_mode;
  access_source = d.source;
  publication_id = "";
  current_revision = 0;
  last_seen_revision = 0;
  updated = false;
}

unfoldable pub followed_item : Subscriptions.Item → Item
followed_item f = record {
  id = f.publication.knowledge_base_id;
  name = f.publication.title;
  description = f.publication.description;
  kind = "";
  creator_id = f.publication.publisher_id;
  role = viewer_role;
  product_mode = rag;
  access_source = subscription_source;
  publication_id = f.publication.id;
  current_revision = f.current_revision;
  last_seen_revision = f.subscription.last_seen_revision;
  updated = f.updated;
}

-- What Decide returned for one knowledge base: an entry, or none.
unfoldable pub after_decision :
    View → KnowledgeBase → Result Decisions.Err Decision → Result Err (Option Item)
unfolding left_out
after_decision view kb (ok d) = if left_out view d then ok none else ok (some (decided_item kb d))
after_decision view kb (err Decisions.Err.not_found) = ok none
after_decision view kb (err e) = err unavailable

unfoldable pub with_item : Option Item → List Item → List Item
with_item none items = items
with_item (some i) items = i ∷ items

unfoldable pub ids_of : List Item → List String
ids_of items = map (λ (i : Item). i.id) items

-- The loop that appends the subscribed knowledge bases that are not there yet.
unfoldable pub merge : List String → List Item → List Item
merge seen [] = []
merge seen (item ∷ items) =
    let again = merge seen items in
    let first = item ∷ merge (item.id ∷ seen) items in if member item.id seen then again else first

-- The first test of List.
unfoldable pub refused : View → ℕ → ℕ → Principal → Bool
refused view page page_size p =
    not (known_view view)
    || (is_negative page || ltb page 1)
    || (is_negative page_size || ltb page_size 1)
    || ltb 100 page_size
    || is_blank p.user_id
    || p.tenant_id =ℕ= 0

-- paginate, which panics where the slice expression does.
unfoldable pub page_of : ℕ → ℕ → List Item → Result Err (Page Item)
page_of page page_size items = elim (paginate items page page_size) [
  | none ↦ err panicked
  | some p ↦ ok p
]

module _ {S : Type 0} where
  -- subscriptionItems; List asks for it only where a lister is configured.
  unfoldable pub items_from :
      Option (Subscriptions.Actor → Exec S Subscriptions.Err (List Subscriptions.Item))
      → Principal
      → Exec S Err (List Item)
  items_from none p = fail unavailable
  items_from (some list) p = do
    items ← wrap (λ _. unavailable) (list (record { user_id = p.user_id; tenant_id = p.tenant_id }))
    pure (map followed_item items)

module _ {S : Type 0} (readers : Readers S) where
  unfoldable pub subscription_items : Principal → Exec S Err (List Item)
  subscription_items p = items_from readers.subscriptions p

  unfoldable pub no_lister : Bool
  no_lister = elim readers.subscriptions [ none ↦ true | some _ ↦ false ]

  -- The loop of List over the knowledge bases of the upstream.
  unfoldable pub authorized :
      View → Principal → Headers → List KnowledgeBase → Exec S Err (List Item)
  authorized view p headers [] = pure []
  authorized view p headers (kb ∷ kbs) = do
    found ← attempt (readers.decide kb.id p headers)
    item ← lift (after_decision view kb found)
    items ← authorized view p headers kbs
    pure (with_item item items)

  -- What List does after the loop.
  unfoldable pub with_followed : View → Principal → List Item → Exec S Err (List Item)
  with_followed everything p items = do
    followed ← subscription_items p
    pure (items ++ merge (ids_of items) followed)
  with_followed _ p items = pure items

  -- The views that start from the knowledge bases of the upstream.
  unfoldable pub listing : View → Principal → Headers → Exec S Err (List Item)
  listing view p headers = do
    kbs ← wrap (λ _. unavailable) (readers.list_knowledge_bases headers)
    items ← authorized view p headers kbs
    with_followed view p items

  -- List before it cuts the page out.
  unfoldable pub unpaged : View → Principal → Headers → Exec S Err (List Item)
  unpaged subscribed p headers = subscription_items p
  unpaged view p headers = listing view p headers

  -- Service.List
  unfoldable pub list : View → ℕ → ℕ → Principal → Headers → Exec S Err (Page Item)
  list view page page_size p headers = fail_if (refused view page page_size p) invalid (
      fail_if (with_subscribed view && no_lister) unavailable
        (do items ← unpaged view p headers; lift (page_of page page_size items)))
