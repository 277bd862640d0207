-- ===== src/Catalog.antt =====
-- internal/catalog/service.go: the publications that a user may find.
pub mod Shown
use my_kb.Prelude.{
  ℕ, Bool, true, false, ◌||◌, ◌&&◌, not, String, ◌==◌, ◌=ℕ=◌, ltb, leb, Option, none, some, List,
  [], ◌∷◌, len, count, member, if◌then◌else◌,
}
use Prim.Native.String.{◌++◌}
use my_kb.Result.{Result, ok, err, Exec, fail, fail_if, pure, lift, attempt, wrap, ◌>>=◌, ◌>>◌}
use my_kb.Text.{is_blank, trim_space, contains, join}
use my_kb.Db.{Db, Env}
use my_kb.Paging.{Page, paginate, is_negative}
use my_kb.Authorization.{Principal, is_public}
use my_kb.Revision.Repository as Revisions
use my_kb.Publication.{
  Publication, AccessMode, valid_access_mode, is_published, visible_to, subscriber,
  organization_public, other,
}
use my_kb.Publication.Repository as Publications
use my_kb.Subscription.{Subscription}
use my_kb.Subscription.Repository as Subscriptions
use my_kb.Subscription.Service.{effective}

-- `panicked` stands for a slice expression out of bounds.
pub data Err : Type 0 where
  invalid not_found unavailable panicked : Err

-- A Go int stands as in Paging; a nil UpdatedAfter is `none`.
pub record Filter : Type 0 where
  pub text : String
  pub tag : String
  pub owner : String
  pub access_mode : AccessMode
  pub updated_after : Option ℕ
  pub page : ℕ
  pub page_size : ℕ

pub record Item : Type 0 where
  pub publication : Publication
  pub current_revision : ℕ
  pub subscribed : Bool
  pub last_seen_revision : ℕ
  pub updated : Bool
  pub can_read : Bool
  pub can_subscribe : Bool

-- PublicationStore, SubscriptionReader and RevisionReader, and strings.ToLower.
pub record Readers (S : Type 0) : Type 0 where
  pub get : String → Exec S Publications.RepoErr Publication
  pub list_published : Exec S Publications.RepoErr (List Publication)
  pub effective_for : String → String → ℕ → Exec S Subscriptions.RepoErr Subscription
  pub current : String → Exec S Revisions.Err ℕ
  pub to_lower : String → String

-- validPrincipal
unfoldable pub valid_principal : Principal → Bool
valid_principal p = not (is_blank p.user_id) && ltb 0 p.tenant_id

-- `value.AccessMode == ""`
unfoldable pub any_mode : AccessMode → Bool
any_mode (other s) = s == ""
any_mode _ = false

unfoldable pub same_mode : AccessMode → AccessMode → Bool
same_mode subscriber m = elim m [ subscriber ↦ true | _ ↦ false ]
same_mode organization_public m = elim m [ organization_public ↦ true | _ ↦ false ]
same_mode (other s) m = elim m [ other t ↦ s == t | _ ↦ false ]

-- validFilter
unfoldable pub valid_filter : Filter → Bool
unfolding any_mode
valid_filter f =
    (not (is_negative f.page) && ltb 0 f.page)
    && (not (is_negative f.page_size) && ltb 0 f.page_size)
    && leb f.page_size 100
    && leb (count f.text) 160
    && leb (count f.tag) 40
    && leb (len f.owner) 512
    && (any_mode f.access_mode || valid_access_mode f.access_mode)

after : Option ℕ → ℕ → Bool
after none at = true
after (some t) at = ltb t at

haystack : Publication → String
haystack p = p.title ++ "\n" ++ p.description ++ "\n" ++ p.usage_guidance ++ "\n" ++ join p.tags " "

-- matches
unfoldable pub matches : (String → String) → Publication → Filter → Bool
unfolding any_mode same_mode after haystack
matches to_lower p f =
    if not (f.owner == "") && not (p.publisher_id == f.owner)
    then false
    else if not (any_mode f.access_mode) && not (same_mode p.access_mode f.access_mode)
    then false
    else if not (after f.updated_after p.updated_at)
    then false
    else if not (f.tag == "") && not (member (to_lower (trim_space f.tag)) p.tags)
    then false
    else if not (f.text == "")
    then contains (to_lower (haystack p)) (to_lower (trim_space f.text))
    else true

-- The first test of the loop of List, and of Get.
unfoldable pub may_see : Principal → Publication → Bool
may_see p row = row.publisher_id == p.user_id || visible_to row p.tenant_id

-- The item before the subscription is looked up.
unfoldable pub bare_item : Principal → Publication → ℕ → Item
bare_item p row current = record {
  publication = row;
  current_revision = current;
  subscribed = false;
  last_seen_revision = 0;
  updated = false;
  can_read = row.publisher_id == p.user_id || is_public row.access_mode;
  can_subscribe = false;
}

-- The last assignment of decorate.
unfoldable pub offering : Principal → Item → Item
offering p item = record item {
  can_subscribe = not (item.publication.publisher_id == p.user_id) && not item.subscribed;
}

-- What the subscription lookup of decorate returned.
unfoldable pub with_subscription :
    Principal → Item → Result Subscriptions.RepoErr Subscription → Result Err Item
unfolding offering
with_subscription p item (ok s) = ok (
    offering p (record item {
      subscribed = true;
      last_seen_revision = s.last_seen_revision;
      updated = ltb s.last_seen_revision item.current_revision;
      can_read = true;
    }))
with_subscription p item (err Subscriptions.RepoErr.not_found) = ok (offering p item)
with_subscription p item (err e) = err unavailable

-- The slice at the end of List.
unfoldable pub page_of : Filter → List Item → Result Err (Page Item)
page_of f items = elim (paginate items f.page f.page_size) [
  | none ↦ err panicked
  | some page ↦ ok page
]

module _ {S : Type 0} (readers : Readers S) where
  -- Service.decorate
  unfoldable pub decorate : Principal → Publication → Exec S Err Item
  decorate p row = do
    current ← wrap (λ _. unavailable) (readers.current row.knowledge_base_id)
    found ← attempt (readers.effective_for row.id p.user_id p.tenant_id)
    lift (with_subscription p (bare_item p row current) found)

  -- The loop of List.
  unfoldable pub decorate_all : Principal → Filter → List Publication → Exec S Err (List Item)
  decorate_all p f [] = pure []
  decorate_all p f (row ∷ rows) =
      let rest = decorate_all p f rows in
      if not (may_see p row)
      then rest
      else if not (matches readers.to_lower row f)
      then rest
      else do item ← decorate p row; items ← rest; pure (item ∷ items)

  -- Service.List
  unfoldable pub list : Principal → Filter → Exec S Err (Page Item)
  list p f = fail_if (not (valid_principal p) || not (valid_filter f)) invalid (do
    rows ← wrap (λ _. unavailable) readers.list_published
    items ← decorate_all p f rows
    lift (page_of f items))

  -- What the publication lookup of Get returned.
  unfoldable pub after_get : Principal → Result Publications.RepoErr Publication → Exec S Err Item
  after_get p (ok row) =
      fail_if (not (is_published row) || not (may_see p row)) not_found (decorate p row)
  after_get p (err Publications.RepoErr.not_found) = fail not_found
  after_get p (err e) = fail unavailable

  -- Service.Get
  unfoldable pub get_item : Principal → String → Exec S Err Item
  get_item p id =
      fail_if (not (valid_principal p) || is_blank id) invalid
        (do found ← attempt (readers.get id); after_get p found)

-- The repositories that cmd/gateway gives the service.
unfoldable pub repositories : Env → Readers Db
repositories env = record {
  get = Publications.get;
  list_published = Publications.list_published env.collate;
  effective_for = effective;
  current = Revisions.current;
  to_lower = env.to_lower;
}
