-- ===== src/Scenarios/Browsing.antt =====
-- Browsing: what bob finds in the catalog and in his library, and what his agent may use.
use my_kb.Prelude.{
  ℕ, ◌≡◌, ◌≢◌, refl, true, false, String, map, some, none, List, [], ◌∷◌, All, length, select, take,
  arith,
}
use my_kb.Prelude.Rows.{PairwiseNot}
use my_kb.Result.{ok, err, pure, fail}
use my_kb.Text.{is_blank, trim_space, first_of_each}
use my_kb.Db.{Db, Env}
use my_kb.Paging.{Page, paginate}
use my_kb.Paging.Windows.{window, read_pages, paginate-window, read_pages-take}
use my_kb.Profile.{rag}
use my_kb.Authorization.{
  Principal, Decision, Role, owner_role, owner_source, viewer_role, subscription_source,
}
use my_kb.Authorization as Decisions
use my_kb.Publication as Publications
use my_kb.Publication.{Publication, is_published, visible_to, other}
use my_kb.Subscription
use my_kb.Revision
use my_kb.Subscription.Repository as Subscriptions
use my_kb.Subscription.Service as Following
use my_kb.Subscription.Listing.{list, Follows, list-Follows}
use my_kb.Catalog as Catalog
use my_kb.Catalog.{Filter}
use my_kb.Catalog.Shown.{publications_of, shown, AllDescribed, list-shown, list-ne-panicked}
use my_kb.Library as Library
use my_kb.Library.{KnowledgeBase, everything}
use my_kb.Library.Views.{Entitled, list-Entitled}
use my_kb.Library.Distinct.{same_item, unpaged-distinct}
use my_kb.AgentScope as AgentScope
use my_kb.AgentScope.Exact.{Authorized, Normal, explicit-Authorized}
use my_kb.Scenarios.{headers, request}
use my_kb.Scenarios.Publishing.{notes, follow, public_db}

abbrev letters : List ℕ
letters = 1 ∷ 2 ∷ 3 ∷ []

paginate-window_example :
    paginate letters 2 2
    ≡ some (record { items = window letters 2 2; total = 3; page = 2; page_size = 2 })
paginate-window_example =
    paginate-window letters 2 2 (omega arith) (omega arith) (omega arith) (omega arith)
      (omega arith)

read_pages-take_example : read_pages letters 2 2 ≡ some (take 4 letters)
read_pages-take_example =
    read_pages-take letters 2 2 (omega arith) (omega arith) (omega arith) (omega arith)

-- Page 0, page -1 and a page size of 0 panic.
page_0_panics : paginate letters 0 2 ≡ none
unfolding paginate
page_0_panics = refl

negative_page_panics : paginate letters 18446744073709551615 2 ≡ none
unfolding paginate
negative_page_panics = refl

page_size_0_panics : paginate letters 1 0 ≡ none
unfolding paginate
page_size_0_panics = refl

abbrev bob : Principal
bob = record { user_id = "bob"; tenant_id = 8 }

abbrev catalog : Catalog.Readers (Unit {0})
catalog = record {
  get = λ id. pure notes;
  list_published = pure (notes ∷ []);
  effective_for = λ id user tenant. fail Subscriptions.RepoErr.not_found;
  current = λ id. pure 3;
  to_lower = λ s. s;
}

abbrev first_page : Filter
first_page = record {
  text = "";
  tag = "";
  owner = "alice";
  access_mode = other "";
  updated_after = none;
  page = 1;
  page_size = 20;
}

abbrev bob_page : Page Catalog.Item
bob_page = record {
  items =
      (record {
        publication = notes;
        current_revision = 3;
        subscribed = false;
        last_seen_revision = 0;
        updated = false;
        can_read = false;
        can_subscribe = true;
      })
      ∷ [];
  total = 1;
  page = 1;
  page_size = 20;
}

bob_finds : (Catalog.list catalog bob first_page tt).0 ≡ ok bob_page
unfolding Catalog.list Catalog.valid_principal is_blank Catalog.valid_filter Catalog.decorate_all
    Catalog.may_see visible_to is_published Publications.allows Publications.valid_audience
    Catalog.matches Catalog.decorate Catalog.with_subscription Catalog.page_of paginate
    Catalog.bare_item Decisions.is_public
bob_finds = refl

list-shown_example :
    (publications_of catalog bob bob_page.items
      ≡ window (select (shown catalog bob first_page) (notes ∷ [])) 1 20)
    × (1 ≡ length (select (shown catalog bob first_page) (notes ∷ [])))
    × AllDescribed catalog bob bob_page.items
list-shown_example =
    list-shown catalog bob first_page (notes ∷ []) tt refl (omega arith) bob_page bob_finds

list-ne-panicked_example : (Catalog.list catalog bob first_page tt).0 ≢ err Catalog.Err.panicked
list-ne-panicked_example =
    list-ne-panicked catalog bob first_page (notes ∷ []) tt refl (omega arith)

abbrev follower : Following.Actor
follower = record { user_id = "bob"; tenant_id = 8 }

abbrev env : Env
env = request 300 "s2" "a2"

abbrev feed : List Following.Item
feed =
    (record { subscription = follow; publication = notes; current_revision = 4; updated = true })
    ∷ []

abbrev followed_db : Db
followed_db = record public_db {
  revisions = (record { knowledge_base_id = "kb"; content_revision = 4; updated_at = 250 }) ∷ [];
}

bob_follows : (list env follower followed_db).0 ≡ ok feed
unfolding list Following.valid_actor is_blank Subscriptions.list_by_user Subscription.is_valid
    Subscription.Listing.list_items Following.follows Subscription.is_active
    Subscription.Listing.listed_publication Publications.Repository.get Publications.is_valid
    Publications.bad_fields Publications.valid_audience Publications.valid_access_mode
    Publications.valid_tags visible_to is_published Publications.allows
    Subscription.Listing.append_item Revision.Repository.current Following.item_of
bob_follows = refl

list-Follows_example : All (Follows follower followed_db.publications followed_db.revisions) feed
list-Follows_example = list-Follows env follower followed_db feed bob_follows

abbrev plans : KnowledgeBase
plans = record {
  id = "k2";
  name = "Plans";
  description = "";
  kind = "document";
  creator_id = "bob";
}

abbrev owned_by_bob : Decision
owned_by_bob = record {
  knowledge_base_id = "k2";
  role = owner_role;
  source = owner_source;
  source_tenant_id = 8;
  grant_id = "";
  grant_revision = 0;
  publication_id = "";
  subscription_id = "";
  product_mode = rag;
}

abbrev library : Library.Readers (Unit {0})
library = record {
  list_knowledge_bases = λ h. pure (plans ∷ []);
  decide = λ id p h. pure owned_by_bob;
  subscriptions = some (λ actor. pure feed);
}

abbrev bob_items : List Library.Item
bob_items =
    (record {
      id = "k2";
      name = "Plans";
      description = "";
      kind = "document";
      creator_id = "bob";
      role = owner_role;
      product_mode = rag;
      access_source = owner_source;
      publication_id = "";
      current_revision = 0;
      last_seen_revision = 0;
      updated = false;
    })
    ∷ (record {
      id = "kb";
      name = "Notes";
      description = "";
      kind = "";
      creator_id = "alice";
      role = viewer_role;
      product_mode = rag;
      access_source = subscription_source;
      publication_id = "p1";
      current_revision = 4;
      last_seen_revision = 1;
      updated = true;
    })
    ∷ []

abbrev bob_library : Page Library.Item
bob_library = record { items = bob_items; total = 2; page = 1; page_size = 20 }

bob_lists : (Library.list library everything 1 20 bob headers tt).0 ≡ ok bob_library
unfolding Library.list Library.refused Library.known_view is_blank Library.with_subscribed
    Library.no_lister Library.unpaged Library.page_of paginate Library.listing Library.authorized
    Library.after_decision Library.with_followed Library.subscription_items Library.items_from
    Library.with_item Library.decided_item Library.merge Library.ids_of Library.followed_item
bob_lists = refl

list-Entitled_example : All (Entitled library bob headers everything) bob_items
list-Entitled_example = list-Entitled library bob headers everything 1 20 bob_library tt bob_lists

bob_has : (Library.unpaged library everything bob headers tt).0 ≡ ok bob_items
unfolding Library.unpaged Library.listing Library.authorized Library.after_decision
    Library.with_followed Library.subscription_items Library.items_from Library.with_item
    Library.decided_item Library.merge Library.ids_of Library.followed_item
bob_has = refl

unpaged-distinct_example : PairwiseNot same_item bob_items
unpaged-distinct_example =
    unpaged-distinct library bob headers (plans ∷ []) bob_items tt refl (refl, tt) bob_has

abbrev agents : AgentScope.Readers (Unit {0})
agents = record {
  list = λ view page size p h. fail Library.Err.unavailable;
  authorize = λ id p action h. pure (record owned_by_bob { knowledge_base_id = id });
}

abbrev asked : List String
asked = " k2" ∷ "k1" ∷ "k2" ∷ []

abbrev entry : String → AgentScope.Entry
entry id = record {
  knowledge_base_id = id;
  role = owner_role;
  access_source = owner_source;
  product_mode = rag;
}

abbrev granted : AgentScope.Scope
granted = record {
  selection = AgentScope.Selection.explicit;
  knowledge_base_ids = "k1" ∷ "k2" ∷ [];
  entries = entry "k1" ∷ entry "k2" ∷ [];
}

bob_agent : (AgentScope.resolve_explicit agents bob headers asked tt).0 ≡ ok granted
unfolding AgentScope.resolve_explicit AgentScope.normalize_ids AgentScope.trimmed trim_space
    AgentScope.authorize_all first_of_each AgentScope.after_authorize AgentScope.scope_of
    AgentScope.before
bob_agent = refl

explicit-Authorized_example :
    All (Authorized agents bob headers) granted.entries
    × (map (λ (e : AgentScope.Entry). e.knowledge_base_id) granted.entries ≡ "k1" ∷ "k2" ∷ [])
    × Normal asked ("k1" ∷ "k2" ∷ [])
explicit-Authorized_example = explicit-Authorized agents bob headers asked granted tt bob_agent
