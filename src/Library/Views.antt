-- ===== src/Library/Views.antt =====
-- internal/library/service.go: which knowledge bases List shows.
use my_kb.Prelude.{
  ◌≡◌, refl, sym, ◌∙◌, ap, true, false, String, inl, inr, some, none, List, [], ◌∷◌, ◌++◌, map,
  member, All, Bool-cases, Option, ℕ, ◌&&◌, Option-cases,
}
use mathlib.Core.Path.{subst}
use my_kb.Result.{ok, Exec, Result-cases}
use my_kb.Paging.{Page, paginate}
use my_kb.Paging.Windows.{paginate-All}
use my_kb.Http.{Headers}
use my_kb.Authorization as Decisions
use my_kb.Authorization.{Principal, Decision, viewer_role, subscription_source}
use my_kb.Subscription.Service as Subscriptions
use my_kb.Library.{
  View, owned, shared, everything, subscribed, unknown, KnowledgeBase, Item, Readers,
  with_subscribed, left_out, decided_item, followed_item, after_decision, ids_of, merge, items_from,
  with_item, subscription_items, authorized, with_followed, listing, unpaged, list, page_of,
  refused, no_lister,
}

append-cons :
    (xs : List Subscriptions.Item) (y : Subscriptions.Item) (ys : List Subscriptions.Item)
    → (xs ++ y ∷ []) ++ ys ≡ xs ++ y ∷ ys
append-cons [] y ys = refl
append-cons (x ∷ xs) y ys = ap (λ l. x ∷ l) (append-cons xs y ys)

module _ {S : Type 0} (readers : Readers S) (p : Principal) (headers : Headers) (view : View) where
  -- The authorization decided for the entry's knowledge base has the role and the source that the
  -- entry shows, and they are those of the view.
  pub record Decided (item : Item) : Type 0 where
    pub at : S
    pub decision : Decision
    pub made : (readers.decide item.id p headers at).0 ≡ ok decision
    pub role : item.role ≡ decision.role
    pub source : item.access_source ≡ decision.source
    pub fits : left_out view decision ≡ false

  -- An entry for one of the subscriptions that the lister gives for this principal's user and
  -- workspace, in a view that has them.
  pub record Followed (item : Item) : Type 0 where
    pub lister : Subscriptions.Actor → Exec S Subscriptions.Err (List Subscriptions.Item)
    pub configured : readers.subscriptions ≡ some lister
    pub at : S
    pub listed : List Subscriptions.Item
    pub made : (lister (record { user_id = p.user_id; tenant_id = p.tenant_id }) at).0 ≡ ok listed
    pub before : List Subscriptions.Item
    pub one : Subscriptions.Item
    pub rest : List Subscriptions.Item
    pub split : listed ≡ before ++ one ∷ rest
    pub id : item.id ≡ one.publication.knowledge_base_id
    pub publication : item.publication_id ≡ one.publication.id
    pub revision : item.current_revision ≡ one.current_revision
    pub seen : item.last_seen_revision ≡ one.subscription.last_seen_revision
    pub news : item.updated ≡ one.updated
    pub role : item.role ≡ viewer_role
    pub source : item.access_source ≡ subscription_source
    pub fits : with_subscribed view ≡ true

  pub data Entitled (item : Item) : Type 0 where
    decided : Decided item → Entitled item
    followed : Followed item → Entitled item

  after_decision-some :
      (kb : KnowledgeBase) (s : S) (i : Item)
      → after_decision view kb (readers.decide kb.id p headers s).0 ≡ ok (some i)
      → Entitled i
  unfolding after_decision decided_item
  after_decision-some kb s i h = elim (Result-cases (readers.decide kb.id p headers s).0) [
    | inl (d, e) ↦ elim (Bool-cases (left_out view d)) [
      | inl out ↦ absurd (cc (rw (e, out) at h))
      | inr fits ↦
          let this : decided_item kb d ≡ i = cc (rw (e, fits) at h) in
          subst Entitled this (
            decided
              (record { at = s; decision = d; made = e; role = refl; source = refl; fits = fits }))
    ]
    | inr (Decisions.Err.not_found, e) ↦ absurd (cc (rw e at h))
    | inr (Decisions.Err.invalid, e) ↦ absurd (cc (rw e at h))
    | inr (Decisions.Err.denied, e) ↦ absurd (cc (rw e at h))
    | inr (Decisions.Err.unavailable, e) ↦ absurd (cc (rw e at h))
  ]

  authorized-Entitled :
      (kbs : List KnowledgeBase) (items : List Item) (s : S)
      → (authorized readers view p headers kbs s).0 ≡ ok items
      → All Entitled items
  unfolding authorized with_item
  authorized-Entitled [] items s h = let nothing : items ≡ [] = cc in rw nothing tt
  authorized-Entitled (kb ∷ kbs) items s h =
      let s' = (readers.decide kb.id p headers s).1 in
      elim (Result-cases (after_decision view kb (readers.decide kb.id p headers s).0)) [
        | inr (x, e) ↦ absurd (cc (rw e at h))
        | inl (o, e) ↦ elim (Result-cases (authorized readers view p headers kbs s').0) [
          | inr (x, e') ↦ absurd (cc (rw (e, e') at h))
          | inl (rest, e') ↦ elim (Option-cases o) [
            | inl skip ↦
                let this : rest ≡ items = cc (rw (e, e', skip) at h) in
                rw (← this) (authorized-Entitled kbs rest s' e')
            | inr (i, found) ↦
                let this : i ∷ rest ≡ items = cc (rw (e, e', found) at h) in
                rw (← this)
                  (after_decision-some kb s i (rw found at e), authorized-Entitled kbs rest s' e')
          ]
        ]
      ]

  module _ (has : with_subscribed view ≡ true) where
    followed-Entitled :
        (lister : Subscriptions.Actor → Exec S Subscriptions.Err (List Subscriptions.Item)) (at : S)
        (all before fs : List Subscriptions.Item)
        → readers.subscriptions ≡ some lister
        → (lister (record { user_id = p.user_id; tenant_id = p.tenant_id }) at).0 ≡ ok all
        → all ≡ before ++ fs
        → All Entitled (map followed_item fs)
    unfolding followed_item
    followed-Entitled lister at all before [] c m e = tt
    followed-Entitled lister at all before (f ∷ fs) c m e = (
      followed (record {
        lister = lister;
        configured = c;
        at = at;
        listed = all;
        made = m;
        before = before;
        one = f;
        rest = fs;
        split = e;
        id = refl;
        publication = refl;
        revision = refl;
        seen = refl;
        news = refl;
        role = refl;
        source = refl;
        fits = has;
      }),
      followed-Entitled lister at all (before ++ f ∷ []) fs c m (e ∙ sym (append-cons before f fs)),
    )

    items_from-Entitled :
        (lister : Option (Subscriptions.Actor → Exec S Subscriptions.Err (List Subscriptions.Item)))
        (items : List Item) (s : S)
        → readers.subscriptions ≡ lister
        → (items_from lister p s).0 ≡ ok items
        → All Entitled items
    unfolding items_from
    items_from-Entitled none items s c h = absurd (cc)
    items_from-Entitled (some list) items s c h =
        elim (Result-cases (list (record { user_id = p.user_id; tenant_id = p.tenant_id }) s).0) [
          | inr (x, e) ↦ absurd (cc (rw e at h))
          | inl (fs, e) ↦
              let this : map followed_item fs ≡ items = cc (rw e at h) in
              rw (← this) (followed-Entitled list s fs [] fs c e refl)
        ]

  merge-Entitled :
      (seen : List String) (items : List Item)
      → All Entitled items
      → All Entitled (merge seen items)
  unfolding merge
  merge-Entitled seen [] h = tt
  merge-Entitled seen (i ∷ is) h = elim (Bool-cases (member i.id seen)) [
    | inl e ↦ rw e (merge-Entitled seen is h.1)
    | inr e ↦ rw e (h.0, merge-Entitled (i.id ∷ seen) is h.1)
  ]

  All-append : (xs ys : List Item) → All Entitled xs → All Entitled ys → All Entitled (xs ++ ys)
  All-append [] ys h k = k
  All-append (x ∷ xs) ys h k = (h.0, All-append xs ys h.1 k)

module _ {S : Type 0} (readers : Readers S) (p : Principal) (headers : Headers) where
  after_listing-Entitled :
      (view : View) (items result : List Item) (s : S)
      → All (Entitled readers p headers view) items
      → (with_followed readers view p items s).0 ≡ ok result
      → All (Entitled readers p headers view) result
  unfolding with_followed subscription_items with_subscribed
  after_listing-Entitled everything items result s has h =
      elim (Result-cases (items_from readers.subscriptions p s).0) [
        | inr (x, e) ↦ absurd (cc (rw e at h))
        | inl (more, e) ↦
            let this : items ++ merge (ids_of items) more ≡ result = cc (rw e at h) in
            rw (← this) (
              All-append readers p headers everything items (merge (ids_of items) more) has (
                merge-Entitled readers p headers everything (ids_of items) more (
                  items_from-Entitled readers p headers everything refl readers.subscriptions more s
                    refl e)))
      ]
  after_listing-Entitled owned items result s has h =
      let same : items ≡ result = cc in rw (← same) has
  after_listing-Entitled shared items result s has h =
      let same : items ≡ result = cc in rw (← same) has
  after_listing-Entitled subscribed items result s has h =
      let same : items ≡ result = cc in rw (← same) has
  after_listing-Entitled (unknown _) items result s has h =
      let same : items ≡ result = cc in rw (← same) has

  listing-Entitled :
      (view : View) (items : List Item) (s : S)
      → (listing readers view p headers s).0 ≡ ok items
      → All (Entitled readers p headers view) items
  unfolding listing
  listing-Entitled view items s h = elim (Result-cases (readers.list_knowledge_bases headers s).0) [
    | inr (x, e) ↦ absurd (cc (rw e at h))
    | inl (kbs, e) ↦
        let s' = (readers.list_knowledge_bases headers s).1 in
        elim (Result-cases (authorized readers view p headers kbs s').0) [
          | inr (x, e') ↦ absurd (cc (rw (e, e') at h))
          | inl (found, e') ↦
              after_listing-Entitled view found items (authorized readers view p headers kbs s').1
                (authorized-Entitled readers p headers view kbs found s' e') (rw (e, e') at h)
        ]
  ]

  unpaged-Entitled :
      (view : View) (items : List Item) (s : S)
      → (unpaged readers view p headers s).0 ≡ ok items
      → All (Entitled readers p headers view) items
  unfolding unpaged subscription_items with_subscribed
  unpaged-Entitled subscribed items s h =
      items_from-Entitled readers p headers subscribed refl readers.subscriptions items s refl h
  unpaged-Entitled owned items s h = listing-Entitled owned items s h
  unpaged-Entitled shared items s h = listing-Entitled shared items s h
  unpaged-Entitled everything items s h = listing-Entitled everything items s h
  unpaged-Entitled (unknown t) items s h = listing-Entitled (unknown t) items s h

  -- Each knowledge base on a page that List returns comes from a decision of the authorization
  -- service for the user on that knowledge base, whose role and source it shows and which is of the
  -- view, or it
  -- stands for one of the subscriptions that were listed for the same user and workspace, with that
  -- subscription's knowledge base, publication and revisions and a viewer's role, and then the view
  -- is one that shows subscriptions.
  pub list-Entitled :
      (view : View) (page page_size : ℕ) (result : Page Item) (s : S)
      → (list readers view page page_size p headers s).0 ≡ ok result
      → All (Entitled readers p headers view) result.items
  unfolding list page_of
  list-Entitled view page page_size result s h = elim (Bool-cases (refused view page page_size p)) [
    | inl bad ↦ absurd (cc (rw bad at h))
    | inr good ↦ elim (Bool-cases (with_subscribed view && no_lister readers)) [
      | inl bad ↦ absurd (cc (rw (good, bad) at h))
      | inr there ↦ elim (Result-cases (unpaged readers view p headers s).0) [
        | inr (x, e) ↦ absurd (cc (rw (good, there, e) at h))
        | inl (items, e) ↦ elim (Option-cases (paginate items page page_size)) [
          | inl panic ↦ absurd (cc (rw (good, there, e, page_of, panic) at h))
          | inr (r, shown) ↦
              let this : r ≡ result = cc (rw (good, there, e, page_of, shown) at h) in
              paginate-All (Entitled readers p headers view) items page page_size result
                (rw this at shown) (unpaged-Entitled view items s e)
        ]
      ]
    ]
  ]
