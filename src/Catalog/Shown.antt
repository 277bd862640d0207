-- ===== src/Catalog/Shown.antt =====
-- internal/catalog/service.go: List against the publications that it should show.
use my_kb.Prelude.{
  ℕ, ◌≡◌, ◌≢◌, refl, sym, ◌∙◌, ap, Bool, true, false, ◌||◌, ◌&&◌, not, ◌==◌, ltb, All, ◌≤◌, ◌<◌,
  ◌+◌, List, [], ◌∷◌, map, length, select, arith, ◌⊎◌, Bool-cases, inl, inr,
}
use mathlib.Core.Path.{subst}
use my_kb.Result.{Result, ok, err, Result-cases}
use my_kb.Paging.{Page}
use my_kb.Paging.Windows.{window, paginate-window, map-window, length-map, All-window}
use my_kb.Authorization.{Principal, is_public}
use my_kb.Publication.{Publication}
use my_kb.Subscription.{Subscription}
use my_kb.Subscription.Repository as Subscriptions
use my_kb.Catalog.{
  Err, unavailable, panicked, Filter, Item, Readers, valid_principal, valid_filter, matches,
  may_see, bare_item, offering, with_subscription, decorate, decorate_all, page_of, list,
}

-- What an item says of its publication, given the answer of the subscription lookup: read by its
-- publisher, by everyone where it is public and by its subscribers; offered for subscription to the
-- others; subscribed where the lookup found a subscription, with the revision last seen, and updated
-- where the current revision is past that.
pub record Describes (p : Principal) (row : Publication)
    (lookup : Result Subscriptions.RepoErr Subscription) (item : Item) : Type 0 where
  pub of_row : item.publication ≡ row
  pub read :
      item.can_read
      ≡ (row.publisher_id == p.user_id || is_public row.access_mode || item.subscribed)
  pub offered : item.can_subscribe ≡ (not (row.publisher_id == p.user_id) && not item.subscribed)
  pub news : item.updated ≡ (item.subscribed && ltb item.last_seen_revision item.current_revision)
  pub following :
      ((s : Subscription) × (lookup ≡ ok s)
        × (item.subscribed ≡ true)
        × (item.last_seen_revision ≡ s.last_seen_revision))
      ⊎ ((lookup ≡ err Subscriptions.RepoErr.not_found)
          × (item.subscribed ≡ false)
          × (item.last_seen_revision ≡ 0))

with_subscription-Describes :
    (p : Principal) (row : Publication) (current : ℕ)
    (found : Result Subscriptions.RepoErr Subscription) (item : Item)
    → with_subscription p (bare_item p row current) found ≡ ok item
    → Describes p row found item × (item.current_revision ≡ current)
unfolding with_subscription offering bare_item
with_subscription-Describes p row current (ok s) item h = (
  record {
    of_row = ground arith;
    read = ground arith;
    offered = ground arith;
    news = ground arith;
    following = inl (s, refl, ground arith, ground arith);
  },
  ground arith,
)
with_subscription-Describes p row current (err Subscriptions.RepoErr.not_found) item h = (
  record {
    of_row = ground arith;
    read = ground arith;
    offered = ground arith;
    news = ground arith;
    following = inr (refl, ground arith, ground arith);
  },
  ground arith,
)
with_subscription-Describes p row current (err Subscriptions.RepoErr.invalid) item h = absurd (cc)
with_subscription-Describes p row current (err Subscriptions.RepoErr.stored_invalid) item h =
    absurd (cc)
with_subscription-Describes p row current (err Subscriptions.RepoErr.database) item h = absurd (cc)

with_subscription-error :
    (p : Principal) (item : Item) (found : Result Subscriptions.RepoErr Subscription) (x : Err)
    → with_subscription p item found ≡ err x
    → x ≡ unavailable
unfolding with_subscription
with_subscription-error p item (ok s) x h = cc
with_subscription-error p item (err Subscriptions.RepoErr.not_found) x h = cc
with_subscription-error p item (err Subscriptions.RepoErr.invalid) x h = cc
with_subscription-error p item (err Subscriptions.RepoErr.stored_invalid) x h = cc
with_subscription-error p item (err Subscriptions.RepoErr.database) x h = cc

module _ {S : Type 0} (readers : Readers S) (p : Principal) where
  -- An item's facts are what the revision reader said of its knowledge base and the subscription
  -- reader of its publication and the user, when they were asked.
  pub record Decorated (row : Publication) (item : Item) : Type 0 where
    pub at : S
    pub revision : (readers.current row.knowledge_base_id at).0 ≡ ok item.current_revision
    pub then_at : S
    pub described :
        Describes p row (readers.effective_for row.id p.user_id p.tenant_id then_at).0 item

  pub decorate-Decorated :
      (row : Publication) (item : Item) (s : S)
      → (decorate readers p row s).0 ≡ ok item
      → Decorated row item
  unfolding decorate
  decorate-Decorated row item s h =
      elim (Result-cases (readers.current row.knowledge_base_id s).0) [
        | inl (n, e) ↦
            let s' = (readers.current row.knowledge_base_id s).1 in
            let (d, same) =
              with_subscription-Describes p row n
                (readers.effective_for row.id p.user_id p.tenant_id s').0 item (rw e at h) in
            record { at = s; revision = e ∙ ap ok (sym same); then_at = s'; described = d }
        | inr (x, e) ↦ absurd (cc (rw e at h))
      ]

  -- What List should show: published rows that the user may see and that pass the filter.
  unfoldable pub shown : Filter → Publication → Bool
  shown f row = may_see p row && matches readers.to_lower row f

  abbrev pub publications_of : List Item → List Publication
  publications_of items = map (λ (i : Item). i.publication) items

  -- One round of the loop that ends well.
  decorate_all-inv :
      (f : Filter) (row : Publication) (rows : List Publication) (items : List Item) (s : S)
      → (decorate_all readers p f (row ∷ rows) s).0 ≡ ok items
      → ((shown f row ≡ false) × ((decorate_all readers p f rows s).0 ≡ ok items))
        ⊎ ((item : Item) × (rest : List Item) × (shown f row ≡ true)
            × ((decorate readers p row s).0 ≡ ok item)
            × ((decorate_all readers p f rows (decorate readers p row s).1).0 ≡ ok rest)
            × (items ≡ item ∷ rest))
  unfolding decorate_all shown
  decorate_all-inv f row rows items s h = elim (Bool-cases (shown f row)) [
    | inr e ↦ inl (e, ground arith)
    | inl e ↦ elim (Result-cases (decorate readers p row s).0) [
      | inr (x, e') ↦ absurd (ground arith)
      | inl (item, e') ↦
          elim (Result-cases (decorate_all readers p f rows (decorate readers p row s).1).0) [
            | inr (x, e'') ↦ absurd (ground arith)
            | inl (rest, e'') ↦ inr (item, rest, e, e', e'', ground arith)
          ]
    ]
  ]

  decorate_all-shown :
      (f : Filter) (rows : List Publication) (items : List Item) (s : S)
      → (decorate_all readers p f rows s).0 ≡ ok items
      → publications_of items ≡ select (shown f) rows
  decorate_all-shown f [] items s h = unfold decorate_all in ground arith
  decorate_all-shown f (row ∷ rows) items s h = elim (decorate_all-inv f row rows items s h) [
    | inl (e, rest) ↦ rw e (decorate_all-shown f rows items s rest)
    | inr (item, rest, e, one, more, eq) ↦
        let s' = (decorate readers p row s).1 in
        rw (e, eq, (decorate-Decorated row item s one).described.of_row)
          (ap (λ l. row ∷ l) (decorate_all-shown f rows rest s' more))
  ]

  abbrev pub AllDescribed : List Item → Type 0
  AllDescribed items = All (λ (i : Item). Decorated i.publication i) items

  Decorated-own :
      (row : Publication) (item : Item) → Decorated row item → Decorated item.publication item
  Decorated-own row item d = subst (λ r. Decorated r item) (sym d.described.of_row) d

  decorate_all-Decorated :
      (f : Filter) (rows : List Publication) (items : List Item) (s : S)
      → (decorate_all readers p f rows s).0 ≡ ok items
      → AllDescribed items
  decorate_all-Decorated f [] [] s h = tt
  decorate_all-Decorated f [] (i ∷ is) s h = unfold decorate_all in absurd (cc)
  decorate_all-Decorated f (row ∷ rows) items s h = elim (decorate_all-inv f row rows items s h) [
    | inl (e, rest) ↦ decorate_all-Decorated f rows items s rest
    | inr (item, rest, e, one, more, eq) ↦
        let s' = (decorate readers p row s).1 in
        rw eq (
          Decorated-own row item (decorate-Decorated row item s one),
          decorate_all-Decorated f rows rest s' more,
        )
  ]

length-select-le :
    (q : Publication → Bool) (rows : List Publication) → length (select q rows) ≤ length rows
length-select-le q [] = omega arith
length-select-le q (r ∷ rs) = ground (arith, length-select-le q rs)

abbrev page_shown : Filter → List Item → Page Item
page_shown f items = record {
  items = window items f.page f.page_size;
  total = length items;
  page = f.page;
  page_size = f.page_size;
}

page_of-window :
    (f : Filter) (items : List Item)
    → valid_filter f ≡ true
    → length items + 100 < 9223372036854775808
    → page_of f items ≡ ok (page_shown f items)
unfolding page_of valid_filter
page_of-window f items v bound =
    rw
      (
        page_of,
        paginate-window items f.page f.page_size (ground arith) (ground arith) (ground arith)
            (ground arith) bound,
      )
      refl

module _ {S : Type 0} (readers : Readers S) (p : Principal) where
  decorated_count :
      (f : Filter) (rows : List Publication) (items : List Item) (s : S)
      → (decorate_all readers p f rows s).0 ≡ ok items
      → length items ≡ length (select (shown readers p f) rows)
  decorated_count f rows items s e =
      sym (length-map (λ (i : Item). i.publication) items)
      ∙ ap length (decorate_all-shown readers p f rows items s e)

  -- When ListPublished gives `rows` and List returns a page, the page's publications are the window
  -- of the rows that the user may see and that match the filter, in the order of the rows, the
  -- total is the number of those rows, and each item's revision is what the revision reader said of
  -- its knowledge base, it is marked as subscribed, with the revision last seen, exactly where the
  -- subscription reader found a subscription of the user to its publication, and it says whether the
  -- user may read it, may subscribe and has news accordingly. Assumes fewer than 2 ^ 63 - 100 rows.
  pub list-shown :
      (f : Filter) (rows : List Publication) (s : S)
      → (readers.list_published s).0 ≡ ok rows
      → length rows + 100 < 9223372036854775808
      → (page : Page Item) → (list readers p f s).0 ≡ ok page
      → (publications_of readers p page.items
          ≡ window (select (shown readers p f) rows) f.page f.page_size)
        × (page.total ≡ length (select (shown readers p f) rows))
        × AllDescribed readers p page.items
  unfolding list
  list-shown f rows s read bound page h =
      let s' = (readers.list_published s).1 in
      elim (Bool-cases (not (valid_principal p) || not (valid_filter f))) [
        | inl bad ↦ absurd (cc (rw bad at h))
        | inr good ↦ elim (Result-cases (decorate_all readers p f rows s').0) [
          | inr (x, e) ↦ absurd (cc (rw (good, read, e) at h))
          | inl (items, e) ↦
              let same = decorate_all-shown readers p f rows items s' e in
              let count = decorated_count f rows items s' e in
              let shorter = length-select-le (shown readers p f) rows in
              let paged = page_of-window f items (ground arith) (omega arith) in
              let this : page_shown f items ≡ page = cc (rw (good, read, e, paged) at h) in
              rw (← this) (
                map-window (λ (i : Item). i.publication) items f.page f.page_size
                    ∙ ap (λ l. window l f.page f.page_size) same,
                count,
                All-window (λ (i : Item). Decorated readers p i.publication i) items f.page
                    f.page_size (decorate_all-Decorated readers p f rows items s' e),
              )
        ]
      ]

  decorate-error :
      (row : Publication) (x : Err) (s : S) → (decorate readers p row s).0 ≡ err x → x ≡ unavailable
  unfolding decorate
  decorate-error row x s h = elim (Result-cases (readers.current row.knowledge_base_id s).0) [
    | inr (y, e) ↦ cc (rw e at h)
    | inl (n, e) ↦
        let s' = (readers.current row.knowledge_base_id s).1 in
        with_subscription-error p (bare_item p row n)
          (readers.effective_for row.id p.user_id p.tenant_id s').0 x (rw e at h)
  ]

  decorate_all-error :
      (f : Filter) (rows : List Publication) (x : Err) (s : S)
      → (decorate_all readers p f rows s).0 ≡ err x
      → x ≡ unavailable
  unfolding decorate_all
  decorate_all-error f [] x s h = cc
  decorate_all-error f (row ∷ rows) x s h =
      elim (Bool-cases (may_see p row && matches readers.to_lower row f)) [
        | inr e ↦ decorate_all-error f rows x s (ground arith)
        | inl e ↦ elim (Result-cases (decorate readers p row s).0) [
          | inr (y, e') ↦ let there = decorate-error row y s e' in ground arith
          | inl (item, e') ↦
              let s' = (decorate readers p row s).1 in
              elim (Result-cases (decorate_all readers p f rows s').0) [
                | inr (y, e'') ↦ let there = decorate_all-error f rows y s' e'' in ground arith
                | inl (rest, e'') ↦ absurd (ground arith)
              ]
        ]
      ]

  -- When ListPublished gives fewer than 2 ^ 63 - 100 rows, List does not panic, whatever the page
  -- and the page size of the filter.
  pub list-ne-panicked :
      (f : Filter) (rows : List Publication) (s : S)
      → (readers.list_published s).0 ≡ ok rows
      → length rows + 100 < 9223372036854775808
      → (list readers p f s).0 ≢ err panicked
  unfolding list
  list-ne-panicked f rows s read bound h =
      let s' = (readers.list_published s).1 in
      elim (Bool-cases (not (valid_principal p) || not (valid_filter f))) [
        | inl bad ↦ cc (rw bad at h)
        | inr good ↦ elim (Result-cases (decorate_all readers p f rows s').0) [
          | inr (x, e) ↦
              let known = decorate_all-error f rows x s' e in cc (rw (good, read, e) at h)
          | inl (items, e) ↦
              let count = decorated_count f rows items s' e in
              let shorter = length-select-le (shown readers p f) rows in
              let paged = page_of-window f items (ground arith) (omega arith) in
              cc (rw (good, read, e, paged) at h)
        ]
      ]
