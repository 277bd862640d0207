-- ===== src/Subscription/Listing.antt =====
-- internal/subscription/service.go: List.
use my_kb.Prelude.{
  ℕ, Bool, true, ◌≡◌, refl, ◌∙◌, not, String, ◌==◌, ltb, Option, none, some, List, [], ◌∷◌, All,
  arith, if◌then◌else◌, Bool-cases, inl, inr, find_row, select, order_by, eq_iff, Option-cases,
}
use mathlib.Core.Path.{subst}
use my_kb.Prelude.Orders.{All-order_by, All-select}
use my_kb.Result.{Result, ok, err, Exec, fail_if, pure, lift, attempt, wrap, ◌>>=◌, Result-cases}
use my_kb.Db.{Db, Env, failing}
use my_kb.Publication.{Publication, visible_to}
use my_kb.Publication.Repository as Publications
use my_kb.Revision.Repository as Revisions
use my_kb.Revision.Repository.{is_for}
use my_kb.Revision.{ContentRevision}
use my_kb.Subscription.{Subscription}
use my_kb.Subscription.Repository as Store
use my_kb.Subscription.Service.{
  Actor, Err, invalid, unavailable, Item, item_of, valid_actor, from_repo, follows,
}

-- What the publication lookup of the loop returned; `none` skips the subscription.
unfoldable pub listed_publication :
    Actor → Result Publications.RepoErr Publication → Result Err (Option Publication)
listed_publication actor (ok q) = if visible_to q actor.tenant_id then ok (some q) else ok none
listed_publication actor (err Publications.RepoErr.not_found) = ok none
listed_publication actor (err e) = err unavailable

-- The rest of a round, and then the rounds to come.
unfoldable pub append_item :
    Subscription → Exec Db Err (List Item) → Option Publication → Exec Db Err (List Item)
append_item s rest none = rest
append_item s rest (some q) = do
  current ← wrap (λ _. unavailable) (Revisions.current q.knowledge_base_id)
  items ← rest
  pure (item_of s q current ∷ items)

-- The loop of List.
unfoldable pub list_items : Actor → List Subscription → Exec Db Err (List Item)
list_items actor [] = pure []
list_items actor (s ∷ ss) =
    let rest = list_items actor ss in
    if not (follows s actor.tenant_id) then rest else do
      found ← attempt (Publications.get s.publication_id)
      q ← lift (listed_publication actor found)
      append_item s rest q

-- Service.List
unfoldable pub list : Env → Actor → Exec Db Err (List Item)
list env actor =
    fail_if (not (valid_actor actor)) invalid (do
      rows ← wrap from_repo (Store.list_by_user env.collate actor.user_id)
      list_items actor rows)

-- An entry of the list: an active subscription of the actor in the actor's workspace, with the
-- publication that it names, which that workspace may see, the stored revision of its knowledge
-- base, and whether that is news.
pub record Follows (actor : Actor) (publications : List Publication)
    (revisions : List ContentRevision) (item : Item) : Type 0 where
  pub own : item.subscription.subscriber_id ≡ actor.user_id
  pub live : follows item.subscription actor.tenant_id ≡ true
  pub found :
      find_row (Publications.has_id item.subscription.publication_id) publications
      ≡ some item.publication
  pub visible : visible_to item.publication actor.tenant_id ≡ true
  pub revision :
      (row : ContentRevision) × (find_row (is_for item.publication.knowledge_base_id) revisions
        ≡ some row)
      × (item.current_revision ≡ row.content_revision)
  pub news : item.updated ≡ ltb item.subscription.last_seen_revision item.current_revision

-- The tables that the loop reads are as they were.
abbrev Same : Db → Db → Type 0
Same a b = (a.publications ≡ b.publications) × (a.revisions ≡ b.revisions)

Same-trans : (a b c : Db) → Same a b → Same b c → Same a c
Same-trans a b c h k = (h.0 ∙ k.0, h.1 ∙ k.1)

get-Same : (id : String) (db : Db) → Same (Publications.get id db).1 db
unfolding Publications.get
get-Same id db = ground arith

current-Same : (id : String) (db : Db) → Same (Revisions.current id db).1 db
unfolding Revisions.current
current-Same id db = ground arith

current-stored :
    (id : String) (db : Db) (n : ℕ)
    → (Revisions.current id db).0 ≡ ok n
    → (row : ContentRevision) × (find_row (is_for id) db.revisions ≡ some row)
      × (n ≡ row.content_revision)
unfolding Revisions.current
current-stored id db n h = elim (Option-cases (find_row (is_for id) db.revisions)) [
  | inl e ↦ absurd (ground arith)
  | inr (row, e) ↦ (row, e, ground arith)
]

get-found :
    (id : String) (db : Db) (q : Publication)
    → (Publications.get id db).0 ≡ ok q
    → find_row (Publications.has_id id) db.publications ≡ some q
unfolding Publications.get
get-found id db q h = elim (Option-cases (find_row (Publications.has_id id) db.publications)) [
  | inl e ↦ absurd (ground arith)
  | inr (x, e) ↦ ground arith
]

listed_publication-some :
    (actor : Actor) (r : Result Publications.RepoErr Publication) (q : Publication)
    → listed_publication actor r ≡ ok (some q)
    → (r ≡ ok q) × (visible_to q actor.tenant_id ≡ true)
unfolding listed_publication
listed_publication-some actor (ok x) q h = ground arith
listed_publication-some actor (err Publications.RepoErr.not_found) q h = absurd (cc)
listed_publication-some actor (err _) q h = absurd (cc)

module _ (actor : Actor) where
  append_item-Follows :
      (s : Subscription) (rest : Exec Db Err (List Item)) (q : Publication) (db : Db)
      (items : List Item)
      → (append_item s rest (some q) db).0 ≡ ok items
      → (n : ℕ) × (more : List Item) × ((Revisions.current q.knowledge_base_id db).0 ≡ ok n)
        × ((rest (Revisions.current q.knowledge_base_id db).1).0 ≡ ok more)
        × (items ≡ item_of s q n ∷ more)
  unfolding append_item
  append_item-Follows s rest q db items h =
      elim (Result-cases (Revisions.current q.knowledge_base_id db).0) [
        | inr (x, e) ↦ absurd (cc (rw e at h))
        | inl (n, e) ↦ elim (Result-cases (rest (Revisions.current q.knowledge_base_id db).1).0) [
          | inr (x, e') ↦ absurd (cc (rw (e, e') at h))
          | inl (more, e') ↦ (n, more, e, e', cc (rw (e, e') at h))
        ]
      ]

  carried :
      (a b : Db) (items : List Item)
      → Same a b
      → All (Follows actor a.publications a.revisions) items
      → All (Follows actor b.publications b.revisions) items
  carried a b items same h =
      subst (λ rs. All (Follows actor b.publications rs) items) same.1
        (subst (λ ps. All (Follows actor ps a.revisions) items) same.0 h)

  list_items-Follows :
      (ss : List Subscription) (db : Db) (items : List Item)
      → All (λ (s : Subscription). s.subscriber_id ≡ actor.user_id) ss
      → (list_items actor ss db).0 ≡ ok items
      → All (Follows actor db.publications db.revisions) items
  unfolding list_items append_item item_of
  list_items-Follows [] db items own h = let nothing : items ≡ [] = cc in rw nothing tt
  list_items-Follows (s ∷ ss) db items own h = elim (Bool-cases (follows s actor.tenant_id)) [
    | inr e ↦ list_items-Follows ss db items own.1 (rw e at h)
    | inl e ↦
        let call = Publications.get s.publication_id db in
        elim (Result-cases (listed_publication actor call.0)) [
          | inr (x, e') ↦ absurd (cc (rw (e, e') at h))
          | inl (none, e') ↦
              carried call.1 db items (get-Same s.publication_id db)
                (list_items-Follows ss call.1 items own.1 (rw (e, e') at h))
          | inl (some q, e') ↦
              let (hit, seen) = listed_publication-some actor call.0 q e' in
              let next = (Revisions.current q.knowledge_base_id call.1).1 in
              let (n, more, current, later, split) =
                append_item-Follows s (list_items actor ss) q call.1 items (rw (e, e') at h) in
              let same : Same next db =
                Same-trans next call.1 db (current-Same q.knowledge_base_id call.1)
                  (get-Same s.publication_id db) in
              rw split (
                record {
                  own = own.0;
                  live = e;
                  found = get-found s.publication_id db q hit;
                  visible = seen;
                  revision =
                      rw (← (get-Same s.publication_id db).1)
                        (current-stored q.knowledge_base_id call.1 n current);
                  news = refl;
                },
                carried next db more same (list_items-Follows ss next more own.1 later),
              )
        ]
  ]

scan_all-same : (rows ss : List Subscription) → Store.scan_all rows ≡ ok ss → rows ≡ ss
unfolding Store.scan_all Store.scan_subscription
scan_all-same [] ss h = cc
scan_all-same (r ∷ rs) ss h = elim (Result-cases (Store.scan_all rs)) [
  | inr (x, e) ↦ ground arith
  | inl (xs, e) ↦ let ih = scan_all-same rs xs e in ground arith
]

abbrev by : Actor → Subscription → Bool
by actor s = s.subscriber_id == actor.user_id

list_by_user-own :
    (env : Env) (actor : Actor) (rows : List Subscription) (db : Db)
    → (Store.list_by_user env.collate actor.user_id db).0 ≡ ok rows
    → Same (Store.list_by_user env.collate actor.user_id db).1 db
      × All (λ (s : Subscription). s.subscriber_id ≡ actor.user_id) rows
unfolding Store.list_by_user
list_by_user-own env actor rows db h = elim (Bool-cases (failing db.faults)) [
  | inl e ↦ absurd (cc (rw e at h))
  | inr e ↦
      let stored = order_by (Store.before env.collate) (select (by actor) db.subscriptions) in
      let same : stored ≡ rows = scan_all-same stored rows (rw e at h) in
      (
        (rw e refl, rw e refl),
        subst (All (λ (s : Subscription). s.subscriber_id ≡ actor.user_id)) same (
            All-order_by (λ (s : Subscription). s.subscriber_id ≡ actor.user_id)
              (Store.before env.collate) (select (by actor) db.subscriptions)
              (All-select (λ (s : Subscription). s.subscriber_id ≡ actor.user_id) (by actor)
                (λ s k. (eq_iff s.subscriber_id actor.user_id).0 k) db.subscriptions)),
      )
]

-- Where List returns the subscriptions of an actor, each of them is the actor's own, active and of
-- the actor's workspace, it stands with the publication that it names, which that workspace may
-- see, its current revision is the stored one of the knowledge base, and it
-- is marked as updated exactly where that revision is past the last one seen.
pub list-Follows :
    (env : Env) (actor : Actor) (db : Db) (items : List Item)
    → (list env actor db).0 ≡ ok items
    → All (Follows actor db.publications db.revisions) items
unfolding list
list-Follows env actor db items h = elim (Bool-cases (valid_actor actor)) [
  | inr bad ↦ absurd (cc (rw bad at h))
  | inl good ↦ elim (Result-cases (Store.list_by_user env.collate actor.user_id db).0) [
    | inr (x, e) ↦ absurd (cc (rw (good, e) at h))
    | inl (rows, e) ↦
        let db' = (Store.list_by_user env.collate actor.user_id db).1 in
        let (same, own) = list_by_user-own env actor rows db e in
        carried actor db' db items same
          (list_items-Follows actor rows db' items own (rw (good, e) at h))
  ]
]
