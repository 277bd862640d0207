-- ===== src/Subscription/Effect.antt =====
-- internal/subscription/service.go: the paths of Subscribe, and the lookup Effective after it.
use my_kb.Prelude.{
  ℕ, ◌≡◌, ◌≤◌, ◌⊎◌, refl, eq_iff, true, false, ◌||◌, not, String, ◌==◌, ◌=ℕ=◌, arith, Option, none,
  some, inl, inr, find_row, Bool-cases,
}
use my_kb.Result.{Result, ok, err, Result-cases}
use my_kb.Text.{is_blank}
use my_kb.Db.{Db, Env, failing}
use my_kb.Db.Times.{column_times}
use my_kb.Frames.{SameRows-record_event}
use my_kb.Publication.{Publication, is_published, visible_to}
use my_kb.Publication.Repository as Publications
use my_kb.Revision.Repository as Revisions
use my_kb.Subscription.{Subscription, is_active}
use my_kb.Subscription.Repository as Store
use my_kb.Subscription.Repository.{RepoErr, is_by}
use my_kb.Subscription.Following.{
  IsUnique, Row, Kept, Row-Kept, get-Row, get-not_found, get-keeps, create-Kept, activate-Row,
}
use my_kb.Subscription.Service.{
  Err, Actor, SubscribeResult, item_of, follows, record_audit, new_subscription, after_invalid,
  after_write, create_row, after_lookup, subscribe_to, subscribe, effective, valid_actor,
  valid_correlation,
}

-- The subscription of the result is active in the follower's workspace, and it is the follower's
-- row, or the row is what the columns keep of it.
pub record Joined (publication_id : String) (actor : Actor) (r : SubscribeResult) (db : Db)
    : Type 0 where
  pub stored : Kept publication_id actor.user_id r.item.subscription db.subscriptions
  pub live : follows r.item.subscription actor.tenant_id ≡ true

audit-keeps :
    (env : Env) (q : Publication) (actor : Actor) (action : String) (old : Option Subscription)
    (s : Subscription) (c : String) (db : Db)
    → (record_audit env q actor action old s c db).1.subscriptions ≡ db.subscriptions
unfolding record_audit
audit-keeps env q actor action old s c db = grind (arith, SameRows-record_event)

module _ (env : Env) (publication_id : String) (actor : Actor) (c : String) (q : Publication)
    (n : ℕ) (past : 1000 ≤ env.now) where
  after_invalid-Joined :
      (e : Err) (found : Result RepoErr Subscription) (db : Db) (r : SubscribeResult)
      → ((s : Subscription) → found ≡ ok s → Row publication_id actor.user_id s db.subscriptions)
      → (after_invalid actor q n e found db).0 ≡ ok r
      → Joined publication_id actor r (after_invalid actor q n e found db).1
  unfolding after_invalid item_of
  after_invalid-Joined e (ok w) db r rows h = elim (Bool-cases (follows w actor.tenant_id)) [
    | inr f ↦ absurd (ground arith)
    | inl f ↦
        let same : r.item.subscription ≡ w = ground arith in
        rw f (record {
          stored = rw same (Row-Kept publication_id actor.user_id w db.subscriptions (rows w refl));
          live = rw same f;
        })
  ]
  after_invalid-Joined e (err x) db r rows h = absurd (ground arith)

  reread-Joined :
      (e : Err) (db : Db) (r : SubscribeResult)
      → (after_invalid actor q n e
          (Store.get_by_publication_user publication_id actor.user_id db).0
          (Store.get_by_publication_user publication_id actor.user_id db).1).0
        ≡ ok r
      → Joined publication_id actor r
          (after_invalid actor q n e
            (Store.get_by_publication_user publication_id actor.user_id db).0
            (Store.get_by_publication_user publication_id actor.user_id db).1).1
  reread-Joined e db r h =
      after_invalid-Joined e (Store.get_by_publication_user publication_id actor.user_id db).0
        (Store.get_by_publication_user publication_id actor.user_id db).1 r
        (λ s k. get-Row publication_id actor.user_id db s k) h

  after_write-Joined :
      (old : Option Subscription) (written : Result RepoErr Subscription) (db : Db)
      (r : SubscribeResult)
      → ((s : Subscription)
          → written ≡ ok s
          → Kept publication_id actor.user_id s db.subscriptions
            × (follows s actor.tenant_id ≡ true))
      → (after_write env publication_id actor c q n old written db).0 ≡ ok r
      → Joined publication_id actor r (after_write env publication_id actor c q n old written db).1
  unfolding after_write item_of
  after_write-Joined old (ok s) db r rows h =
      let (row, live) = rows s refl in
      let audited = record_audit env q actor "subscription.created" old s c db in
      let kept = audit-keeps env q actor "subscription.created" old s c db in
      elim (Result-cases audited.0) [
        | inr (x, e) ↦ absurd (ground arith)
        | inl (x, e) ↦
            let same : r.item.subscription ≡ s = ground arith in
            rw e (record { stored = rw (same, kept) row; live = rw same live })
      ]
  after_write-Joined old (err RepoErr.invalid) db r rows h = reread-Joined Err.invalid db r h
  after_write-Joined old (err RepoErr.stored_invalid) db r rows h =
      reread-Joined Err.stored_invalid db r h
  after_write-Joined old (err RepoErr.not_found) db r rows h = absurd (ground arith)
  after_write-Joined old (err RepoErr.database) db r rows h = absurd (ground arith)

  create_row-Joined :
      (id : Option String) (db : Db) (r : SubscribeResult)
      → find_row (is_by publication_id actor.user_id) db.subscriptions ≡ none
      → (create_row env publication_id actor c q n id db).0 ≡ ok r
      → Joined publication_id actor r (create_row env publication_id actor c q n id db).1
  unfolding create_row new_subscription follows is_active
  create_row-Joined none db r nobody h = absurd (ground arith)
  create_row-Joined (some id) db r nobody h =
      let row = new_subscription env id publication_id actor n c in
      after_write-Joined none (Store.create row db).0 (Store.create row db).1 r
        (λ s k.
          let (same, stored) = create-Kept row db s nobody past refl k in
          rw same (stored, ground arith))
        h

  after_lookup-Joined :
      (found : Result RepoErr Subscription) (db : Db) (r : SubscribeResult)
      → IsUnique db.subscriptions
      → ((s : Subscription) → found ≡ ok s → Row publication_id actor.user_id s db.subscriptions)
      → (found ≡ err RepoErr.not_found
          → find_row (is_by publication_id actor.user_id) db.subscriptions ≡ none)
      → (after_lookup env publication_id actor c q n found db).0 ≡ ok r
      → Joined publication_id actor r (after_lookup env publication_id actor c q n found db).1
  unfolding after_lookup item_of
  after_lookup-Joined (ok x) db r unique rows nobody h =
      let written = Store.activate x.id actor.tenant_id n c env.now db in
      elim (Bool-cases (follows x actor.tenant_id)) [
        | inl f ↦
            let same : r.item.subscription ≡ x = ground arith in
            rw f (record {
              stored =
                  rw same (Row-Kept publication_id actor.user_id x db.subscriptions (rows x refl));
              live = rw same f;
            })
        | inr f ↦ rw f (
            after_write-Joined (some x) written.0 written.1 r
              (λ s k.
                let (row, live) =
                  activate-Row publication_id actor.user_id c actor.tenant_id n env.now db x s
                    unique (rows x refl).found k in
                (Row-Kept publication_id actor.user_id s written.1.subscriptions row, live))
              (rw f at h))
      ]
  after_lookup-Joined (err RepoErr.not_found) db r unique rows nobody h =
      create_row-Joined env.new_id db r (nobody refl) h
  after_lookup-Joined (err RepoErr.stored_invalid) db r unique rows nobody h =
      reread-Joined Err.stored_invalid db r h
  after_lookup-Joined (err RepoErr.invalid) db r unique rows nobody h = absurd (ground arith)
  after_lookup-Joined (err RepoErr.database) db r unique rows nobody h = absurd (ground arith)

current-keeps :
    (kb_id : String) (db : Db) → (Revisions.current kb_id db).1.subscriptions ≡ db.subscriptions
unfolding Revisions.current
current-keeps kb_id db = ground arith

publication-keeps :
    (id : String) (db : Db) → (Publications.get id db).1.subscriptions ≡ db.subscriptions
unfolding Publications.get
publication-keeps id db = ground arith

-- What Subscribe requires of the publication, and what it then leaves.
pub record Subscribed (publication_id : String) (actor : Actor) (r : SubscribeResult)
    (q : Publication) (db : Db) : Type 0 where
  pub joined : Joined publication_id actor r db
  pub in_force : is_published q ≡ true
  pub visible : visible_to q actor.tenant_id ≡ true
  pub another : (q.publisher_id == actor.user_id) ≡ false

subscribe_to-Subscribed :
    (env : Env) (publication_id : String) (actor : Actor) (c : String) (q : Publication) (db : Db)
    (r : SubscribeResult)
    → 1000 ≤ env.now
    → IsUnique db.subscriptions
    → (subscribe_to env publication_id actor c q db).0 ≡ ok r
    → Subscribed publication_id actor r q (subscribe_to env publication_id actor c q db).1
unfolding subscribe_to
subscribe_to-Subscribed env publication_id actor c q db r past unique h =
    elim (Bool-cases (is_published q)) [
      | inr e ↦ absurd (ground arith)
      | inl e ↦ elim (Bool-cases (q.publisher_id == actor.user_id)) [
        | inl f ↦ absurd (ground arith)
        | inr f ↦ elim (Bool-cases (visible_to q actor.tenant_id)) [
          | inr g ↦ absurd (ground arith)
          | inl g ↦
              let read = Revisions.current q.knowledge_base_id db in
              let kept = current-keeps q.knowledge_base_id db in
              elim (Result-cases read.0) [
                | inr (x, k) ↦ absurd (ground arith)
                | inl (n, k) ↦
                    let found = Store.get_by_publication_user publication_id actor.user_id read.1 in
                    let same = get-keeps publication_id actor.user_id read.1 in
                    rw (e, f, g, k)
                      (record {
                        joined =
                            after_lookup-Joined env publication_id actor c q n past found.0 found.1
                              r (rw (same, kept) unique)
                              (λ s w. get-Row publication_id actor.user_id read.1 s w)
                              (λ w. get-not_found publication_id actor.user_id read.1 w)
                              (rw (e, f, g, k) at h);
                        in_force = e;
                        visible = g;
                        another = f;
                      })
              ]
        ]
      ]
    ]

-- From a table without duplicates: Service.Subscribe succeeds only for a publication that is
-- published, visible in the follower's workspace and another user's. The subscription that it
-- returns is then active in that workspace, and the follower's row is that subscription, or what the
-- columns keep of it, whose times are whole microseconds; the row validates when it is read. It is
-- the row that was there, a row reactivated or a new one. Assumes that the clock is past the first
-- microsecond of Go's times.
pub subscribe-Subscribed :
    (env : Env) (publication_id : String) (actor : Actor) (c : String) (db : Db)
    {r : SubscribeResult}
    → 1000 ≤ env.now
    → IsUnique db.subscriptions
    → (subscribe env publication_id actor c db).0 ≡ ok r
    → (q : Publication) × ((Publications.get publication_id db).0 ≡ ok q)
      × Subscribed publication_id actor r q (subscribe env publication_id actor c db).1
unfolding subscribe
subscribe-Subscribed env publication_id actor c db {r} past unique h =
    elim (Bool-cases
      (not (valid_actor actor) || not (valid_correlation c) || is_blank publication_id)) [
        | inl b ↦ absurd (ground arith)
        | inr b ↦
            let found = Publications.get publication_id db in
            let kept = publication-keeps publication_id db in
            elim (Result-cases found.0) [
              | inr (x, e) ↦ absurd (ground arith)
              | inl (q, e) ↦ (
                q,
                e,
                rw (b, e)
                    (subscribe_to-Subscribed env publication_id actor c q found.1 r past
                      (rw kept unique) (rw (b, e) at h)),
              )
            ]
      ]

kept-follows :
    (s row : Subscription) (t : ℕ)
    → (row ≡ s) ⊎ (row ≡ Store.as_stored s)
    → follows s t ≡ true
    → follows row t ≡ true
unfolding follows is_active Store.as_stored column_times
kept-follows s row t (inl same) h = rw same h
kept-follows s row t (inr same) h = rw same (ground arith)

effective-found :
    (publication_id : String) (actor : Actor) (db : Db) (r : SubscribeResult)
    → (j : Joined publication_id actor r db) → failing db.faults ≡ false
    → (publication_id == "" || actor.user_id == "" || actor.tenant_id =ℕ= 0) ≡ false
    → (effective publication_id actor.user_id actor.tenant_id db).0 ≡ ok j.stored.row
unfolding effective Store.get_by_publication_user
effective-found publication_id actor db r j f named = ground (
  arith,
  j.stored.there.found,
  j.stored.there.valid,
  kept-follows r.item.subscription j.stored.row actor.tenant_id j.stored.kept j.live,
)

not_blank : (s : String) → is_blank s ≡ false → (s == "") ≡ false
unfolding is_blank
not_blank s h = elim (Bool-cases (s == "")) [
  | inl e ↦ let empty : s ≡ "" = ground (arith, eq_iff s "") in absurd (cc (rw empty at h))
  | inr e ↦ e
]

subscribe-named :
    (env : Env) (publication_id : String) (actor : Actor) (c : String) (db : Db)
    (r : SubscribeResult)
    → (subscribe env publication_id actor c db).0 ≡ ok r
    → (publication_id == "" || actor.user_id == "" || actor.tenant_id =ℕ= 0) ≡ false
unfolding subscribe valid_actor
subscribe-named env publication_id actor c db r h =
    elim (Bool-cases
      (not (valid_actor actor) || not (valid_correlation c) || is_blank publication_id)) [
        | inl b ↦ absurd (ground arith)
        | inr b ↦ ground (arith, not_blank publication_id, not_blank actor.user_id)
      ]

-- From a table without duplicates: when Service.Subscribe succeeds, the lookup that authorization
-- makes, if its statement does not fail, finds a subscription, and it is the one that was returned
-- or what the columns keep of it. Assumes that the clock is past the first microsecond of Go's times.
pub subscribe-effective :
    (env : Env) (publication_id : String) (actor : Actor) (c : String) (db : Db)
    {r : SubscribeResult}
    → 1000 ≤ env.now
    → IsUnique db.subscriptions
    → (subscribe env publication_id actor c db).0 ≡ ok r
    → failing (subscribe env publication_id actor c db).1.faults ≡ false
    → (row : Subscription) × ((effective publication_id actor.user_id actor.tenant_id
          (subscribe env publication_id actor c db).1).0
        ≡ ok row)
      × ((row ≡ r.item.subscription) ⊎ (row ≡ Store.as_stored r.item.subscription))
subscribe-effective env publication_id actor c db {r} past unique h f =
    let (q, found, s) = subscribe-Subscribed env publication_id actor c db past unique h in
    (
      s.joined.stored.row,
      effective-found publication_id actor (subscribe env publication_id actor c db).1 r s.joined f
          (subscribe-named env publication_id actor c db r h),
      s.joined.stored.kept,
    )
