-- ===== src/Publication/Withdrawal.antt =====
-- internal/publication/service.go: what Unpublish ends.
use my_kb.Prelude.{
  ℕ, ◌≡◌, refl, Bool, true, false, ◌||◌, not, ltb, String, ◌=ℕ=◌, arith, eq_iff, none, some, inl,
  inr, find_row, any, update_where, if◌then◌else◌, Bool-cases, Option-cases, sym, ◌∙◌,
}
use my_kb.Prelude.Rows.{
  find_row-holds, find_row-none, find_row-narrow, found_same, any-update_where_only,
  any-update_where_killed,
}
use my_kb.Result.{ok, Result-cases}
use my_kb.Http.{Headers}
use my_kb.Db.{Db, Env}
use my_kb.Frames.{SameRows, SameRows-trans, SameRows-refl}
use my_kb.Ownership.{Ownership}
use my_kb.Subscription.Repository.{inactivate_publication, is_live_of, ended}
use my_kb.Subscription.{Subscription, inactive}
use my_kb.Publication.{Publication, published, is_published, is_valid}
use my_kb.Publication.Repository as Store
use my_kb.Publication.Repository.{
  RepoErr, get_by_kb, is_of, is_published_of, is_published_version, withdrawn, collides, has_status,
}
use my_kb.Publication.Frames.{
  SameRows-require_owner, SameRows-record_audit, SameRows-get_by_kb, get_by_kb-ok,
}
use my_kb.Publication.Uniqueness.{IsUnique, collides_sym, same_kb-collides, same_id-collides}
use my_kb.Publication.Service.{
  Actor, require_owner, report_withdrawal, withdraw_row, unpublish_existing, unpublish,
  not_publisher, valid_correlation,
}

published_of-is_of :
    (kb_id : String) (a : Publication) → is_published_of kb_id a ≡ true → is_of kb_id a ≡ true
unfolding is_published_of
published_of-is_of kb_id a h = ground arith

-- A valid publication that is not published has another status.
not_published-status :
    (p : Publication) → is_valid p ≡ true → is_published p ≡ false → has_status published p ≡ false
unfolding is_valid is_published has_status
not_published-status p v n = ground arith

version-id :
    (id : String) (n : ℕ) (a : Publication) → is_published_version id n a ≡ true → a.id ≡ id
unfolding is_published_version
version-id id n a h = ground (arith, eq_iff a.id id)

withdrawn-off :
    (p : Publication → Bool) (kb_id c : String) (at : ℕ) (a : Publication)
    → is_published_of kb_id (if p a then withdrawn at c a else a) ≡ true
    → is_published_of kb_id a ≡ true
unfolding is_published_of withdrawn
withdrawn-off p kb_id c at a h = ground arith

withdrawn-not_published :
    (kb_id c : String) (at : ℕ) (a : Publication) → is_published_of kb_id (withdrawn at c a) ≡ false
unfolding is_published_of withdrawn
withdrawn-not_published kb_id c at a = ground arith

version-published_of :
    (id kb_id : String) (n : ℕ) (a : Publication)
    → is_published_version id n a ≡ true
    → is_of kb_id a ≡ true
    → is_published_of kb_id a ≡ true
unfolding is_published_version is_published_of
version-published_of id kb_id n a h k = ground arith

-- What a successful statement of Unpublish did.
module _ (kb_id id c : String) (n at : ℕ) (db : Db) (p q : Publication)
    (unique : IsUnique db.publications) (row : find_row (is_of kb_id) db.publications ≡ some p)
    (same_id : p.id ≡ id) where
  statement-withdraws :
      (Store.unpublish id n c at db).0 ≡ ok q
      → (find_row (is_published_of kb_id) (Store.unpublish id n c at db).1.publications ≡ none)
        × (q.id ≡ id)
  unfolding Store.unpublish
  statement-withdraws h =
      elim (Option-cases (find_row (is_published_version id n) db.publications)) [
        | inl e ↦ absurd (ground arith)
        | inr (x, e) ↦
            let holds = find_row-holds (is_published_version id n) db.publications x e in
            let x_id = version-id id n x holds in
            let same : p ≡ x =
              found_same collides collides_sym (is_of kb_id) (is_published_version id n)
                db.publications p x unique row e (same_id-collides p x (same_id ∙ sym x_id)) in
            let of_kb : is_of kb_id x ≡ true =
              rw same at (find_row-holds (is_of kb_id) db.publications p row) in
            let off =
              any-update_where_only collides (is_published_of kb_id)
                (λ a b f g.
                  same_kb-collides kb_id a b (published_of-is_of kb_id a f)
                    (published_of-is_of kb_id b g))
                (is_published_version id n) (withdrawn at c)
                (withdrawn-off (is_published_version id n) kb_id c at) db.publications x unique e
                (version-published_of id kb_id n x holds of_kb)
                (withdrawn-not_published kb_id c at x) in
            let gone =
              find_row-none (is_published_of kb_id)
                (update_where (is_published_version id n) (withdrawn at c) db.publications) off in
            ground arith
      ]

published_of-status :
    (kb_id : String) (a : Publication)
    → has_status published a ≡ false
    → is_published_of kb_id a ≡ false
unfolding is_published_of
published_of-status kb_id a h = ground arith

ended-not_live :
    (id c : String) (at : ℕ) (s : Subscription) → is_live_of id (ended inactive c at s) ≡ false
unfolding is_live_of ended
ended-not_live id c at s = ground arith

withdraw_row-ends :
    (env : Env) (kb_id c : String) (n : ℕ) (db : Db) (p q : Publication)
    → IsUnique db.publications
    → find_row (is_of kb_id) db.publications ≡ some p
    → is_valid p ≡ true
    → (withdraw_row env n c p db).0 ≡ ok q
    → (find_row (is_published_of kb_id) (withdraw_row env n c p db).1.publications ≡ none)
      × (q.id ≡ p.id)
unfolding withdraw_row
withdraw_row-ends env kb_id c n db p q u row v h = elim (Bool-cases (is_published p)) [
  | inl e ↦ elim (Result-cases (Store.unpublish p.id n c env.now db).0) [
    | inr (x, f) ↦ absurd (ground arith)
    | inl (x, f) ↦ ground (arith, statement-withdraws kb_id p.id c n env.now db p x u row refl f)
  ]
  | inr e ↦
      let alone =
        find_row-narrow collides (is_of kb_id) (same_kb-collides kb_id) (is_published_of kb_id)
          (published_of-is_of kb_id) db.publications p u row in
      let off = published_of-status kb_id p in ground (arith, not_published-status p v e)
]

-- After InactivatePublication no subscription to the publication is active.
inactivate_publication-ok :
    (id c : String) (at : ℕ) (db : Db) (x : Unit {0})
    → (inactivate_publication id c at db).0 ≡ ok x
    → (any (is_live_of id) (inactivate_publication id c at db).1.subscriptions ≡ false)
      × ((inactivate_publication id c at db).1.publications ≡ db.publications)
unfolding inactivate_publication
inactivate_publication-ok id c at db x h =
    let dead =
      any-update_where_killed (is_live_of id) (ended inactive c at) (ended-not_live id c at)
        db.subscriptions in
    ground arith

-- What Unpublish ends for its publication.
pub record Ended (kb_id id : String) (db : Db) : Type 0 where
  pub hidden : find_row (is_published_of kb_id) db.publications ≡ none
  pub unfollowed : any (is_live_of id) db.subscriptions ≡ false

Ended-same :
    (kb_id id : String) {db db' : Db} → SameRows db db' → Ended kb_id id db → Ended kb_id id db'
Ended-same kb_id id same e = record {
  hidden = rw same.publications e.hidden;
  unfollowed = rw same.subscriptions e.unfollowed;
}

SameRows-report :
    (env : Env) (o : Ownership) (actor : Actor) (c : String) (p q : Publication) (db : Db)
    → SameRows db (report_withdrawal env o actor c p q db).1
unfolding report_withdrawal
SameRows-report env o actor c p q db =
    let same = SameRows-record_audit env o actor "publication.unpublished" (some p) q c db in
    elim (Bool-cases (is_published p)) [ inl e ↦ rw e same | inr e ↦ rw e (SameRows-refl db) ]

unpublish_existing-Ended :
    (env : Env) (o : Ownership) (kb_id c : String) (actor : Actor) (n : ℕ) (db : Db)
    (p q : Publication)
    → IsUnique db.publications
    → find_row (is_of kb_id) db.publications ≡ some p
    → is_valid p ≡ true
    → (unpublish_existing env o actor n c p db).0 ≡ ok q
    → Ended kb_id q.id (unpublish_existing env o actor n c p db).1
unfolding unpublish_existing
unpublish_existing-Ended env o kb_id c actor n db p q u row v h =
    let written = withdraw_row env n c p db in
    elim (Bool-cases (not_publisher p actor)) [
      | inl e ↦ absurd (ground arith)
      | inr e ↦ elim (Bool-cases (p.row_version =ℕ= n)) [
        | inr f ↦ absurd (ground arith)
        | inl f ↦ elim (Result-cases written.0) [
          | inr (x, w) ↦ absurd (ground arith)
          | inl (x, w) ↦
              let left = inactivate_publication x.id c env.now written.1 in
              elim (Result-cases left.0) [
                | inr (y, i) ↦ absurd (ground arith)
                | inl (y, i) ↦
                    let (hidden, same_id) = withdraw_row-ends env kb_id c n db p x u row v w in
                    let (unfollowed, kept) =
                      inactivate_publication-ok x.id c env.now written.1 y i in
                    let done : Ended kb_id x.id left.1 = record {
                      hidden = rw kept hidden;
                      unfollowed = unfollowed;
                    } in
                    let report = report_withdrawal env o actor c p x left.1 in
                    let after =
                      Ended-same kb_id x.id (SameRows-report env o actor c p x left.1) done in
                    elim (Result-cases report.0) [
                      | inr (z, r) ↦ absurd (ground arith)
                      | inl (z, r) ↦
                          let result : x ≡ q = ground arith in rw (e, f, w, i, r, ← result) after
                    ]
              ]
        ]
      ]
    ]

-- From tables without duplicates: when Service.Unpublish succeeds, no publication of the knowledge
-- base is published any more, and no subscription to the publication is active.
pub unpublish-Ended :
    (env : Env) (kb_id : String) (actor : Actor) (n : ℕ) (c : String) (h : Headers) (db : Db)
    {q : Publication}
    → IsUnique db.publications
    → (unpublish env kb_id actor n c h db).0 ≡ ok q
    → Ended kb_id q.id (unpublish env kb_id actor n c h db).1
unfolding unpublish
unpublish-Ended env kb_id actor n c h db {q} u done =
    let entered = require_owner env kb_id actor h db in
    elim (Result-cases entered.0) [
      | inr (x, e) ↦ absurd (ground arith)
      | inl (o, e) ↦ elim (Bool-cases (ltb n 1 || not (valid_correlation c))) [
        | inl b ↦ absurd (ground arith)
        | inr b ↦
            let found = get_by_kb kb_id entered.1 in
            let same =
              SameRows-trans (SameRows-require_owner env kb_id actor h db)
                (SameRows-get_by_kb kb_id entered.1) in
            elim (Result-cases found.0) [
              | inr (x, g) ↦ absurd (ground arith)
              | inl (p, g) ↦
                  let (row, valid) = get_by_kb-ok kb_id p entered.1 g in
                  let kept = (SameRows-get_by_kb kb_id entered.1).publications in
                  rw (e, b, g)
                    (unpublish_existing-Ended env o kb_id c actor n found.1 p q
                      (rw same.publications u) (rw kept row) valid (rw (e, b, g) at done))
            ]
      ]
    ]
