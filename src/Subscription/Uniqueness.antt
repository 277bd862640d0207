-- ===== src/Subscription/Uniqueness.antt =====
-- internal/subscription/repository.go: the unique constraint over all interleavings of statements.
use my_kb.Prelude.{
  ℕ, ◌≤◌, ◌≡◌, refl, Bool, true, String, arith, List, [], ◌∷◌, inl, inr, any, eq_iff, length,
  select, update_where, if◌then◌else◌, Bool-cases,
}
use my_kb.Prelude.Rows.{PairwiseNot-append, PairwiseNot-update_where, length-select-le-one}
use my_kb.Result.{Result-cases}
use my_kb.Db.{Db, failing, later}
use my_kb.Db.Transactions.{begun, transaction-keeps}
use my_kb.Publication.{Audience, valid_audience, is_organization, allows}
use my_kb.Subscription.{Subscription, Status, inactive, unsubscribed}
use my_kb.Subscription.Following.{IsUnique, collides_sym}
use my_kb.Subscription.Repository.{
  as_stored, RepoErr, create, activate, unsubscribe, mark_seen, inactivate_publication,
  inactivate_outside_audience, end_outside, inactivate_row, live_rows, end_all_outside, collides,
  is_by, has_id, is_live, is_live_of, activated, ended, seen,
}

-- An update that keeps what the constraints are about.
module _ (f : Subscription → Subscription) (ids : (a : Subscription) → (f a).id ≡ a.id)
    (publications : (a : Subscription) → (f a).publication_id ≡ a.publication_id)
    (followers : (a : Subscription) → (f a).subscriber_id ≡ a.subscriber_id) where
  shrinks :
      (p : Subscription → Bool) (a b : Subscription)
      → collides (if p a then f a else a) (if p b then f b else b) ≡ true
      → collides a b ≡ true
  unfolding collides
  shrinks p a b h =
      ground (arith, ids a, ids b, publications a, publications b, followers a, followers b)

  IsUnique-update_where :
      (p : Subscription → Bool) (ss : List Subscription)
      → IsUnique ss
      → IsUnique (update_where p f ss)
  IsUnique-update_where p ss u = PairwiseNot-update_where collides p f (shrinks p) ss u

IsUnique-ended :
    (status : Status) (c : String) (at : ℕ) (p : Subscription → Bool) (ss : List Subscription)
    → IsUnique ss
    → IsUnique (update_where p (ended status c at) ss)
unfolding ended
IsUnique-ended status c at p ss u =
    IsUnique-update_where (ended status c at) (λ a. refl) (λ a. refl) (λ a. refl) p ss u

create-IsUnique :
    (s : Subscription) (db : Db)
    → IsUnique db.subscriptions
    → IsUnique (create s db).1.subscriptions
unfolding create
create-IsUnique s db h = elim (Bool-cases (any (collides (as_stored s)) db.subscriptions)) [
  | inl e ↦ ground arith
  | inr e ↦
      ground (arith, PairwiseNot-append collides collides_sym db.subscriptions (as_stored s) e h)
]

activate-IsUnique :
    (id : String) (t n : ℕ) (c : String) (at : ℕ) (db : Db)
    → IsUnique db.subscriptions
    → IsUnique (activate id t n c at db).1.subscriptions
unfolding activate activated
activate-IsUnique id t n c at db h =
    let kept =
      IsUnique-update_where (activated t n c at) (λ a. refl) (λ a. refl) (λ a. refl) (has_id id)
        db.subscriptions h in
    ground arith

unsubscribe-IsUnique :
    (id c : String) (at : ℕ) (db : Db)
    → IsUnique db.subscriptions
    → IsUnique (unsubscribe id c at db).1.subscriptions
unfolding unsubscribe
unsubscribe-IsUnique id c at db h =
    let kept = IsUnique-ended unsubscribed c at (has_id id) db.subscriptions h in ground arith

mark_seen-IsUnique :
    (id : String) (n : ℕ) (c : String) (at : ℕ) (db : Db)
    → IsUnique db.subscriptions
    → IsUnique (mark_seen id n c at db).1.subscriptions
unfolding mark_seen seen
mark_seen-IsUnique id n c at db h =
    let kept =
      IsUnique-update_where (seen n c at) (λ a. refl) (λ a. refl) (λ a. refl) (is_live id)
        db.subscriptions h in
    ground arith

inactivate-IsUnique :
    (id c : String) (at : ℕ) (db : Db)
    → IsUnique db.subscriptions
    → IsUnique (inactivate_publication id c at db).1.subscriptions
unfolding inactivate_publication
inactivate-IsUnique id c at db h =
    let kept = IsUnique-ended inactive c at (is_live_of id) db.subscriptions h in ground arith

inactivate_row-IsUnique :
    (id c : String) (at : ℕ) (db : Db)
    → IsUnique db.subscriptions
    → IsUnique (inactivate_row id c at db).1.subscriptions
unfolding inactivate_row
inactivate_row-IsUnique id c at db h =
    let kept = IsUnique-ended inactive c at (is_live id) db.subscriptions h in ground arith

end_outside-IsUnique :
    (a : Audience) (c : String) (at : ℕ) (cs : List Subscription) (db : Db)
    → IsUnique db.subscriptions
    → IsUnique (end_outside a c at cs db).1.subscriptions
unfolding end_outside
end_outside-IsUnique a c at [] db h = h
end_outside-IsUnique a c at (x ∷ xs) db h =
    let write = inactivate_row x.id c at db in
    let written = inactivate_row-IsUnique x.id c at db h in
    elim (Bool-cases (allows a x.subscriber_tenant_id)) [
      | inl e ↦ rw e (end_outside-IsUnique a c at xs db h)
      | inr e ↦ elim (Result-cases write.0) [
        | inl (y, r) ↦ rw (e, r) (end_outside-IsUnique a c at xs write.1 written)
        | inr (y, r) ↦ rw (e, r) written
      ]
    ]

end_all-IsUnique :
    (id : String) (a : Audience) (c : String) (at : ℕ) (db : Db)
    → IsUnique db.subscriptions
    → IsUnique (end_all_outside id a c at db).1.subscriptions
unfolding end_all_outside live_rows
end_all-IsUnique id a c at db h = elim (Bool-cases (failing db.faults)) [
  | inl e ↦ rw e h
  | inr e ↦ rw e (
      end_outside-IsUnique a c at (select (is_live_of id) db.subscriptions)
        (record db { faults = later db.faults }) h)
]

outside-IsUnique :
    (id : String) (a : Audience) (c : String) (at : ℕ) (db : Db)
    → IsUnique db.subscriptions
    → IsUnique (inactivate_outside_audience id a c at db).1.subscriptions
unfolding inactivate_outside_audience
outside-IsUnique id a c at db h = elim (Bool-cases (valid_audience a)) [
  | inr e ↦ rw e h
  | inl e ↦ elim (Bool-cases (is_organization a.kind)) [
    | inl f ↦ rw (e, f) h
    | inr f ↦
        rw (e, f)
          (transaction-keeps RepoErr.database RepoErr.database (end_all_outside id a c at) db
            (λ d. IsUnique d.subscriptions) (λ d fs k. k) h
            (end_all-IsUnique id a c at (begun db) h))
  ]
]

-- One call of the repository that writes subscriptions, whoever makes it, whether it succeeds or not.
pub data Step : Db → Db → Type 0 where
  create_step : (s : Subscription) (db : Db) → Step db (create s db).1
  activate_step :
      (id : String) (t n : ℕ) (c : String) (at : ℕ) (db : Db) → Step db (activate id t n c at db).1
  unsubscribe_step : (id c : String) (at : ℕ) (db : Db) → Step db (unsubscribe id c at db).1
  mark_seen_step :
      (id : String) (n : ℕ) (c : String) (at : ℕ) (db : Db) → Step db (mark_seen id n c at db).1
  inactivate_step :
      (id c : String) (at : ℕ) (db : Db) → Step db (inactivate_publication id c at db).1
  outside_step :
      (id : String) (a : Audience) (c : String) (at : ℕ) (db : Db)
      → Step db (inactivate_outside_audience id a c at db).1

pub data Reach (start : Db) : Db → Type 0 where
  here : Reach start start
  next : {db db' : Db} → Reach start db → Step db db' → Reach start db'

Step-IsUnique : {db db' : Db} → Step db db' → IsUnique db.subscriptions → IsUnique db'.subscriptions
Step-IsUnique (create_step s db) h = create-IsUnique s db h
Step-IsUnique (activate_step id t n c at db) h = activate-IsUnique id t n c at db h
Step-IsUnique (unsubscribe_step id c at db) h = unsubscribe-IsUnique id c at db h
Step-IsUnique (mark_seen_step id n c at db) h = mark_seen-IsUnique id n c at db h
Step-IsUnique (inactivate_step id c at db) h = inactivate-IsUnique id c at db h
Step-IsUnique (outside_step id a c at db) h = outside-IsUnique id a c at db h

pub Reach-IsUnique :
    {start db : Db} → Reach start db → IsUnique start.subscriptions → IsUnique db.subscriptions
Reach-IsUnique here h = h
Reach-IsUnique (next r s) h = Step-IsUnique s (Reach-IsUnique r h)

is_by-collides :
    (p u : String) (a b : Subscription)
    → is_by p u a ≡ true
    → is_by p u b ≡ true
    → collides a b ≡ true
unfolding is_by collides
is_by-collides p u a b h k = ground (
  arith,
  eq_iff a.publication_id p,
  eq_iff b.publication_id p,
  eq_iff b.publication_id a.publication_id,
  eq_iff a.subscriber_id u,
  eq_iff b.subscriber_id u,
  eq_iff b.subscriber_id a.subscriber_id,
)

-- Whatever calls that write subscriptions run, in whatever order and with whatever failures, from
-- a database with no subscriptions: a user has at most one subscription to a publication.
pub one_subscription :
    (p u : String) {start db : Db}
    → start.subscriptions ≡ []
    → Reach start db
    → length (select (is_by p u) db.subscriptions) ≤ 1
one_subscription p u {start} {db} empty r =
    length-select-le-one collides (is_by p u) (is_by-collides p u) db.subscriptions
      (Reach-IsUnique r (rw empty tt))
