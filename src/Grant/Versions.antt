-- ===== src/Grant/Versions.antt =====
-- internal/grant/repository.go: the revision in the WHERE clauses of Update and Revoke, over all
-- interleavings of statements.
use my_kb.Prelude.{
  ℕ, ◌+◌, ◌≡◌, ◌≢◌, refl, Bool, true, false, ◌&&◌, Option, none, some, List, [], ◌∷◌, ◌++◌, String,
  ◌==◌, leb, arith, eq_iff, find_row, any, update_where, Bool-cases, Option-cases, inl, inr,
  if◌then◌else◌, ap, ◌∙◌,
}
use my_kb.Prelude.Rows.{
  any-append, any_mono, find_row-none, no_other, any-update_where_off, any-update_where_kept,
}
use my_kb.Result.{Result, ok}
use my_kb.Db.{Db}
use my_kb.Grant.{Grant, Permission}
use my_kb.Grant.Repository.{
  as_stored, RepoErr, create, update, revoke, collides, is_version, updated, revoked,
}
use my_kb.Grant.Uniqueness.{
  IsUnique, Reach, Reach-IsUnique, here, next, create_step, update_step, revoke_step,
}

abbrev has_id : String → Grant → Bool
has_id id g = g.id == id

abbrev at_most : String → ℕ → Grant → Bool
at_most id n g = g.id == id && leb g.revision n

-- The row `id` is there, and has passed revision `n`.
pub record Passed (id : String) (n : ℕ) (gs : List Grant) : Type 0 where
  pub there : any (has_id id) gs ≡ true
  pub past : any (at_most id n) gs ≡ false

same_id-collides :
    (id : String) (a b : Grant) → has_id id a ≡ true → has_id id b ≡ true → collides a b ≡ true
unfolding collides
same_id-collides id a b h k = ground (arith, eq_iff a.id id, eq_iff b.id id, eq_iff b.id a.id)

not_version : (id : String) (n : ℕ) (a : Grant) → is_version id n a ≡ true → has_id id a ≡ true
unfolding is_version
not_version id n a h = ground arith

version_revision : (id : String) (n : ℕ) (a : Grant) → is_version id n a ≡ true → a.revision ≡ n
unfolding is_version
version_revision id n a h = ground arith

at_most-has_id : (id : String) (n : ℕ) (a : Grant) → at_most id n a ≡ true → has_id id a ≡ true
at_most-has_id id n a h = ground arith

-- A change that keeps the identifier and adds one to the revision.
module _ (id : String) (n : ℕ) (f : Grant → Grant) (keeps : (a : Grant) → (f a).id ≡ a.id)
    (bumps : (a : Grant) → (f a).revision ≡ a.revision + 1) where
  has_id_kept :
      (p : Grant → Bool) (i : String) (a : Grant) → has_id i (if p a then f a else a) ≡ has_id i a
  has_id_kept p i a = elim (Bool-cases (p a)) [
    | inl e ↦ rw e (ap (λ (s : String). s == i) (keeps a))
    | inr e ↦ rw e refl
  ]

  at_most_off :
      (p : Grant → Bool) (i : String) (m : ℕ) (a : Grant)
      → at_most i m (if p a then f a else a) ≡ true
      → at_most i m a ≡ true
  at_most_off p i m a h = elim (Bool-cases (p a)) [
    | inl e ↦ ground (arith, has_id_kept p i a, keeps a, bumps a)
    | inr e ↦ ground arith
  ]

  Passed-update_where :
      (p : Grant → Bool) (i : String) (m : ℕ) (gs : List Grant)
      → Passed i m gs
      → Passed i m (update_where p f gs)
  Passed-update_where p i m gs h = record {
    there = any-update_where_kept (has_id i) p f (has_id_kept p i) gs ∙ h.there;
    past = any-update_where_off (at_most i m) p f (at_most_off p i m) gs h.past;
  }

  first :
      (y : Grant) (ys : List Grant)
      → IsUnique (y ∷ ys)
      → is_version id n y ≡ true
      → Passed id n (update_where (is_version id n) f (y ∷ ys))
  first y ys u e =
      let nobody : any (has_id id) ys ≡ false =
        no_other collides (has_id id) (same_id-collides id) y ys (not_version id n y e) u.0 in
      let past : any (at_most id n) ys ≡ false =
        any_mono (has_id id) (at_most id n) (λ a. at_most-has_id id n a) ys nobody in
      let past' =
        any-update_where_off (at_most id n) (is_version id n) f (at_most_off (is_version id n) id n)
          ys past in
      ground (arith, keeps y, bumps y, version_revision id n y, not_version id n y)

  other_row :
      (y : Grant) (ys : List Grant) (g : Grant)
      → IsUnique (y ∷ ys)
      → is_version id n y ≡ false
      → find_row (is_version id n) ys ≡ some g
      → has_id id y ≡ false
  other_row y ys g u e h = elim (Bool-cases (has_id id y)) [
    | inl same ↦
        let nobody = no_other collides (has_id id) (same_id-collides id) y ys same u.0 in
        let missing =
          find_row-none (is_version id n) ys
            (any_mono (has_id id) (is_version id n) (not_version id n) ys nobody) in
        absurd (cc)
    | inr differs ↦ differs
  ]

  skipped :
      (y : Grant) (ys : List Grant)
      → is_version id n y ≡ false
      → has_id id y ≡ false
      → Passed id n (update_where (is_version id n) f ys)
      → Passed id n (update_where (is_version id n) f (y ∷ ys))
  skipped y ys e differs h = ground (arith, h.there, h.past)

  Passed-after :
      (gs : List Grant) (g : Grant)
      → IsUnique gs
      → find_row (is_version id n) gs ≡ some g
      → Passed id n (update_where (is_version id n) f gs)
  Passed-after [] g u h = cc
  Passed-after (y ∷ ys) g u h = elim (Bool-cases (is_version id n y)) [
    | inl e ↦ first y ys u e
    | inr e ↦
        skipped y ys e (other_row y ys g u e (ground arith)) (Passed-after ys g u.1 (ground arith))
  ]

version-at_most :
    (id : String) (n : ℕ) (a : Grant) → is_version id n a ≡ true → at_most id n a ≡ true
unfolding is_version
version-at_most id n a h = ground arith

Passed-no_version :
    (id : String) (n : ℕ) (gs : List Grant) → Passed id n gs → find_row (is_version id n) gs ≡ none
Passed-no_version id n gs h =
    find_row-none (is_version id n) gs
      (any_mono (at_most id n) (is_version id n) (version-at_most id n) gs h.past)

-- The row inserted does not collide with the one that is there.
fresh_id :
    (id : String) (g : Grant) (gs : List Grant)
    → any (has_id id) gs ≡ true
    → any (collides g) gs ≡ false
    → has_id id g ≡ false
fresh_id id g [] h k = cc
fresh_id id g (x ∷ xs) h k = elim (Bool-cases (has_id id g)) [
  | inl e ↦ ground (arith, same_id-collides id g x, fresh_id id g xs)
  | inr e ↦ e
]

any-append_there :
    (id : String) (gs : List Grant) (g : Grant)
    → any (has_id id) gs ≡ true
    → any (has_id id) (gs ++ g ∷ []) ≡ true
any-append_there id [] g h = cc
any-append_there id (x ∷ xs) g h = ground (arith, any-append_there id xs g)

create-Passed :
    (id : String) (n : ℕ) (g : Grant) (db : Db)
    → Passed id n db.grants
    → Passed id n (create g db).1.grants
unfolding create
create-Passed id n g db h = elim (Bool-cases (any (collides (as_stored g)) db.grants)) [
  | inl e ↦ ground (arith, h.there, h.past)
  | inr e ↦
      let fresh = fresh_id id (as_stored g) db.grants h.there e in
      let there = any-append_there id db.grants (as_stored g) h.there in
      let past = any-append (at_most id n) db.grants (as_stored g) h.past (ground arith) in
      ground (arith, h.there, h.past)
]

update-Passed :
    (i : String) (m : ℕ) (id : String) (n : ℕ) (p : Permission) (t : Option ℕ) (c : String) (at : ℕ)
    (db : Db)
    → Passed i m db.grants
    → Passed i m (update id n p t c at db).1.grants
unfolding update
update-Passed i m id n p t c at db h =
    let after =
      Passed-update_where id n (updated p t at c) (λ a. refl) (λ a. refl) (is_version id n) i m
        db.grants h in
    ground (arith, h.there, h.past, after.there, after.past)

revoke-Passed :
    (i : String) (m : ℕ) (id : String) (n : ℕ) (c : String) (at : ℕ) (db : Db)
    → Passed i m db.grants
    → Passed i m (revoke id n c at db).1.grants
unfolding revoke
revoke-Passed i m id n c at db h =
    let after =
      Passed-update_where id n (revoked at c) (λ a. refl) (λ a. refl) (is_version id n) i m
        db.grants h in
    ground (arith, h.there, h.past, after.there, after.past)

Reach-Passed :
    (i : String) (m : ℕ) {start db : Db}
    → Reach start db
    → Passed i m start.grants
    → Passed i m db.grants
Reach-Passed i m here h = h
Reach-Passed i m (next r (create_step g db)) h = create-Passed i m g db (Reach-Passed i m r h)
Reach-Passed i m (next r (update_step id n p t c at db)) h =
    update-Passed i m id n p t c at db (Reach-Passed i m r h)
Reach-Passed i m (next r (revoke_step id n c at db)) h =
    revoke-Passed i m id n c at db (Reach-Passed i m r h)

-- A call of Update or of Revoke, for a row and the revision that the caller has read.
pub data Change : Type 0 where
  edit : Permission → Option ℕ → String → ℕ → Change
  withdraw : String → ℕ → Change

abbrev pub run : String → ℕ → Change → Db → Result RepoErr Grant × Db
run id n (edit p t c at) db = update id n p t c at db
run id n (withdraw c at) db = revoke id n c at db

run-Passed :
    (id : String) (n : ℕ) (change : Change) (db : Db) (g : Grant)
    → IsUnique db.grants
    → (run id n change db).0 ≡ ok g
    → Passed id n (run id n change db).1.grants
unfolding update revoke
run-Passed id n (edit p t c at) db g u h =
    elim (Option-cases (find_row (is_version id n) db.grants)) [
      | inl e ↦ absurd (ground arith)
      | inr (x, e) ↦
          let after =
            Passed-after id n (updated p t at c) (λ a. refl) (λ a. refl) db.grants x u e in
          ground (arith, after.there, after.past)
    ]
run-Passed id n (withdraw c at) db g u h =
    elim (Option-cases (find_row (is_version id n) db.grants)) [
      | inl e ↦ absurd (ground arith)
      | inr (x, e) ↦
          let after = Passed-after id n (revoked at c) (λ a. refl) (λ a. refl) db.grants x u e in
          ground (arith, after.there, after.past)
    ]

run_of_Passed :
    (id : String) (n : ℕ) (change : Change) (db : Db) (g : Grant)
    → Passed id n db.grants
    → (run id n change db).0 ≢ ok g
unfolding update revoke
run_of_Passed id n (edit p t c at) db g h e = ground (arith, Passed-no_version id n db.grants h)
run_of_Passed id n (withdraw c at) db g h e = ground (arith, Passed-no_version id n db.grants h)

-- From a database with no grants, whatever statements ran before: once an Update or a Revoke of a
-- row at a revision has succeeded, no other Update or Revoke at that revision ever succeeds,
-- whatever statements run in between.
pub no_lost_update :
    (id : String) (n : ℕ) (change other : Change) {start db after : Db} {g k : Grant}
    → start.grants ≡ []
    → Reach start db
    → (run id n change db).0 ≡ ok g
    → Reach (run id n change db).1 after
    → (run id n other after).0 ≢ ok k
no_lost_update id n change other {start} {db} {after} {g} {k} empty r done r' =
    run_of_Passed id n other after k
      (Reach-Passed id n r' (run-Passed id n change db g (Reach-IsUnique r (rw empty tt)) done))
