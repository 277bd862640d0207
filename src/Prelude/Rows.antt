-- ===== src/Prelude/Rows.antt =====
-- Laws of the searches, filters and updates of Prelude/Lists, and of lists no two of whose
-- elements are related.
use Prim.Native.Nat.{◌≤◌}
use mathlib.Core.Path.{◌≡◌, refl}
use mathlib.Core.Bool.{Bool, true, false}
use mathlib.Core.Option.{none, some}
use mathlib.Core.List.{List, [], ◌∷◌, ◌++◌}
use mathlib.Core.Logic.{inl, inr}
use native.Mathlib.Omega.{arith}
use my_kb.Prelude.Tests.{if◌then◌else◌, Bool-cases}
use my_kb.Prelude.Lists.{length, find_row, select, update_where, any}

module _ {ℓ} {A : Type ℓ} where
  pub find_row-holds : (p : A → Bool) (xs : List A) (x : A) → find_row p xs ≡ some x → p x ≡ true
  find_row-holds p [] x h = ground arith
  find_row-holds p (y ∷ ys) x h = ground (arith, find_row-holds p ys x)

  pub find_row-none : (p : A → Bool) (xs : List A) → any p xs ≡ false → find_row p xs ≡ none
  find_row-none p [] h = refl
  find_row-none p (y ∷ ys) h = ground (arith, find_row-none p ys)

  -- A row appended is found only where no row before it is.
  pub find_row-append :
      (p : A → Bool) (xs : List A) (y : A)
      → find_row p xs ≡ none
      → find_row p (xs ++ y ∷ []) ≡ (if p y then some y else none)
  find_row-append p [] y h = refl
  find_row-append p (x ∷ xs) y h = ground (arith, find_row-append p xs y)

  pub find_row-append_found :
      (p : A → Bool) (xs : List A) (y x : A)
      → find_row p xs ≡ some x
      → find_row p (xs ++ y ∷ []) ≡ some x
  find_row-append_found p [] y x h = ground arith
  find_row-append_found p (z ∷ zs) y x h = ground (arith, find_row-append_found p zs y x)

  pub any-append :
      (p : A → Bool) (xs : List A) (y : A)
      → any p xs ≡ false
      → p y ≡ false
      → any p (xs ++ y ∷ []) ≡ false
  any-append p [] y h k = ground arith
  any-append p (x ∷ xs) y h k = ground (arith, any-append p xs y)

  -- A weaker test finds nothing where a stronger one does not.
  pub any_mono :
      (p q : A → Bool) (weaker : (a : A) → q a ≡ true → p a ≡ true) (xs : List A)
      → any p xs ≡ false
      → any q xs ≡ false
  any_mono p q weaker [] h = refl
  any_mono p q weaker (x ∷ xs) h = ground (arith, weaker x, any_mono p q weaker xs)

  pub select-none : (p : A → Bool) (xs : List A) → any p xs ≡ false → select p xs ≡ []
  select-none p [] h = refl
  select-none p (x ∷ xs) h = ground (arith, select-none p xs)

  -- No element is related to a later one.
  abbrev pub PairwiseNot : (A → A → Bool) → List A → Type 0
  PairwiseNot r [] = Unit
  PairwiseNot r (x ∷ xs) = (any (r x) xs ≡ false) × PairwiseNot r xs

  module _ (r : A → A → Bool) (symmetric : (a b : A) → r a b ≡ r b a) where
    pub PairwiseNot-append :
        (xs : List A) (y : A)
        → any (r y) xs ≡ false
        → PairwiseNot r xs
        → PairwiseNot r (xs ++ y ∷ [])
    PairwiseNot-append [] y h k = (refl, tt)
    PairwiseNot-append (x ∷ xs) y h k = (
      any-append (r x) xs y k.0 (ground (arith, symmetric x y)),
      PairwiseNot-append xs y (ground arith) k.1,
    )

  -- An update that relates no two elements anew.
  module _ (r : A → A → Bool) (p : A → Bool) (f : A → A)
      (shrinks : (a b : A)
        → r (if p a then f a else a) (if p b then f b else b) ≡ true
        → r a b ≡ true) where
    any-update_where :
        (x : A) (xs : List A)
        → any (r x) xs ≡ false
        → any (r (if p x then f x else x)) (update_where p f xs) ≡ false
    any-update_where x [] h = refl
    any-update_where x (y ∷ ys) h = ground (arith, shrinks x y, any-update_where x ys)

    pub PairwiseNot-update_where :
        (xs : List A) → PairwiseNot r xs → PairwiseNot r (update_where p f xs)
    PairwiseNot-update_where [] k = tt
    PairwiseNot-update_where (x ∷ xs) k =
        (any-update_where x xs k.0, PairwiseNot-update_where xs k.1)

  -- Where any two elements that pass the test are related, at most one passes.
  module _ (r : A → A → Bool) (q : A → Bool)
      (related : (a b : A) → q a ≡ true → q b ≡ true → r a b ≡ true) where
    pub no_other : (x : A) (xs : List A) → q x ≡ true → any (r x) xs ≡ false → any q xs ≡ false
    no_other x [] h k = refl
    no_other x (y ∷ ys) h k = ground (arith, related x y, no_other x ys)

    pub length-select-le-one : (xs : List A) → PairwiseNot r xs → length (select q xs) ≤ 1
    length-select-le-one [] k = omega arith
    length-select-le-one (x ∷ xs) k = elim (Bool-cases (q x)) [
      | inl e ↦ rw e (rw (select-none q xs (no_other x xs e k.0)) (omega arith))
      | inr e ↦ rw e (length-select-le-one xs k.1)
    ]

    -- The row found is the only one, so a stronger test finds it or nothing.
    pub find_row-narrow :
        (q' : A → Bool) (narrower : (a : A) → q' a ≡ true → q a ≡ true) (xs : List A) (x : A)
        → PairwiseNot r xs
        → find_row q xs ≡ some x
        → find_row q' xs ≡ (if q' x then some x else none)
    find_row-narrow q' narrower [] x k h = ground arith
    find_row-narrow q' narrower (y ∷ ys) x k h = elim (Bool-cases (q y)) [
      | inl e ↦
          let nobody : find_row q' ys ≡ none =
            find_row-none q' ys (any_mono q q' narrower ys (no_other y ys e k.0)) in
          ground arith
      | inr e ↦ ground (arith, narrower y, find_row-narrow q' narrower ys x k.1)
    ]

  -- Tests that an update does not change, or only turns off.
  module _ (q : A → Bool) (p : A → Bool) (f : A → A)
      (weaker : (a : A) → q (if p a then f a else a) ≡ true → q a ≡ true) where
    pub any-update_where_off :
        (xs : List A) → any q xs ≡ false → any q (update_where p f xs) ≡ false
    any-update_where_off [] h = refl
    any-update_where_off (x ∷ xs) h = ground (arith, weaker x, any-update_where_off xs)

  -- After an update, only rows that passed the test `q` may pass the test `q'`.
  pub any-update_where_into :
      (q q' p : A → Bool) (f : A → A)
      (weaker : (a : A) → q' (if p a then f a else a) ≡ true → q a ≡ true) (xs : List A)
      → any q xs ≡ false
      → any q' (update_where p f xs) ≡ false
  any-update_where_into q q' p f weaker [] h = refl
  any-update_where_into q q' p f weaker (x ∷ xs) h =
      ground (arith, weaker x, any-update_where_into q q' p f weaker xs)

  module _ (q : A → Bool) (p : A → Bool) (f : A → A)
      (kept : (a : A) → q (if p a then f a else a) ≡ q a) where
    pub any-update_where_kept : (xs : List A) → any q (update_where p f xs) ≡ any q xs
    any-update_where_kept [] = refl
    any-update_where_kept (x ∷ xs) = ground (arith, kept x, any-update_where_kept xs)

  found-any :
      (p q : A → Bool) (xs : List A) (x : A) → find_row p xs ≡ some x → q x ≡ true → any q xs ≡ true
  found-any p q [] x h k = cc
  found-any p q (y ∷ ys) x h k = ground (arith, found-any p q ys x)

  -- An update that turns the test off at the only row that passes it.
  module _ (r : A → A → Bool) (q : A → Bool)
      (related : (a b : A) → q a ≡ true → q b ≡ true → r a b ≡ true) (p : A → Bool) (f : A → A)
      (weaker : (a : A) → q (if p a then f a else a) ≡ true → q a ≡ true) where
    pub any-update_where_only :
        (xs : List A) (x : A)
        → PairwiseNot r xs
        → find_row p xs ≡ some x
        → q x ≡ true
        → q (f x) ≡ false
        → any q (update_where p f xs) ≡ false
    any-update_where_only [] x u h k off = cc
    any-update_where_only (y ∷ ys) x u h k off = elim (Bool-cases (p y)) [
      | inl e ↦
          let same : some y ≡ some x = rw e at h in
          let rest =
            any-update_where_off q p f weaker ys (no_other r q related y ys (ground arith) u.0) in
          ground arith
      | inr e ↦ elim (Bool-cases (q y)) [
        | inl m ↦
            let there = found-any p q ys x (ground arith) k in
            let nobody = no_other r q related y ys m u.0 in absurd (cc)
        | inr m ↦ ground (arith, any-update_where_only ys x u.1)
      ]
    ]

  -- Two searches that find related rows find one row.
  pub found_same :
      (r : A → A → Bool) (symmetric : (a b : A) → r a b ≡ r b a) (p q : A → Bool) (xs : List A)
      (a b : A)
      → PairwiseNot r xs
      → find_row p xs ≡ some a
      → find_row q xs ≡ some b
      → r a b ≡ true
      → a ≡ b
  found_same r symmetric p q [] a b u h k s = cc
  found_same r symmetric p q (y ∷ ys) a b u h k s = elim (Bool-cases (p y)) [
    | inl e ↦ elim (Bool-cases (q y)) [
      | inl e' ↦ ground arith
      | inr e' ↦
          let first : y ≡ a = ground arith in
          let there = found-any q (r y) ys b (ground arith) (rw first s) in absurd (cc u.0)
    ]
    | inr e ↦ elim (Bool-cases (q y)) [
      | inl e' ↦
          let first : y ≡ b = ground arith in
          let there = found-any p (r y) ys a (ground arith) (rw (first, symmetric) s) in
          absurd (cc u.0)
      | inr e' ↦ found_same r symmetric p q ys a b u.1 (ground arith) (ground arith) s
    ]
  ]

  -- An update after which no row that it touched passes the test again.
  pub any-update_where_killed :
      (p : A → Bool) (f : A → A) (kills : (a : A) → p (f a) ≡ false) (xs : List A)
      → any p (update_where p f xs) ≡ false
  any-update_where_killed p f kills [] = refl
  any-update_where_killed p f kills (x ∷ xs) =
      ground (arith, kills x, any-update_where_killed p f kills xs)
