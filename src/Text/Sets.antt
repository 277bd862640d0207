-- ===== src/Text/Sets.antt =====
-- Lists of texts as the sets that Go's map[string]bool and sort.Strings make of them.
use my_kb.Prelude.{
  ◌≡◌, refl, ap, ◌∙◌, ◌≤◌, Bool, true, false, All, ◌||◌, ◌&&◌, not, suc, String, ◌==◌, inl, inr,
  List, [], ◌∷◌, map, member, length, insert_ordered, order_by, arith, eq_iff, Bool-cases,
}
use my_kb.Text.{first_of_each}

module _ (k : String) where
  member-insert_ordered :
      (le : String → String → Bool) (x : String) (xs : List String)
      → member k (insert_ordered le x xs) ≡ (x == k || member k xs)
  member-insert_ordered le x [] = refl
  member-insert_ordered le x (y ∷ ys) = elim (Bool-cases (le x y)) [
    | inl e ↦ rw e refl
    | inr e ↦ rw e (let ih = member-insert_ordered le x ys in ground arith)
  ]

  pub member-order_by :
      (le : String → String → Bool) (xs : List String) → member k (order_by le xs) ≡ member k xs
  member-order_by le [] = refl
  member-order_by le (x ∷ xs) =
      member-insert_ordered le x (order_by le xs) ∙ ap (λ b. x == k || b) (member-order_by le xs)

  pub member-first_of_each :
      (seen xs : List String)
      → member k (first_of_each seen xs) ≡ (member k xs && not (member k seen))
  unfolding first_of_each
  member-first_of_each seen [] = refl
  member-first_of_each seen (x ∷ xs) = elim (Bool-cases (member x seen)) [
    | inl e ↦ rw e (
        let ih = member-first_of_each seen xs in
        elim (Bool-cases (x == k)) [
          | inl same ↦ let this = (eq_iff x k).0 same in ground arith
          | inr other ↦ ground arith
        ])
    | inr e ↦ rw e (
        let ih = member-first_of_each (x ∷ seen) xs in
        elim (Bool-cases (x == k)) [
          | inl same ↦
              let this = (eq_iff x k).0 same in
              let new : member k seen ≡ false = rw this at e in ground arith
          | inr other ↦ ground arith
        ])
  ]

-- No text stands twice.
abbrev pub IsDistinct : List String → Type 0
IsDistinct [] = Unit
IsDistinct (x ∷ xs) = (member x xs ≡ false) × IsDistinct xs

IsDistinct-insert :
    (le : String → String → Bool) (x : String) (xs : List String)
    → member x xs ≡ false
    → IsDistinct xs
    → IsDistinct (insert_ordered le x xs)
IsDistinct-insert le x [] h k = (refl, tt)
IsDistinct-insert le x (y ∷ ys) h k = elim (Bool-cases (le x y)) [
  | inl e ↦ rw e (h, k)
  | inr e ↦
      let other = member-insert_ordered y le x ys in
      rw e (ground (arith, eq_iff x y, eq_iff y x), IsDistinct-insert le x ys (ground arith) k.1)
]

pub IsDistinct-order_by :
    (le : String → String → Bool) (xs : List String) → IsDistinct xs → IsDistinct (order_by le xs)
IsDistinct-order_by le [] h = tt
IsDistinct-order_by le (x ∷ xs) h =
    IsDistinct-insert le x (order_by le xs) (member-order_by x le xs ∙ h.0)
      (IsDistinct-order_by le xs h.1)

pub IsDistinct-first_of_each : (seen xs : List String) → IsDistinct (first_of_each seen xs)
unfolding first_of_each
IsDistinct-first_of_each seen [] = tt
IsDistinct-first_of_each seen (x ∷ xs) = elim (Bool-cases (member x seen)) [
  | inl e ↦ rw e (IsDistinct-first_of_each seen xs)
  | inr e ↦
      let own = member-first_of_each x (x ∷ seen) xs in
      rw e (ground (arith, eq_iff x x), IsDistinct-first_of_each (x ∷ seen) xs)
]

length-insert_ordered :
    {A : Type 0} (le : A → A → Bool) (x : A) (xs : List A)
    → length (insert_ordered le x xs) ≡ suc (length xs)
length-insert_ordered le x [] = refl
length-insert_ordered le x (y ∷ ys) = elim (Bool-cases (le x y)) [
  | inl e ↦ rw e refl
  | inr e ↦ rw e (ap suc (length-insert_ordered le x ys))
]

pub length-order_by :
    {A : Type 0} (le : A → A → Bool) (xs : List A) → length (order_by le xs) ≡ length xs
length-order_by le [] = refl
length-order_by le (x ∷ xs) =
    length-insert_ordered le x (order_by le xs) ∙ ap suc (length-order_by le xs)

pub length-first_of_each-le : (seen xs : List String) → length (first_of_each seen xs) ≤ length xs
unfolding first_of_each
length-first_of_each-le seen [] = omega arith
length-first_of_each-le seen (x ∷ xs) = elim (Bool-cases (member x seen)) [
  | inl e ↦ rw e (omega (arith, length-first_of_each-le seen xs))
  | inr e ↦ rw e (omega (arith, length-first_of_each-le (x ∷ seen) xs))
]

module _ {A : Type 0} (key : A → String) (le : String → String → Bool) where
  map-insert_ordered :
      (x : A) (xs : List A)
      → map key (insert_ordered (λ (a : A) (b : A). le (key a) (key b)) x xs)
        ≡ insert_ordered le (key x) (map key xs)
  map-insert_ordered x [] = refl
  map-insert_ordered x (y ∷ ys) = elim (Bool-cases (le (key x) (key y))) [
    | inl e ↦ rw e refl
    | inr e ↦ rw e (ap (λ l. key y ∷ l) (map-insert_ordered x ys))
  ]

  -- Sorting by a key sorts the keys.
  pub map-order_by :
      (xs : List A)
      → map key (order_by (λ (a : A) (b : A). le (key a) (key b)) xs) ≡ order_by le (map key xs)
  map-order_by [] = refl
  map-order_by (x ∷ xs) =
      map-insert_ordered x (order_by (λ (a : A) (b : A). le (key a) (key b)) xs)
      ∙ ap (insert_ordered le (key x)) (map-order_by xs)

-- What holds of each member of a list holds of all its entries.
pub All-member :
    {P : String → Type 0} (xs : List String) → ((k : String) → member k xs ≡ true → P k) → All P xs
All-member [] f = tt
All-member (x ∷ xs) f =
    (f x (ground (arith, eq_iff x x)), All-member xs (λ k m. f k (ground arith)))
