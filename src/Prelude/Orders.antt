-- ===== src/Prelude/Orders.antt =====
-- Laws of the searches, filters and updates of Prelude/Lists: what they keep of every element.
use mathlib.Core.Path.{◌≡◌}
use mathlib.Core.Bool.{Bool, true}
use mathlib.Core.List.{List, [], ◌∷◌}
use mathlib.Core.Logic.{inl, inr}
use my_kb.Prelude.Tests.{Bool-cases}
use my_kb.Prelude.Lists.{All, select, order_by, insert_ordered}

module _ {A : Type 0} (P : A → Type 0) where
  All-insert_ordered :
      (le : A → A → Bool) (x : A) (xs : List A) → P x → All P xs → All P (insert_ordered le x xs)
  All-insert_ordered le x [] h hs = (h, tt)
  All-insert_ordered le x (y ∷ ys) h hs = elim (Bool-cases (le x y)) [
    | inl e ↦ rw e (h, hs)
    | inr e ↦ rw e (hs.0, All-insert_ordered le x ys h hs.1)
  ]

  pub All-order_by : (le : A → A → Bool) (xs : List A) → All P xs → All P (order_by le xs)
  All-order_by le [] hs = tt
  All-order_by le (x ∷ xs) hs =
      All-insert_ordered le x (order_by le xs) hs.0 (All-order_by le xs hs.1)

  pub All-select :
      (q : A → Bool) (holds : (a : A) → q a ≡ true → P a) (xs : List A) → All P (select q xs)
  All-select q holds [] = tt
  All-select q holds (x ∷ xs) = elim (Bool-cases (q x)) [
    | inl e ↦ rw e (holds x e, All-select q holds xs)
    | inr e ↦ rw e (All-select q holds xs)
  ]
