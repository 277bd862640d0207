-- ===== src/NativeAccess/Routes/Specific.antt =====
-- internal/nativeaccess/routes.go: the order of the table, and the routes that it is made of.
use my_kb.Prelude.{
  ℕ, ◌≡◌, ◌≤◌, ◌⊎◌, true, false, String, some, inl, inr, List, [], ◌∷◌, All, find_row,
  insert_ordered, order_by, arith, Bool-cases,
}
use mathlib.Core.Path.{subst}
use my_kb.Prelude.Rows.{find_row-holds}
use my_kb.NativeAccess.Routes.{Route, specificity, ahead, sorted, accepts, match_route}

abbrev score : Route → ℕ
score r = specificity r.entry.path

-- No route stands after a less specific one.
abbrev IsSorted : List Route → Type 0
IsSorted [] = Unit
IsSorted (r ∷ rs) = All (λ (q : Route). score q ≤ score r) rs × IsSorted rs

module _ (P : Route → Type 0) where
  All-insert : (x : Route) (xs : List Route) → P x → All P xs → All P (insert_ordered ahead x xs)
  All-insert x [] h k = (h, tt)
  All-insert x (y ∷ ys) h k = elim (Bool-cases (ahead x y)) [
    | inl e ↦ rw e (h, k)
    | inr e ↦ rw e (k.0, All-insert x ys h k.1)
  ]

  All-uninsert : (x : Route) (xs : List Route) → All P (insert_ordered ahead x xs) → P x × All P xs
  All-uninsert x [] h = (h.0, tt)
  All-uninsert x (y ∷ ys) h = elim (Bool-cases (ahead x y)) [
    | inl e ↦ let k = rw e at h in (k.0, k.1)
    | inr e ↦ let k = rw e at h in let rest = All-uninsert x ys k.1 in (rest.0, (k.0, rest.1))
  ]

  -- What holds of the sorted table holds of the routes that it was made of.
  All-unorder : (xs : List Route) → All P (order_by ahead xs) → All P xs
  All-unorder [] h = tt
  All-unorder (x ∷ xs) h =
      let (own, rest) = All-uninsert x (order_by ahead xs) h in (own, All-unorder xs rest)

All-weaken :
    (a b : ℕ)
    → a ≤ b
    → (rs : List Route) → All (λ (q : Route). score q ≤ a) rs
    → All (λ (q : Route). score q ≤ b) rs
All-weaken a b h [] k = tt
All-weaken a b h (r ∷ rs) k = (omega (arith, k.0), All-weaken a b h rs k.1)

insert-IsSorted : (x : Route) (xs : List Route) → IsSorted xs → IsSorted (insert_ordered ahead x xs)
unfolding ahead
insert-IsSorted x [] h = (tt, tt)
insert-IsSorted x (y ∷ ys) h = elim (Bool-cases (ahead x y)) [
  | inl e ↦
      let above : score y ≤ score x = ground arith in
      rw e ((above, All-weaken (score y) (score x) above ys h.0), h)
  | inr e ↦
      let below : score x ≤ score y = ground arith in
      rw e (All-insert (λ (q : Route). score q ≤ score y) x ys below h.0, insert-IsSorted x ys h.1)
]

order_by-IsSorted : (xs : List Route) → IsSorted (order_by ahead xs)
order_by-IsSorted [] = tt
order_by-IsSorted (x ∷ xs) = insert-IsSorted x (order_by ahead xs) (order_by-IsSorted xs)

-- A route that accepts the request is at most as specific as `r`.
abbrev pub NoMoreSpecific : String → String → Route → Route → Type 0
NoMoreSpecific method path r q =
    (accepts method path q ≡ false) ⊎ (specificity q.entry.path ≤ specificity r.entry.path)

all_below :
    (method path : String) (r : Route) (rs : List Route)
    → All (λ (q : Route). score q ≤ score r) rs
    → All (NoMoreSpecific method path r) rs
all_below method path r [] h = tt
all_below method path r (q ∷ qs) h = (inr h.0, all_below method path r qs h.1)

first_match :
    (method path : String) (rs : List Route) (r : Route)
    → IsSorted rs
    → find_row (accepts method path) rs ≡ some r
    → All (NoMoreSpecific method path r) rs
first_match method path [] r h e = tt
first_match method path (q ∷ qs) r h e = elim (Bool-cases (accepts method path q)) [
  | inl hit ↦
      let this : q ≡ r = ground arith in
      subst (λ x. All (NoMoreSpecific method path x) (q ∷ qs)) this
        (inr (omega arith), all_below method path q qs h.0)
  | inr miss ↦ (inl miss, first_match method path qs r h.1 (rw miss at e))
]

-- The route that Match finds in the sorted table accepts the method and the path, and no route of
-- the manifest that accepts them is more specific.
pub match-most_specific :
    (routes : List Route) (method path : String) (r : Route)
    → match_route method path (sorted routes) ≡ some r
    → (accepts method path r ≡ true) × All (NoMoreSpecific method path r) routes
unfolding sorted match_route
match-most_specific routes method path r found = (
  find_row-holds (accepts method path) (order_by ahead routes) r found,
  All-unorder (NoMoreSpecific method path r) routes
      (first_match method path (order_by ahead routes) r (order_by-IsSorted routes) found),
)
