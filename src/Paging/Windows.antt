-- ===== src/Paging/Windows.antt =====
-- internal/library/service.go and internal/catalog/service.go: the pages against windows of the list.
use my_kb.Prelude.{
  ℕ, ◌+◌, ◌-◌, ◌*◌, ◌/◌, ◌≤◌, ◌<◌, ◌≡◌, refl, ◌∙◌, ap, arith, leb, Bool-cases, Option-cases, inl,
  inr, zero, suc, List, [], ◌∷◌, ◌++◌, some, none, Option, length, take, drop, map, All, sym, true,
  false, ◌||◌, ltb, ◌=ℕ=◌, if◌then◌else◌,
}
use my_kb.Paging.{
  word, signed_le, quotient, before_page, cut, Page, paginate, start_of, end_of, slice, is_negative,
}
use mathlib.Core.Option.{some_inj}
use native.Mathlib.Nat.{
  div-le_self, le-div_iff_mul-le, div-lt_iff_lt-mul, zero-add, suc-add, zero-mul, suc-mul,
}

start_fits : (n p s : ℕ) → 1 ≤ s → p ≤ n / s → p * s ≤ n
start_fits n p s h k = (le-div_iff_mul-le (omega arith)).0 k

start_past : (n p s : ℕ) → 1 ≤ s → n / s < p → n < p * s
start_past n p s h k = (div-lt_iff_lt-mul (omega arith)).0 k

end_inside :
    (n start size : ℕ)
    → start + size ≤ n
    → n + 100 < 9223372036854775808
    → end_of n start size ≡ start + size
unfolding end_of
end_inside n start size h bound = ground arith

end_cut :
    (n start size : ℕ)
    → n < start + size
    → size ≤ 100
    → start ≤ n
    → n + 100 < 9223372036854775808
    → end_of n start size ≡ n
unfolding end_of
end_cut n start size h small fits bound = ground arith

before_page-valid : (page : ℕ) → 1 ≤ page → page < 9223372036854775808 → before_page page ≡ page - 1
before_page-valid page h k = omega arith

quotient-valid : (n size : ℕ) → size ≤ 100 → quotient n size ≡ n / size
unfolding quotient
quotient-valid n size h = ground arith

signed_le-small :
    (a b : ℕ) → a < 9223372036854775808 → b < 9223372036854775808 → signed_le a b ≡ leb a b
signed_le-small a b h k = ground arith

start_of-valid :
    (n page size : ℕ)
    → 1 ≤ page
    → page < 9223372036854775808
    → 1 ≤ size
    → size ≤ 100
    → n + 100 < 9223372036854775808
    → start_of n page size ≡ (if leb (page - 1) (n / size) then word ((page - 1) * size) else n)
unfolding start_of
start_of-valid n page size first bounded some_size small bound =
    let low : n / size ≤ n = div-le_self n size in
    rw
      (
        start_of,
        before_page-valid page first bounded,
        quotient-valid n size small,
        signed_le-small (page - 1) (n / size) (omega arith) (omega arith),
      )
      refl

start_inside :
    (n page size : ℕ)
    → leb (page - 1) (n / size) ≡ true
    → (page - 1) * size ≤ n
    → n + 100 < 9223372036854775808
    → (if leb (page - 1) (n / size) then word ((page - 1) * size) else n) ≡ (page - 1) * size
start_inside n page size e fits bound = rw e (omega arith)

slice_fits :
    (start end n : ℕ)
    → start ≤ end
    → end ≤ n
    → n + 100 < 9223372036854775808
    → (is_negative start || is_negative end || ltb end start || ltb n end) ≡ false
slice_fits start end n low high bound = ground arith

module _ {ℓ} {A : Type ℓ} where
  length-drop : (k : ℕ) (xs : List A) → length (drop k xs) ≡ length xs - k
  length-drop zero xs = omega arith
  length-drop (suc k) [] = omega arith
  length-drop (suc k) (x ∷ xs) = omega (arith, length-drop k xs)

  take_all : (k : ℕ) (xs : List A) → length xs ≤ k → take k xs ≡ xs
  take_all zero [] h = refl
  take_all zero (x ∷ xs) h = absurd (omega arith)
  take_all (suc k) [] h = refl
  take_all (suc k) (x ∷ xs) h = ap (λ ys. x ∷ ys) (take_all k xs (omega arith))

  drop_all : (k : ℕ) (xs : List A) → length xs ≤ k → drop k xs ≡ []
  drop_all zero [] h = refl
  drop_all zero (x ∷ xs) h = absurd (omega arith)
  drop_all (suc k) [] h = refl
  drop_all (suc k) (x ∷ xs) h = drop_all k xs (omega arith)

  take-add : (i j : ℕ) (xs : List A) → take (i + j) xs ≡ take i xs ++ take j (drop i xs)
  take-add zero j xs = rw zero-add refl
  take-add (suc i) zero [] = simp suc-add refl
  take-add (suc i) (suc j) [] = simp suc-add refl
  take-add (suc i) j (x ∷ xs) = simp suc-add (ap (λ ys. x ∷ ys) (take-add i j xs))

  -- The window of the list that a page shows.
  abbrev pub window : List A → ℕ → ℕ → List A
  window xs page page_size = take page_size (drop ((page - 1) * page_size) xs)

  slice-ok :
      (xs : List A) (start end : ℕ)
      → start ≤ end
      → end ≤ length xs
      → length xs + 100 < 9223372036854775808
      → slice start end xs ≡ some (take (end - start) (drop start xs))
  unfolding slice
  slice-ok xs start end low high bound = rw (slice_fits start end (length xs) low high bound) refl

  slice-window :
      (xs : List A) (start page_size : ℕ)
      → start ≤ length xs
      → page_size ≤ 100
      → length xs + 100 < 9223372036854775808
      → slice start (end_of (length xs) start page_size) xs ≡ some (take page_size (drop start xs))
  slice-window xs start page_size fits small bound =
      elim (Bool-cases (leb (start + page_size) (length xs))) [
        | inl e ↦ rw (end_inside (length xs) start page_size (ground arith) bound) (
            slice-ok xs start (start + page_size) (omega arith) (ground arith) bound
            ∙ ap (λ k. some (take k (drop start xs))) (omega arith))
        | inr e ↦ rw (end_cut (length xs) start page_size (ground arith) small fits bound) (
            slice-ok xs start (length xs) fits (omega arith) bound
            ∙ ap some (
                take_all (length xs - start) (drop start xs) (omega (arith, length-drop start xs))
                ∙ sym (take_all page_size (drop start xs) (ground (arith, length-drop start xs)))))
      ]

  -- For page numbers and page sizes as validated (positive numbers of Go's int, at most 100 to a
  -- page), paginate never
  -- panics and never wraps around: it returns the window of the list at that page, the total and
  -- the numbers that it was given, past the last page too, where the window is empty.
  pub paginate-window :
      (xs : List A) (page page_size : ℕ)
      → 1 ≤ page
      → page < 9223372036854775808
      → 1 ≤ page_size
      → page_size ≤ 100
      → length xs + 100 < 9223372036854775808
      → paginate xs page page_size
        ≡ some (record {
          items = window xs page page_size;
          total = length xs;
          page = page;
          page_size = page_size;
        })
  unfolding paginate cut
  paginate-window xs page page_size first bounded some_size small bound =
      let start = start_of-valid (length xs) page page_size first bounded some_size small bound in
      let sized : (page_size =ℕ= 0) ≡ false = ground arith in
      elim (Bool-cases (leb (page - 1) (length xs / page_size))) [
        | inl e ↦
            let fits = start_fits (length xs) (page - 1) page_size some_size (ground arith) in
            let here = start ∙ start_inside (length xs) page page_size e fits bound in
            rw
              (
                paginate,
                cut,
                sized,
                here,
                slice-window xs ((page - 1) * page_size) page_size fits small bound,
              )
              refl
        | inr e ↦
            let past = start_past (length xs) (page - 1) page_size some_size (ground arith) in
            let here : start_of (length xs) page page_size ≡ length xs = start ∙ rw e refl in
            let nothing : window xs page page_size ≡ [] =
              ap (take page_size) (drop_all ((page - 1) * page_size) xs (omega arith))
              ∙ take_all page_size [] (omega arith) in
            let nothing' : take page_size (drop (length xs) xs) ≡ [] =
              ap (take page_size) (drop_all (length xs) xs (omega arith))
              ∙ take_all page_size [] (omega arith) in
            rw
              (
                paginate,
                cut,
                sized,
                here,
                slice-window xs (length xs) page_size (omega arith) small bound,
                nothing,
                nothing',
              )
              refl
      ]

  -- A client's pages 1 to n, one after the other; `none` where a request panics.
  abbrev pub read_pages : List A → ℕ → ℕ → Option (List A)
  read_pages xs page_size zero = some []
  read_pages xs page_size (suc n) = elim (read_pages xs page_size n) [
    | none ↦ none
    | some before ↦ elim (paginate xs (suc n) page_size) [
      | none ↦ none
      | some page ↦ some (before ++ page.items)
    ]
  ]

  -- The pages 1 to n of one list, put one after the other, are the first n * page_size entries of
  -- the list: no page panics, and no entry is missed or shown twice, for page sizes from 1 to 100
  -- and page numbers that fit in an int.
  pub read_pages-take :
      (xs : List A) (page_size n : ℕ)
      → n < 9223372036854775808
      → 1 ≤ page_size
      → page_size ≤ 100
      → length xs + 100 < 9223372036854775808
      → read_pages xs page_size n ≡ some (take (n * page_size) xs)
  read_pages-take xs page_size zero known some_size small bound = rw zero-mul refl
  read_pages-take xs page_size (suc n) known some_size small bound =
      let this : suc n - 1 ≡ n = omega arith in
      let more : suc n * page_size ≡ n * page_size + page_size = suc-mul n page_size in
      rw (read_pages-take xs page_size n (omega arith) some_size small bound) (
        rw
          (
            paginate-window xs (suc n) page_size (omega arith) known some_size small bound,
            this,
            more,
          )
          (ap some (sym (take-add (n * page_size) page_size xs))))

module _ {A B : Type 0} (f : A → B) where
  map-take : (k : ℕ) (xs : List A) → map f (take k xs) ≡ take k (map f xs)
  map-take zero xs = refl
  map-take (suc k) [] = refl
  map-take (suc k) (x ∷ xs) = ap (λ ys. f x ∷ ys) (map-take k xs)

  map-drop : (k : ℕ) (xs : List A) → map f (drop k xs) ≡ drop k (map f xs)
  map-drop zero xs = refl
  map-drop (suc k) [] = refl
  map-drop (suc k) (x ∷ xs) = map-drop k xs

  pub map-window :
      (xs : List A) (page page_size : ℕ)
      → map f (window xs page page_size) ≡ window (map f xs) page page_size
  map-window xs page page_size =
      map-take page_size (drop ((page - 1) * page_size) xs)
      ∙ ap (take page_size) (map-drop ((page - 1) * page_size) xs)

  pub length-map : (xs : List A) → length (map f xs) ≡ length xs
  length-map [] = refl
  length-map (x ∷ xs) = ap suc (length-map xs)

module _ {A : Type 0} (P : A → Type 0) where
  All-take : (k : ℕ) (xs : List A) → All P xs → All P (take k xs)
  All-take zero xs h = tt
  All-take (suc k) [] h = tt
  All-take (suc k) (x ∷ xs) h = (h.0, All-take k xs h.1)

  All-drop : (k : ℕ) (xs : List A) → All P xs → All P (drop k xs)
  All-drop zero xs h = h
  All-drop (suc k) [] h = tt
  All-drop (suc k) (x ∷ xs) h = All-drop k xs h.1

  pub All-window : (xs : List A) (page page_size : ℕ) → All P xs → All P (window xs page page_size)
  All-window xs page page_size h =
      All-take page_size (drop ((page - 1) * page_size) xs) (All-drop ((page - 1) * page_size) xs h)

  slice-All : (start end : ℕ) (xs ys : List A) → All P xs → slice start end xs ≡ some ys → All P ys
  unfolding slice
  slice-All start end xs ys h e =
      elim (Bool-cases
        (is_negative start || is_negative end || ltb end start || ltb (length xs) end)) [
          | inl bad ↦ absurd (cc (rw bad at e))
          | inr good ↦
              let this : take (end - start) (drop start xs) ≡ ys = cc (rw good at e) in
              rw (← this) (All-take (end - start) (drop start xs) (All-drop start xs h))
        ]

  -- What holds of all entries holds of those on a page.
  pub paginate-All :
      (xs : List A) (page page_size : ℕ) (result : Page A)
      → paginate xs page page_size ≡ some result
      → All P xs
      → All P result.items
  unfolding paginate cut
  paginate-All xs page page_size result e h =
      let start = start_of (length xs) page page_size in
      let end = end_of (length xs) start page_size in
      elim (Bool-cases (page_size =ℕ= 0)) [
        | inl division ↦ absurd (cc (rw (paginate, cut, division) at e))
        | inr sized ↦ elim (Option-cases (slice start end xs)) [
          | inl bad ↦ absurd (cc (rw (paginate, cut, sized, bad) at e))
          | inr (ys, good) ↦
              let this : ys ≡ result.items =
                ap (λ (r : Page A). r.items) (some_inj.0 (rw (paginate, cut, sized, good) at e)) in
              rw (← this) (slice-All start end xs ys h good)
        ]
      ]
