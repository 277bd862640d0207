-- ===== src/Paging.antt =====
-- internal/library/service.go and internal/catalog/service.go: the page that List cuts out.
-- A Go int is 64 bits wide: a value from 2 ^ 63 up stands for a negative number.
pub mod Windows
use my_kb.Prelude.{
  ℕ, ◌+◌, ◌-◌, ◌*◌, ◌/◌, ◌%◌, Bool, true, false, ◌&&◌, ◌||◌, not, ltb, leb, ◌=ℕ=◌, Option, none,
  some, List, length, take, drop, if◌then◌else◌,
}

abbrev pub word : ℕ → ℕ
word n = n % 18446744073709551616

abbrev pub is_negative : ℕ → Bool
is_negative n = leb 9223372036854775808 n

-- `items[start:end]`, which panics where the bounds do not fit.
unfoldable pub slice {ℓ} : {A : Type ℓ} → ℕ → ℕ → List A → Option (List A)
slice start end xs =
    if is_negative start || is_negative end || ltb end start || ltb (length xs) end
    then none
    else some (take (end - start) (drop start xs))

pub record Page {ℓ} (A : Type ℓ) : Type ℓ where
  pub items : List A
  pub total : ℕ
  pub page : ℕ
  pub page_size : ℕ

-- `a <= b` of Go's int: the words moved up by 2 ^ 63 are in the order of the signed numbers.
abbrev pub signed_le : ℕ → ℕ → Bool
signed_le a b = leb (word (a + 9223372036854775808)) (word (b + 9223372036854775808))

-- `len(items) / size`, which rounds towards zero.
unfoldable pub quotient : ℕ → ℕ → ℕ
quotient total size =
    if is_negative size
    then word (18446744073709551616 - total / (18446744073709551616 - size))
    else total / size

-- `page - 1`
abbrev pub before_page : ℕ → ℕ
before_page page = word (page + 18446744073709551615)

-- `start` of paginate and of List.
unfoldable pub start_of : ℕ → ℕ → ℕ → ℕ
unfolding quotient
start_of total page page_size =
    if signed_le (before_page page) (quotient total page_size)
    then word (before_page page * page_size)
    else total

-- `end` of paginate and of List.
unfoldable pub end_of : ℕ → ℕ → ℕ → ℕ
end_of total start page_size =
    let end = word (start + page_size) in
    if not (is_negative end) && ltb total end then total else end

-- The items that paginate cuts out; `none` where the division by zero or the slice expression
-- panics.
unfoldable pub cut {ℓ} : {A : Type ℓ} → List A → ℕ → ℕ → Option (List A)
unfolding start_of end_of slice
cut xs page page_size =
    let total = length xs in
    let start = start_of total page page_size in
    if page_size =ℕ= 0 then none else slice start (end_of total start page_size) xs

-- paginate
unfoldable pub paginate {ℓ} : {A : Type ℓ} → List A → ℕ → ℕ → Option (Page A)
unfolding cut
paginate xs page page_size = elim (cut xs page page_size) [
  | none ↦ none
  | some items ↦
      some (record { items = items; total = length xs; page = page; page_size = page_size })
]
