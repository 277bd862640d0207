-- ===== src/Text.antt =====
-- The functions of Go's strings package that the gateway uses on its texts.
pub mod Sets
use Prim.Native.Char.{Char, code}
use Prim.Native.String.{[], ◌∷◌, ◌++◌}
use text.Mathlib.Text.{starts_with}
use Prim.Native.String.{compare}
use Prim.Native.Nat.{Ordering}
use my_kb.Prelude.{
  false, member, true, List, arith, eq_iff, Bool, ◌||◌, ◌&&◌, String, ◌==◌, ◌=ℕ=◌, leb,
  if◌then◌else◌, ◌≡◌, refl,
}

-- unicode.IsSpace
is_space : Char → Bool
is_space c =
    let n = code c in
    (leb 9 n && leb n 13)
    || n =ℕ= 32
    || n =ℕ= 0x85
    || n =ℕ= 0xa0
    || n =ℕ= 0x1680
    || (leb 0x2000 n && leb n 0x200a)
    || n =ℕ= 0x2028
    || n =ℕ= 0x2029
    || n =ℕ= 0x202f
    || n =ℕ= 0x205f
    || n =ℕ= 0x3000

trim_left : String → String
unfolding is_space
trim_left [] = []
trim_left (c ∷ s) = let rest = trim_left s in if is_space c then rest else c ∷ s

trim_right : String → String
unfolding is_space
trim_right [] = []
trim_right (c ∷ s) = let rest = trim_right s in if is_space c && rest == "" then [] else c ∷ rest

-- strings.TrimSpace
unfoldable pub trim_space : String → String
unfolding trim_left trim_right
trim_space s = trim_right (trim_left s)

-- strings.TrimSpace(s) == ""
unfoldable pub is_blank : String → Bool
unfolding trim_space
is_blank s = trim_space s == ""

trim_space_example : trim_space " \t a b\n" ≡ "a b"
unfolding trim_space
trim_space_example = refl

-- strings.Contains
unfoldable pub contains : String → String → Bool
contains [] part = part == ""
contains (c ∷ s) part = starts_with (c ∷ s) part || contains s part

-- strings.Join
unfoldable pub join : List String → String → String
join List.[] separator = ""
join (List.◌∷◌ x xs) separator = elim xs [
  | List.[] ↦ x
  | List.◌∷◌ y ys ↦ x ++ separator ++ join xs separator
]

-- strings.Split by one character.
split_from : Char → String → String → List String
split_from c part [] = List.◌∷◌ part List.[]
split_from c part (d ∷ s) =
    let closed = split_from c "" s in
    let longer = split_from c (part ++ (d ∷ [])) s in
    if code c =ℕ= code d then List.◌∷◌ part closed else longer

unfoldable pub split : Char → String → List String
unfolding split_from
split c s = split_from c "" s

contains_example : contains "a budget\nplan" "get" ≡ true
unfolding contains
contains_example = refl

join_example : join (List.◌∷◌ "a" (List.◌∷◌ "b" List.[])) " " ≡ "a b"
unfolding join
join_example = refl

pub ==_sym : (s t : String) → (s == t) ≡ (t == s)
==_sym s t = ground (arith, eq_iff s t, eq_iff t s)

-- The order of Go's `<=` on strings, which is that of their bytes.
abbrev pub at_most : String → String → Bool
at_most s t = elim (compare s t) [ Ordering.gt ↦ false | _ ↦ true ]

-- The loops that keep the first of equal texts, with the keys of their `seen` maps.
unfoldable pub first_of_each : List String → List String → List String
first_of_each seen List.[] = List.[]
first_of_each seen (List.◌∷◌ x xs) =
    let again = first_of_each seen xs in
    let first = List.◌∷◌ x (first_of_each (List.◌∷◌ x seen) xs) in
    if member x seen then again else first
