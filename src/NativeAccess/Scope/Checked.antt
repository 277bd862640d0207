-- ===== src/NativeAccess/Scope/Checked.antt =====
-- internal/nativeaccess/scope.go: which ids come out of Resolve and CheckSession.
use my_kb.Prelude.{
  ◌≡◌, refl, ◌∙◌, Bool, true, false, ◌&&◌, not, String, ◌==◌, ltb, inl, inr, List, [], ◌∷◌, ◌++◌,
  All, member, length, Bool-cases,
}
use my_kb.Prelude.Orders.{All-order_by}
use my_kb.Result.{Result, ok, err, fail_if, fail_if-ok, Result-cases}
use my_kb.Text.{at_most, first_of_each}
use my_kb.Text.Sets.{member-order_by, member-first_of_each}
use my_kb.Http.{Headers}
use my_kb.Json.{Fields}
use my_kb.NativeAccess.{Actor, Err}
use my_kb.NativeAccess.Scope.Values.{
  unique, upstream_denied, unlisted, serves, needs_rag, needs_wiki,
}
use my_kb.NativeAccess.Scope.{
  Native, check_kb, check_all, after_check, available_of, available, after_shared, defaults,
  list_ids, compatible_of, compatible, read_kb, too_large,
}
use my_kb.NativeAccess.Scope.Resolution.{narrowed}

and-true : (b : Bool) → (b && true) ≡ b
and-true true = refl
and-true false = refl

pub member-unique : (k : String) (ids : List String) → member k (unique ids) ≡ member k ids
unfolding unique
member-unique k ids =
    member-order_by k at_most (first_of_each [] ids)
    ∙ member-first_of_each k [] ids
    ∙ and-true (member k ids)

module _ (P : String → Type 0) where
  All-first_of_each : (seen ids : List String) → All P ids → All P (first_of_each seen ids)
  unfolding first_of_each
  All-first_of_each seen [] h = tt
  All-first_of_each seen (x ∷ xs) h = elim (Bool-cases (member x seen)) [
    | inl e ↦ rw e (All-first_of_each seen xs h.1)
    | inr e ↦ rw e (h.0, All-first_of_each (x ∷ seen) xs h.1)
  ]

  pub All-unique : (ids : List String) → All P ids → All P (unique ids)
  unfolding unique
  All-unique ids h = All-order_by P at_most (first_of_each [] ids) (All-first_of_each [] ids h)

module _ {S : Type 0} (native : Native S) (h : Headers) where
  -- The upstream showed the knowledge base to the credentials of the request, when CheckKB asked.
  pub record Shown (id : String) : Type 0 where
    pub at : S
    pub checked : (check_kb native h id at).0 ≡ ok tt

  pub check_all-Shown :
      (ids : List String) (s : S) → (check_all native h ids s).0 ≡ ok tt → All Shown ids
  unfolding check_all
  check_all-Shown [] s e = tt
  check_all-Shown (id ∷ ids) s e = elim (Result-cases (check_kb native h id s).0) [
    | inr (x, k) ↦ absurd (cc (rw k at e))
    | inl (u, k) ↦
        (record { at = s; checked = k }, check_all-Shown ids (check_kb native h id s).1 (rw k at e))
  ]

  available_of-Shown :
      (ids result : List String) (s : S)
      → (available_of native h ids s).0 ≡ ok result
      → All Shown result
  unfolding available_of after_check
  available_of-Shown [] result s e = let nothing : result ≡ [] = cc in rw nothing tt
  available_of-Shown (id ∷ ids) result s e =
      let s' = (check_kb native h id s).1 in
      elim (Result-cases (check_kb native h id s).0) [
        | inl (u, k) ↦ elim (Result-cases (available_of native h ids s').0) [
          | inr (x, k') ↦ absurd (cc (rw (k, k') at e))
          | inl (rest, k') ↦
              let this : id ∷ rest ≡ result = cc (rw (k, k') at e) in
              rw (← this) (record { at = s; checked = k }, available_of-Shown ids rest s' k')
        ]
        | inr (x, k) ↦ elim (Bool-cases (upstream_denied x)) [
          | inl gone ↦ available_of-Shown ids result s' (rw (k, gone) at e)
          | inr bad ↦ absurd (cc (rw (k, bad) at e))
        ]
      ]

  pub available-Shown :
      (ids result : List String) (s : S)
      → (available native h ids s).0 ≡ ok result
      → All Shown result
  unfolding available
  available-Shown ids result s e = available_of-Shown (unique ids) result s e

  after_shared-Shown :
      (ids : List String) (shared : Result Err (List String)) (result : List String) (s : S)
      → (after_shared native h ids shared s).0 ≡ ok result
      → All Shown result
  unfolding after_shared
  after_shared-Shown ids (ok shared) result s e =
      let both = unique (ids ++ shared) in
      let (few, e') =
        fail_if-ok (ltb 256 (length both)) too_large (available native h both) s result e in
      available-Shown both result s e'
  after_shared-Shown ids (err x) result s e =
      let own = unique ids in
      let rest = fail_if (ltb 256 (length own)) too_large (available native h own) in
      let (named, e') = fail_if-ok (not (unlisted h x)) x rest s result e in
      let (few, e'') =
        fail_if-ok (ltb 256 (length own)) too_large (available native h own) s result e' in
      available-Shown own result s e''

  pub defaults-Shown :
      (result : List String) (s : S) → (defaults native h s).0 ≡ ok result → All Shown result
  unfolding defaults
  defaults-Shown result s e =
      elim (Result-cases (list_ids native h "/api/v1/knowledge-bases" [] s).0) [
        | inr (x, k) ↦ absurd (cc (rw k at e))
        | inl (ids, k) ↦
            let s' = (list_ids native h "/api/v1/knowledge-bases" [] s).1 in
            let call = list_ids native h "/api/v1/shared-knowledge-bases" [] s' in
            after_shared-Shown ids call.0 result call.1 (rw k at e)
      ]

  compatible_of-All :
      (P : String → Type 0) (rag wiki : Bool) (ids result : List String) (s : S)
      → All P ids
      → (compatible_of native h rag wiki ids s).0 ≡ ok result
      → All P result
  unfolding compatible_of
  compatible_of-All P rag wiki [] result s p e = let nothing : result ≡ [] = cc in rw nothing tt
  compatible_of-All P rag wiki (id ∷ ids) result s p e =
      elim (Result-cases (read_kb native h id s).0) [
        | inr (x, k) ↦ absurd (cc (rw k at e))
        | inl (value, k) ↦
            let s' = (read_kb native h id s).1 in
            elim (Result-cases (serves rag wiki value)) [
              | inr (x, k') ↦ absurd (cc (rw (k, k') at e))
              | inl (fits, k') ↦ elim (Result-cases (compatible_of native h rag wiki ids s').0) [
                | inr (x, k'') ↦ absurd (cc (rw (k, k', k'') at e))
                | inl (rest, k'') ↦
                    let ih = compatible_of-All P rag wiki ids rest s' p.1 k'' in
                    elim (Bool-cases fits) [
                      | inl yes_it ↦
                          let this : id ∷ rest ≡ result = cc (rw (k, k', k'', yes_it) at e) in
                          rw (← this) (p.0, ih)
                      | inr no_it ↦
                          let this : rest ≡ result = cc (rw (k, k', k'', no_it) at e) in
                          rw (← this) ih
                    ]
              ]
            ]
      ]

  pub narrowed-All :
      (P : String → Type 0) (actor : Actor) (mode : String) (ids result : List String)
      (config : Fields) (s : S)
      → All P ids
      → (narrowed native h actor mode ids config s).0 ≡ ok result
      → All P result
  unfolding narrowed compatible
  narrowed-All P actor mode ids result config s p e = elim (Bool-cases (mode == "all")) [
    | inr other ↦ let this : ids ≡ result = cc (rw other at e) in rw (← this) p
    | inl every ↦ elim (Bool-cases (not (needs_rag config) && not (needs_wiki config))) [
      | inl neither ↦ let this : ids ≡ result = cc (rw (every, neither) at e) in rw (← this) p
      | inr some_need ↦
          compatible_of-All P (needs_rag config) (needs_wiki config) ids result s p
            (rw (every, some_need) at e)
    ]
  ]
