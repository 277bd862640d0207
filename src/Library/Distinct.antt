-- ===== src/Library/Distinct.antt =====
-- internal/library/service.go: the loops that build the view of everything.
use my_kb.Prelude.{
  ◌≡◌, refl, Bool, true, false, String, ◌==◌, inl, inr, List, [], ◌∷◌, ◌++◌, member, any, arith,
  Bool-cases, Option-cases, Option, some, eq_iff,
}
use my_kb.Prelude.Rows.{PairwiseNot}
use my_kb.Result.{Result, ok, err, Result-cases}
use my_kb.Http.{Headers}
use my_kb.Authorization as Decisions
use my_kb.Authorization.{Principal, Decision}
use my_kb.Library.{
  View, everything, KnowledgeBase, Item, Readers, decided_item, after_decision, ids_of, merge,
  items_from, with_item, subscription_items, authorized, with_followed, listing, unpaged,
}

abbrev pub same_item : Item → Item → Bool
same_item a b = a.id == b.id

abbrev pub same_kb : KnowledgeBase → KnowledgeBase → Bool
same_kb a b = a.id == b.id

merge-new :
    (k : String) (seen : List String) (items : List Item)
    → member k seen ≡ true
    → any (λ (i : Item). k == i.id) (merge seen items) ≡ false
unfolding merge
merge-new k seen [] h = refl
merge-new k seen (i ∷ is) h = elim (Bool-cases (member i.id seen)) [
  | inl e ↦ rw e (merge-new k seen is h)
  | inr e ↦ let rest = merge-new k (i.id ∷ seen) is (ground arith) in ground (arith, eq_iff k i.id)
]

merge-distinct : (seen : List String) (items : List Item) → PairwiseNot same_item (merge seen items)
unfolding merge
merge-distinct seen [] = tt
merge-distinct seen (i ∷ is) = elim (Bool-cases (member i.id seen)) [
  | inl e ↦ rw e (merge-distinct seen is)
  | inr e ↦ rw e (
    merge-new i.id (i.id ∷ seen) is (ground (arith, eq_iff i.id i.id)),
    merge-distinct (i.id ∷ seen) is,
  )
]

any-append :
    (p : Item → Bool) (xs ys : List Item)
    → any p xs ≡ false
    → any p ys ≡ false
    → any p (xs ++ ys) ≡ false
any-append p [] ys h k = k
any-append p (x ∷ xs) ys h k = ground (arith, any-append p xs ys)

-- A list without repetitions, followed by one without repetitions and without its members.
append-distinct :
    (seen : List String) (xs ys : List Item)
    → ((k : String) → member k seen ≡ true → any (λ (i : Item). k == i.id) ys ≡ false)
    → ((k : String) → member k (ids_of xs) ≡ true → member k seen ≡ true)
    → PairwiseNot same_item xs
    → PairwiseNot same_item ys
    → PairwiseNot same_item (xs ++ ys)
unfolding ids_of
append-distinct seen [] ys new sub h k = k
append-distinct seen (x ∷ xs) ys new sub h k = (
  any-append (same_item x) xs ys h.0 (new x.id (sub x.id (ground (arith, eq_iff x.id x.id)))),
  append-distinct seen xs ys new (λ k' m. sub k' (ground arith)) h.1 k,
)

module _ {S : Type 0} (readers : Readers S) (p : Principal) (headers : Headers) where
  after_decision-id :
      (view : View) (kb : KnowledgeBase) (r : Result Decisions.Err Decision) (i : Item)
      → after_decision view kb r ≡ ok (some i)
      → i.id ≡ kb.id
  unfolding after_decision decided_item
  after_decision-id view kb (ok d) i h = ground arith
  after_decision-id view kb (err Decisions.Err.not_found) i h = absurd (cc)
  after_decision-id view kb (err Decisions.Err.invalid) i h = absurd (cc)
  after_decision-id view kb (err Decisions.Err.denied) i h = absurd (cc)
  after_decision-id view kb (err Decisions.Err.unavailable) i h = absurd (cc)

  -- One round of the loop that ends well.
  authorized-inv :
      (view : View) (kb : KnowledgeBase) (kbs : List KnowledgeBase) (items : List Item) (s : S)
      → (authorized readers view p headers (kb ∷ kbs) s).0 ≡ ok items
      → (o : Option Item) × (rest : List Item) × (after_decision view kb
            (readers.decide kb.id p headers s).0
          ≡ ok o)
        × ((authorized readers view p headers kbs (readers.decide kb.id p headers s).1).0 ≡ ok rest)
        × (with_item o rest ≡ items)
  unfolding authorized
  authorized-inv view kb kbs items s h =
      let s' = (readers.decide kb.id p headers s).1 in
      elim (Result-cases (after_decision view kb (readers.decide kb.id p headers s).0)) [
        | inr (x, e) ↦ absurd (cc (rw e at h))
        | inl (o, e) ↦ elim (Result-cases (authorized readers view p headers kbs s').0) [
          | inr (x, e') ↦ absurd (cc (rw (e, e') at h))
          | inl (rest, e') ↦ (o, rest, e, e', cc (rw (e, e') at h))
        ]
      ]

  authorized-absent :
      (view : View) (k : String) (kbs : List KnowledgeBase) (items : List Item) (s : S)
      → any (λ (b : KnowledgeBase). k == b.id) kbs ≡ false
      → (authorized readers view p headers kbs s).0 ≡ ok items
      → any (λ (i : Item). k == i.id) items ≡ false
  unfolding with_item
  authorized-absent view k [] items s new h = unfold authorized in ground arith
  authorized-absent view k (kb ∷ kbs) items s new h =
      let (o, rest, e, e', eq) = authorized-inv view kb kbs items s h in
      elim (Option-cases o) [
        | inl skip ↦
            rw (← eq, skip)
              (authorized-absent view k kbs rest (readers.decide kb.id p headers s).1 (ground arith)
                e')
        | inr (i, one) ↦
            let ih =
              authorized-absent view k kbs rest (readers.decide kb.id p headers s).1 (ground arith)
                e' in
            let id =
              after_decision-id view kb (readers.decide kb.id p headers s).0 i (rw one at e) in
            rw (← eq, one) (ground arith)
      ]

  authorized-distinct :
      (view : View) (kbs : List KnowledgeBase) (items : List Item) (s : S)
      → PairwiseNot same_kb kbs
      → (authorized readers view p headers kbs s).0 ≡ ok items
      → PairwiseNot same_item items
  unfolding with_item
  authorized-distinct view [] items s d h =
      let nothing : items ≡ [] = unfold authorized in cc in rw nothing tt
  authorized-distinct view (kb ∷ kbs) items s d h =
      let s' = (readers.decide kb.id p headers s).1 in
      let (o, rest, e, e', eq) = authorized-inv view kb kbs items s h in
      elim (Option-cases o) [
        | inl skip ↦ rw (← eq, skip) (authorized-distinct view kbs rest s' d.1 e')
        | inr (i, one) ↦
            let id =
              after_decision-id view kb (readers.decide kb.id p headers s).0 i (rw one at e) in
            let new : any (same_item i) rest ≡ false =
              rw id (authorized-absent view kb.id kbs rest s' d.0 e') in
            rw (← eq, one) (new, authorized-distinct view kbs rest s' d.1 e')
      ]

  -- In the view of everything, if no two knowledge bases of the upstream's list have one id, no two
  -- entries do, those of the subscriptions included.
  pub unpaged-distinct :
      (kbs : List KnowledgeBase) (items : List Item) (s : S)
      → (readers.list_knowledge_bases headers s).0 ≡ ok kbs
      → PairwiseNot same_kb kbs
      → (unpaged readers everything p headers s).0 ≡ ok items
      → PairwiseNot same_item items
  unfolding unpaged listing with_followed subscription_items
  unpaged-distinct kbs items s read d h =
      let s' = (readers.list_knowledge_bases headers s).1 in
      elim (Result-cases (authorized readers everything p headers kbs s').0) [
        | inr (x, e) ↦ absurd (cc (rw (read, e) at h))
        | inl (found, e) ↦
            let s'' = (authorized readers everything p headers kbs s').1 in
            elim (Result-cases (items_from readers.subscriptions p s'').0) [
              | inr (x, e') ↦ absurd (cc (rw (read, e, e') at h))
              | inl (more, e') ↦
                  let this : found ++ merge (ids_of found) more ≡ items =
                    cc (rw (read, e, e') at h) in
                  rw (← this) (
                    append-distinct (ids_of found) found (merge (ids_of found) more)
                      (λ k m. merge-new k (ids_of found) more m) (λ k m. m)
                      (authorized-distinct everything kbs found s' d e)
                      (merge-distinct (ids_of found) more))
            ]
      ]
