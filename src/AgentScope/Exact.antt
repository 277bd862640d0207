-- ===== src/AgentScope/Exact.antt =====
-- internal/agentscope/resolver.go: the scope against the request.
use my_kb.Prelude.{
  ◌≡◌, refl, ap, ◌∙◌, ◌≤◌, ◌||◌, suc, len, String, ◌==◌, ◌=ℕ=◌, ltb, inl, inr, List, [], ◌∷◌, map,
  member, length, All, order_by, arith, Bool-cases,
}
use my_kb.Prelude.Orders.{All-order_by}
use my_kb.Result.{ok, Result-cases}
use my_kb.Text.{trim_space, at_most, first_of_each}
use my_kb.Text.Sets.{
  IsDistinct, IsDistinct-order_by, IsDistinct-first_of_each, member-order_by, member-first_of_each,
  length-order_by, length-first_of_each-le, map-order_by,
}
use my_kb.Http.{Headers}
use my_kb.Authorization as Decisions
use my_kb.Authorization.{Principal, Decision, read}
use my_kb.AgentScope.{
  explicit, Entry, Scope, Readers, trimmed, normalize_ids, before, scope_of, after_authorize,
  authorize_all, resolve_explicit,
}

trimmed-ok : (values ids : List String) → trimmed values ≡ ok ids → ids ≡ map trim_space values
unfolding trimmed
trimmed-ok [] ids h = ground arith
trimmed-ok (v ∷ vs) ids h = elim (Bool-cases (trim_space v == "" || ltb 128 (len (trim_space v)))) [
  | inl e ↦ absurd (cc (rw e at h))
  | inr e ↦ elim (Result-cases (trimmed vs)) [
    | inr (x, e') ↦ absurd (cc (rw (trimmed, e, e') at h))
    | inl (rest, e') ↦
        let ih = trimmed-ok vs rest e' in
        let this : trim_space v ∷ rest ≡ ids = cc (rw (trimmed, e, e') at h) in rw (← this, ih) refl
  ]
]

-- The ids of a request as normalizeIDs leaves them.
pub record Normal (values ids : List String) : Type 0 where
  pub same : (k : String) → member k ids ≡ member k (map trim_space values)
  pub distinct : IsDistinct ids
  pub few : length ids ≤ 64

length-map : (f : String → String) (xs : List String) → length (map f xs) ≡ length xs
length-map f [] = refl
length-map f (x ∷ xs) = ap suc (length-map f xs)

normalize_ids-Normal :
    (values ids : List String) → normalize_ids values ≡ ok ids → Normal values ids
unfolding normalize_ids
normalize_ids-Normal values ids h =
    elim (Bool-cases (length values =ℕ= 0 || ltb 64 (length values))) [
      | inl bad ↦ absurd (ground arith)
      | inr good ↦ elim (Result-cases (trimmed values)) [
        | inr (x, e) ↦ absurd (cc (rw (normalize_ids, good, e) at h))
        | inl (ts, e) ↦
            let this : order_by at_most (first_of_each [] ts) ≡ ids =
              cc (rw (normalize_ids, good, e) at h) in
            let plain = trimmed-ok values ts e in
            rw (← this) (record {
              same = λ k.
                  member-order_by k at_most (first_of_each [] ts)
                  ∙ member-first_of_each k [] ts
                  ∙ (let b = ap (member k) plain in ground arith);
              distinct =
                  IsDistinct-order_by at_most (first_of_each [] ts)
                    (IsDistinct-first_of_each [] ts);
              few =
                  let count = ap length plain ∙ length-map trim_space values in
                  ground (
                    arith,
                    length-order_by at_most (first_of_each [] ts),
                    length-first_of_each-le [] ts,
                  );
            })
      ]
    ]

Normal-sorted :
    (values ids : List String) → Normal values ids → Normal values (order_by at_most ids)
Normal-sorted values ids n = record {
  same = λ k. member-order_by k at_most ids ∙ n.same k;
  distinct = IsDistinct-order_by at_most ids n.distinct;
  few = omega (arith, n.few, length-order_by at_most ids);
}

module _ {S : Type 0} (readers : Readers S) (p : Principal) (headers : Headers) where
  -- An entry whose knowledge base the principal was authorized to read, with the role and the
  -- source of that decision.
  pub record Authorized (entry : Entry) : Type 0 where
    pub at : S
    pub decision : Decision
    pub made : (readers.authorize entry.knowledge_base_id p read headers at).0 ≡ ok decision
    pub role : entry.role ≡ decision.role
    pub source : entry.access_source ≡ decision.source

  after_authorize-ok :
      (id : String) (s : S) (entry : Entry)
      → after_authorize id (readers.authorize id p read headers s).0 ≡ ok entry
      → Authorized entry × (entry.knowledge_base_id ≡ id)
  unfolding after_authorize
  after_authorize-ok id s entry h = elim (Result-cases (readers.authorize id p read headers s).0) [
    | inl (d, e) ↦
        let this = rw e at h in
        let same : entry.knowledge_base_id ≡ id = ground arith in
        (
          record {
            at = s;
            decision = d;
            made = rw same e;
            role = ground arith;
            source = ground arith;
          },
          same,
        )
    | inr (Decisions.Err.not_found, e) ↦ absurd (cc (rw e at h))
    | inr (Decisions.Err.invalid, e) ↦ absurd (cc (rw e at h))
    | inr (Decisions.Err.denied, e) ↦ absurd (cc (rw e at h))
    | inr (Decisions.Err.unavailable, e) ↦ absurd (cc (rw e at h))
  ]

  authorize_all-Authorized :
      (ids : List String) (entries : List Entry) (s : S)
      → (authorize_all readers p headers ids s).0 ≡ ok entries
      → All Authorized entries × (map (λ (e : Entry). e.knowledge_base_id) entries ≡ ids)
  unfolding authorize_all
  authorize_all-Authorized [] entries s h = let nothing : entries ≡ [] = cc in rw nothing (tt, refl)
  authorize_all-Authorized (id ∷ ids) entries s h =
      let s' = (readers.authorize id p read headers s).1 in
      elim (Result-cases (after_authorize id (readers.authorize id p read headers s).0)) [
        | inr (x, e) ↦ absurd (cc (rw e at h))
        | inl (entry, e) ↦ elim (Result-cases (authorize_all readers p headers ids s').0) [
          | inr (x, e') ↦ absurd (cc (rw (e, e') at h))
          | inl (rest, e') ↦
              let this : entry ∷ rest ≡ entries = cc (rw (e, e') at h) in
              let ih = authorize_all-Authorized ids rest s' e' in
              let (one, own) = after_authorize-ok id s entry e in
              rw (← this) ((one, ih.0), rw (ih.1, own) refl)
        ]
      ]

  -- The scope that an explicit request gets has one entry for each of its ids, for each of which
  -- the principal was authorized to read, with the role and the source of that decision; and its
  -- ids are those of the request, trimmed, each once, and at most 64.
  pub explicit-Authorized :
      (values : List String) (scope : Scope) (s : S)
      → (resolve_explicit readers p headers values s).0 ≡ ok scope
      → All Authorized scope.entries
        × (map (λ (e : Entry). e.knowledge_base_id) scope.entries ≡ scope.knowledge_base_ids)
        × Normal values scope.knowledge_base_ids
  unfolding resolve_explicit scope_of
  explicit-Authorized values scope s h = elim (Result-cases (normalize_ids values)) [
    | inr (x, e) ↦ absurd (cc (rw e at h))
    | inl (ids, e) ↦ elim (Result-cases (authorize_all readers p headers ids s).0) [
      | inr (x, e') ↦ absurd (cc (rw (e, e') at h))
      | inl (entries, e') ↦
          let this : scope_of explicit entries ≡ scope = cc (rw (e, e') at h) in
          let (each, own) = authorize_all-Authorized ids entries s e' in
          let sorted : map (λ (e : Entry). e.knowledge_base_id) (order_by before entries)
              ≡ order_by at_most ids =
            unfold before in
            (map-order_by (λ (e : Entry). e.knowledge_base_id) at_most entries
              ∙ ap (order_by at_most) own) in
          rw (← this) (
            All-order_by Authorized before entries each,
            refl,
            rw sorted (Normal-sorted values ids (normalize_ids-Normal values ids e)),
          )
    ]
  ]
