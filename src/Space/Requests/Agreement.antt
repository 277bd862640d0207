-- ===== src/Space/Requests/Agreement.antt =====
-- internal/space/request_repository.go: what two claims of one key return.
use my_kb.Prelude.{
  ℕ, ◌≡◌, refl, sym, ap, ◌∙◌, Bool, true, false, some, inl, inr, List, [], ◌∷◌, find_row, any,
  arith, eq_iff, Bool-cases, Option-cases,
}
use mathlib.Core.Option.{some_inj}
use my_kb.Result.{ok, Exec, Result-cases}
use my_kb.Db.{failing, later}
use my_kb.Space.Requests.{
  Request, Err, Ledger, statement, finish, transaction, bad_request, same_key, insert_request,
  read_request, differs, claim_request, claim,
}
use my_kb.Space.Requests.Promises.{Calls, Calls-Promised, statement-read}

find-same_key :
    (a b : Request) (rows : List Request)
    → same_key a b ≡ true
    → find_row (same_key b) rows ≡ find_row (same_key a) rows
unfolding same_key
find-same_key a b [] h = refl
find-same_key a b (r ∷ rs) h = ground (
  arith,
  find-same_key a b rs,
  eq_iff a.owner_user_id b.owner_user_id,
  eq_iff a.idempotency_key b.idempotency_key,
)

any-found :
    (p : Request → Bool) (rows : List Request) (a : Request)
    → find_row p rows ≡ some a
    → any p rows ≡ true
any-found p [] a h = absurd (cc)
any-found p (r ∷ rs) a h = ground (arith, any-found p rs a)

insert_request-fresh :
    (now : ℕ) (c : Request) (ledger : Ledger)
    → (insert_request now c ledger).0 ≡ ok true
    → any (same_key c) ledger.requests ≡ false
unfolding insert_request
insert_request-fresh now c ledger h = ground arith

statement-ok :
    {A : Type 0} (body : Exec Ledger Err A) (ledger : Ledger) (a : A)
    → (statement body ledger).0 ≡ ok a
    → let start : Ledger = record ledger { faults = later ledger.faults } in
      ((body start).0 ≡ ok a) × ((statement body ledger).1 ≡ (body start).1)
unfolding statement
statement-ok body ledger a h = elim (Bool-cases (failing ledger.faults)) [
  | inl f ↦ absurd (cc (rw f at h))
  | inr f ↦ (rw f at h, rw f refl)
]

read_request-ok :
    (c r : Request) (ledger : Ledger)
    → (read_request c ledger).0 ≡ ok r
    → find_row (same_key c) ledger.requests ≡ some r
unfolding read_request
read_request-ok c r ledger h = elim (Option-cases (find_row (same_key c) ledger.requests)) [
  | inl e ↦ absurd (cc (rw e at h))
  | inr (x, e) ↦ let this : x ≡ r = ground arith in rw this at e
]

-- What a claim that succeeds returns.
pub record Claimed (c r : Request) (inserted : Bool) (before after : Ledger) : Type 0 where
  pub stored : find_row (same_key c) after.requests ≡ some r
  pub agrees : differs r c ≡ false
  pub fresh : inserted ≡ true → any (same_key c) before.requests ≡ false

claim_request-Claimed :
    (now : ℕ) (c r : Request) (inserted : Bool) (ledger : Ledger)
    → (claim_request now c ledger).0 ≡ ok (r, inserted)
    → Claimed c r inserted ledger (claim_request now c ledger).1
unfolding claim_request
claim_request-Claimed now c r inserted ledger h =
    let s = (statement (insert_request now c) ledger).1 in
    elim (Result-cases (statement (insert_request now c) ledger).0) [
      | inr (x, e) ↦ absurd (cc (rw e at h))
      | inl (i, e) ↦ elim (Result-cases (statement (read_request c) s).0) [
        | inr (x, e') ↦ absurd (cc (rw (e, e') at h))
        | inl (stored, e') ↦ elim (Bool-cases (differs stored c)) [
          | inl other ↦ absurd (cc (rw (e, e', other) at h))
          | inr same ↦
              let one : stored ≡ r = ground arith in
              let two : i ≡ inserted = ground arith in
              let (read_there, kept) = statement-ok (read_request c) s stored e' in
              let (placed, left) = statement-ok (insert_request now c) ledger i e in
              let at : (statement (read_request c) s).1.requests ≡ s.requests =
                statement-read c s in
              rw (e, e', same)
                (record {
                  stored =
                      ap (find_row (same_key c)) at
                      ∙ read_request-ok c stored (record s { faults = later s.faults }) read_there
                      ∙ ap some one;
                  agrees = rw (← one) same;
                  fresh = λ t.
                      insert_request-fresh now c (record ledger { faults = later ledger.faults })
                        (placed ∙ ap ok (two ∙ t));
                })
        ]
      ]
    ]

claim-Claimed :
    (now : ℕ) (c r : Request) (inserted : Bool) (ledger : Ledger)
    → (claim now c ledger).0 ≡ ok (r, inserted)
    → Claimed c r inserted ledger (claim now c ledger).1
unfolding claim transaction statement finish
claim-Claimed now c r inserted ledger h =
    let start : Ledger = record ledger { faults = later ledger.faults } in
    elim (Bool-cases (bad_request c)) [
      | inl bad ↦ absurd (cc (rw bad at h))
      | inr good ↦ elim (Bool-cases (failing ledger.faults)) [
        | inl f ↦ absurd (cc (rw (good, f) at h))
        | inr f ↦ elim (Result-cases (claim_request now c start).0) [
          | inr (x, e) ↦ absurd (cc (rw (good, f, e) at h))
          | inl (pair, e) ↦ elim (Bool-cases (failing (claim_request now c start).1.faults)) [
            | inl g ↦ absurd (cc (rw (good, f, e, g) at h))
            | inr g ↦
                let this : pair ≡ (r, inserted) = cc (rw (good, f, e, g) at h) in
                let done = claim_request-Claimed now c r inserted start (e ∙ ap ok this) in
                rw (good, f, e, g)
                  (record { stored = done.stored; agrees = done.agrees; fresh = done.fresh })
          ]
        ]
      ]
    ]

same_hash : (a b : Request) → differs a b ≡ false → a.request_hash ≡ b.request_hash
unfolding differs
same_hash a b h = ground (arith, eq_iff a.request_hash b.request_hash)

-- If a claim succeeds, and after any further claims, completions and failures another claim with
-- the same workspace, owner and idempotency key succeeds, both return the same upstream knowledge
-- base, both have the request hash of the first, and the second is told that it inserted nothing.
pub claims-agree :
    (now now' : ℕ) (c c' r r' : Request) (inserted inserted' : Bool) (ledger l : Ledger)
    → (claim now c ledger).0 ≡ ok (r, inserted)
    → Calls (claim now c ledger).1 l
    → same_key c c' ≡ true
    → (claim now' c' l).0 ≡ ok (r', inserted')
    → (r'.upstream_kb_id ≡ r.upstream_kb_id)
      × (r.request_hash ≡ c.request_hash)
      × (c'.request_hash ≡ c.request_hash)
      × (inserted' ≡ false)
claims-agree now now' c c' r r' inserted inserted' ledger l first between key second =
    let a = claim-Claimed now c r inserted ledger first in
    let p = Calls-Promised c r (claim now c ledger).1 l a.stored between in
    let b = claim-Claimed now' c' r' inserted' l second in
    let q =
      Calls-Promised c p.row l (claim now' c' l).1 p.found (Calls.claimed now' c' Calls.none_yet) in
    let one : some r' ≡ some q.row =
      sym b.stored ∙ find-same_key c c' (claim now' c' l).1.requests key ∙ q.found in
    let kb : r'.upstream_kb_id ≡ r.upstream_kb_id =
      ap (λ (x : Request). x.upstream_kb_id) (some_inj.0 one) ∙ q.same.kb ∙ p.same.kb in
    let hash : r'.request_hash ≡ r.request_hash =
      ap (λ (x : Request). x.request_hash) (some_inj.0 one) ∙ q.same.hash ∙ p.same.hash in
    let there : any (same_key c') l.requests ≡ true =
      any-found (same_key c') l.requests p.row (find-same_key c c' l.requests key ∙ p.found) in
    let own = same_hash r c a.agrees in
    (
      kb,
      own,
      sym (same_hash r' c' b.agrees) ∙ hash ∙ own,
      elim (Bool-cases inserted') [ inl new ↦ absurd (cc (there, b.fresh new)) | inr old ↦ old ],
    )
