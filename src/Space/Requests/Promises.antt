-- ===== src/Space/Requests/Promises.antt =====
-- internal/space/request_repository.go: the rows of the ledger over the calls that write them.
use my_kb.Prelude.{
  ℕ, ◌≡◌, refl, ap, ◌∙◌, Bool, String, ltb, len, some, inl, inr, List, [], ◌∷◌, find_row,
  update_where, any, arith, Bool-cases, if◌then◌else◌,
}
use my_kb.Prelude.Rows.{find_row-append_found}
use Prim.Native.String.{slice}
use my_kb.Result.{Exec, Result-cases}
use my_kb.Db.{failing, later}
use my_kb.Space.Requests.{
  Request, Err, Ledger, statement, finish, transaction, bad_request, same_key, same_claim,
  new_request, insert_request, read_request, differs, claim_request, claim, change_claim, completed,
  complete, marked_failed, fail_claim,
}

-- What a request promised when it was claimed, which no later call changes.
pub record SamePromise (a b : Request) : Type 0 where
  pub hash : b.request_hash ≡ a.request_hash
  pub kb : b.upstream_kb_id ≡ a.upstream_kb_id
  pub mode : b.product_mode ≡ a.product_mode
  pub profile : b.index_profile ≡ a.index_profile

pub record Promised (k a : Request) (ledger : Ledger) : Type 0 where
  pub row : Request
  pub found : find_row (same_key k) ledger.requests ≡ some row
  pub same : SamePromise a row

SamePromise-refl : (a : Request) → SamePromise a a
SamePromise-refl a = record { hash = refl; kb = refl; mode = refl; profile = refl }

SamePromise-trans : (a b c : Request) → SamePromise a b → SamePromise b c → SamePromise a c
SamePromise-trans a b c h k = record {
  hash = k.hash ∙ h.hash;
  kb = k.kb ∙ h.kb;
  mode = k.mode ∙ h.mode;
  profile = k.profile ∙ h.profile;
}

-- A change of a row that keeps its key and its promise.
pub record Harmless (change : Request → Request) : Type 0 where
  pub key : (k a : Request) → same_key k (change a) ≡ same_key k a
  pub promise : (a : Request) → SamePromise a (change a)

find-changed :
    (p : Request → Bool) (change : Request → Request)
    → Harmless change
    → (k : Request) (rows : List Request) (a : Request) → find_row (same_key k) rows ≡ some a
    → (b : Request) × (find_row (same_key k) (update_where p change rows) ≡ some b)
      × SamePromise a b
find-changed p change safe k [] a h = absurd (cc)
find-changed p change safe k (r ∷ rs) a h = elim (Bool-cases (same_key k r)) [
  | inl e ↦
      let this : r ≡ a = ground arith in
      elim (Bool-cases (p r)) [
        | inl touched ↦ (change r, rw (touched, safe.key k r, e) refl, rw (← this) (safe.promise r))
        | inr left ↦ (r, rw (left, e) refl, rw (← this) (SamePromise-refl r))
      ]
  | inr e ↦
      let (b, found, same) = find-changed p change safe k rs a (rw e at h) in
      elim (Bool-cases (p r)) [
        | inl touched ↦ (b, rw (touched, safe.key k r, e) found, same)
        | inr left ↦ (b, rw (left, e) found, same)
      ]
]

completed-Harmless : (now : ℕ) → Harmless (completed now)
unfolding completed same_key
completed-Harmless now = record {
  key = λ k a. refl;
  promise = λ a. record { hash = refl; kb = refl; mode = refl; profile = refl };
}

marked_failed-Harmless : (now : ℕ) (m : String) → Harmless (marked_failed now m)
unfolding marked_failed same_key
marked_failed-Harmless now m = record {
  key = λ k a. refl;
  promise = λ a. record { hash = refl; kb = refl; mode = refl; profile = refl };
}

still :
    (k a : Request) (ledger : Ledger)
    → find_row (same_key k) ledger.requests ≡ some a
    → Promised k a ledger
still k a ledger h = record { row = a; found = h; same = SamePromise-refl a }

insert_request-Promised :
    (now : ℕ) (c k a : Request) (ledger : Ledger)
    → find_row (same_key k) ledger.requests ≡ some a
    → find_row (same_key k) (insert_request now c ledger).1.requests ≡ some a
unfolding insert_request
insert_request-Promised now c k a ledger h =
    ground (arith, find_row-append_found (same_key k) ledger.requests (new_request now c) a h)

statement-insert :
    (now : ℕ) (c k a : Request) (ledger : Ledger)
    → find_row (same_key k) ledger.requests ≡ some a
    → find_row (same_key k) (statement (insert_request now c) ledger).1.requests ≡ some a
unfolding statement
statement-insert now c k a ledger h =
    ground
      (arith, insert_request-Promised now c k a (record ledger { faults = later ledger.faults }))

pub statement-read :
    (c : Request) (ledger : Ledger)
    → (statement (read_request c) ledger).1.requests ≡ ledger.requests
unfolding statement read_request
statement-read c ledger = ground arith

claim_request-Promised :
    (now : ℕ) (c k a : Request) (ledger : Ledger)
    → find_row (same_key k) ledger.requests ≡ some a
    → find_row (same_key k) (claim_request now c ledger).1.requests ≡ some a
unfolding claim_request
claim_request-Promised now c k a ledger h =
    let first = statement-insert now c k a ledger h in
    let s = (statement (insert_request now c) ledger).1 in
    elim (Result-cases (statement (insert_request now c) ledger).0) [
      | inr (x, e) ↦ rw e first
      | inl (inserted, e) ↦ elim (Result-cases (statement (read_request c) s).0) [
        | inr (x, e') ↦ rw (e, e') (ap (find_row (same_key k)) (statement-read c s) ∙ first)
        | inl (stored, e') ↦ elim (Bool-cases (differs stored c)) [
          | inl other ↦ rw (e, e', other) (ap (find_row (same_key k)) (statement-read c s) ∙ first)
          | inr same ↦ rw (e, e', same) (ap (find_row (same_key k)) (statement-read c s) ∙ first)
        ]
      ]
    ]

-- A transaction whose body keeps a row keeps it, committed or rolled back.
transaction-row :
    {A : Type 0} (body : Exec Ledger Err A) (k a : Request)
    → ((l : Ledger)
        → find_row (same_key k) l.requests ≡ some a
        → find_row (same_key k) (body l).1.requests ≡ some a)
    → (ledger : Ledger) → find_row (same_key k) ledger.requests ≡ some a
    → find_row (same_key k) (transaction body ledger).1.requests ≡ some a
unfolding transaction statement finish
transaction-row body k a keep ledger h =
    let start : Ledger = record ledger { faults = later ledger.faults } in
    elim (Bool-cases (failing ledger.faults)) [
      | inl f ↦ rw f h
      | inr f ↦ elim (Result-cases (body start).0) [
        | inr (x, e) ↦ rw (f, e) h
        | inl (x, e) ↦ elim (Bool-cases (failing (body start).1.faults)) [
          | inl g ↦ rw (f, e, g) h
          | inr g ↦ rw (f, e, g) (keep start h)
        ]
      ]
    ]

claim-Promised :
    (now : ℕ) (c k a : Request) (ledger : Ledger)
    → find_row (same_key k) ledger.requests ≡ some a
    → Promised k a (claim now c ledger).1
unfolding claim
claim-Promised now c k a ledger h = elim (Bool-cases (bad_request c)) [
  | inl bad ↦ rw bad (still k a ledger h)
  | inr good ↦ rw good (
      still k a (transaction (claim_request now c) ledger).1
        (transaction-row (claim_request now c) k a (claim_request-Promised now c k a) ledger h))
]

change_claim-Promised :
    (r : Request) (change : Request → Request)
    → Harmless change
    → (k a : Request) (ledger : Ledger) → find_row (same_key k) ledger.requests ≡ some a
    → Promised k a (change_claim r change ledger).1
unfolding change_claim statement
change_claim-Promised r change safe k a ledger h =
    let (b, found, same) = find-changed (same_claim r) change safe k ledger.requests a h in
    let next : Ledger = record ledger { faults = later ledger.faults } in
    elim (Bool-cases (failing ledger.faults)) [
      | inl f ↦ rw f (still k a next h)
      | inr f ↦ elim (Bool-cases (any (same_claim r) ledger.requests)) [
        | inl g ↦ rw (f, g) (record { row = b; found = found; same = same })
        | inr g ↦ rw (f, g) (record { row = b; found = found; same = same })
      ]
    ]

-- Calls on the ledger, by any requests, in any order.
pub data Calls (start : Ledger) : Ledger → Type 0 where
  none_yet : Calls start start
  claimed : {l : Ledger} (now : ℕ) (c : Request) → Calls start l → Calls start (claim now c l).1
  completed_one :
      {l : Ledger} (now : ℕ) (r : Request) → Calls start l → Calls start (complete now r l).1
  failed_one :
      {l : Ledger} (now : ℕ) (r : Request) (message : String)
      → Calls start l
      → Calls start (fail_claim now r message l).1

onward :
    (k a : Request) (l : Ledger) (p : Promised k a l) (next : Ledger)
    → Promised k p.row next
    → Promised k a next
onward k a l p next q = record {
  row = q.row;
  found = q.found;
  same = SamePromise-trans a p.row q.row p.same q.same;
}

pub Calls-Promised :
    (k a : Request) (start l : Ledger)
    → find_row (same_key k) start.requests ≡ some a
    → Calls start l
    → Promised k a l
unfolding complete fail_claim
Calls-Promised k a start _ h none_yet = still k a start h
Calls-Promised k a start _ h (claimed {l} now c before) =
    let p = Calls-Promised k a start l h before in
    onward k a l p (claim now c l).1 (claim-Promised now c k p.row l p.found)
Calls-Promised k a start _ h (completed_one {l} now r before) =
    let p = Calls-Promised k a start l h before in
    onward k a l p (complete now r l).1
      (change_claim-Promised r (completed now) (completed-Harmless now) k p.row l p.found)
Calls-Promised k a start _ h (failed_one {l} now r message before) =
    let p = Calls-Promised k a start l h before in
    let cut = if ltb 1000 (len message) then slice message 0 1000 else message in
    onward k a l p (fail_claim now r message l).1 (
      change_claim-Promised r (marked_failed now cut) (marked_failed-Harmless now cut) k p.row l
        p.found)
