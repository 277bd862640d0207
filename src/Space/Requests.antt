-- ===== src/Space/Requests.antt =====
-- internal/space/request_repository.go: the ledger of the requests that create knowledge spaces.
pub mod Promises
pub mod Agreement
use my_kb.Prelude.{
  ℕ, Bool, true, false, ◌||◌, ◌&&◌, not, String, ◌==◌, ◌=ℕ=◌, ltb, leb, Option, none, some, List,
  [], ◌∷◌, ◌++◌, len, count, find_row, update_where, any, if◌then◌else◌,
}
use Prim.Native.String.{slice}
use my_kb.Result.{Result, ok, err, Exec, fail_if, pure, ◌>>=◌, ◌>>◌}
use my_kb.Text.{is_blank}
use my_kb.Db.{failing, later}

pub data Status : Type 0 where
  pending ready failed : Status

-- CreationRequest
pub record Request : Type 0 where
  pub tenant_id : ℕ
  pub owner_user_id : String
  pub idempotency_key : String
  pub request_hash : String
  pub upstream_kb_id : String
  pub product_mode : String
  pub index_profile : String
  pub status : Status
  pub last_error : String
  pub created_at : ℕ
  pub updated_at : ℕ

-- ErrIdempotencyConflict, or any other error.
pub data Err : Type 0 where
  conflict broken : Err

-- knowledge_space_requests, and what the statements to come meet, as in Db.
pub record Ledger : Type 0 where
  pub requests : List Request
  pub faults : List Bool

unfoldable pub statement : {A : Type 0} → Exec Ledger Err A → Exec Ledger Err A
statement body ledger =
    let next = record ledger { faults = later ledger.faults } in
    if failing ledger.faults then (err broken, next) else body next

-- Commit, or the deferred Rollback.
unfoldable pub finish : {A : Type 0} → Ledger → Result Err A × Ledger → Result Err A × Ledger
finish start (err e, ledger) = (err e, record start { faults = ledger.faults })
finish start (ok a, ledger) =
    let rest = later ledger.faults in
    if failing ledger.faults
    then (err broken, record start { faults = rest })
    else (ok a, record ledger { faults = rest })

unfoldable pub transaction : {A : Type 0} → Exec Ledger Err A → Exec Ledger Err A
transaction body = statement λ ledger. finish ledger (body ledger)

-- validateCreationRequest
unfoldable pub bad_request : Request → Bool
bad_request r =
    r.tenant_id =ℕ= 0
    || is_blank r.owner_user_id
    || is_blank r.idempotency_key
    || ltb 128 (len r.idempotency_key)
    || not (len r.request_hash =ℕ= 64)
    || is_blank r.upstream_kb_id

-- The constraints of the columns.
unfoldable pub fits : Request → Bool
fits r =
    ltb r.tenant_id 9223372036854775808
    && leb (count r.owner_user_id) 128
    && leb (count r.upstream_kb_id) 128
    && (r.product_mode == "personal_notes" || r.product_mode == "rag")
    && (r.index_profile == "notes_plain" || r.index_profile == "plain")

-- The primary key.
unfoldable pub same_key : Request → Request → Bool
same_key a b =
    a.tenant_id =ℕ= b.tenant_id
    && a.owner_user_id == b.owner_user_id
    && a.idempotency_key == b.idempotency_key

-- The WHERE of Complete and Fail.
unfoldable pub same_claim : Request → Request → Bool
same_claim a b =
    same_key a b && a.request_hash == b.request_hash && a.upstream_kb_id == b.upstream_kb_id

unfoldable pub same_kb : Request → Request → Bool
same_kb a b = a.upstream_kb_id == b.upstream_kb_id

unfoldable pub new_request : ℕ → Request → Request
new_request now c = record c {
  status = pending;
  last_error = "";
  created_at = now;
  updated_at = now;
}

-- INSERT ... ON CONFLICT DO NOTHING, and whether it inserted a row.
unfoldable pub insert_request : ℕ → Request → Exec Ledger Err Bool
insert_request now c ledger =
    if not (fits c)
    then (err broken, ledger)
    else if any (same_key c) ledger.requests
    then (ok false, ledger)
    else if any (same_kb c) ledger.requests
    then (err broken, ledger)
    else (ok true, record ledger { requests = ledger.requests ++ new_request now c ∷ [] })

found_request : Option Request → Result Err Request
found_request none = err broken
found_request (some r) = ok r

-- SELECT ... FOR UPDATE
unfoldable pub read_request : Request → Exec Ledger Err Request
unfolding found_request
read_request c ledger = (found_request (find_row (same_key c) ledger.requests), ledger)

unfoldable pub differs : Request → Request → Bool
differs stored c =
    not (stored.request_hash == c.request_hash)
    || not (stored.product_mode == c.product_mode)
    || not (stored.index_profile == c.index_profile)

-- What Claim does between BeginTx and Commit.
unfoldable pub claim_request : ℕ → Request → Exec Ledger Err (Request × Bool)
claim_request now c = do
  inserted ← statement (insert_request now c)
  stored ← statement (read_request c)
  fail_if (differs stored c) conflict (pure (stored, inserted))

-- RequestRepository.Claim
unfoldable pub claim : ℕ → Request → Exec Ledger Err (Request × Bool)
claim now c = fail_if (bad_request c) broken (transaction (claim_request now c))

-- UPDATE ... WHERE, and requireOneRow.
unfoldable pub change_claim : Request → (Request → Request) → Exec Ledger Err (Unit {0})
change_claim r change = statement λ ledger.
    let next = record ledger { requests = update_where (same_claim r) change ledger.requests } in
    if any (same_claim r) ledger.requests then (ok tt, next) else (err broken, next)

unfoldable pub completed : ℕ → Request → Request
completed now r = record r { status = ready; last_error = ""; updated_at = now }

-- RequestRepository.Complete
unfoldable pub complete : ℕ → Request → Exec Ledger Err (Unit {0})
complete now r = change_claim r (completed now)

unfoldable pub marked_failed : ℕ → String → Request → Request
marked_failed now message r = record r { status = failed; last_error = message; updated_at = now }

-- RequestRepository.Fail; a message is one of the codes, so a byte is a character.
unfoldable pub fail_claim : ℕ → Request → String → Exec Ledger Err (Unit {0})
fail_claim now r message =
    change_claim r
      (marked_failed now (if ltb 1000 (len message) then slice message 0 1000 else message))
