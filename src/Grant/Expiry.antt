-- ===== src/Grant/Expiry.antt =====
-- internal/grant/service.go: Create where a stored grant is not what is asked for: it has expired,
-- or its expiry has lost its nanoseconds.
use my_kb.Prelude.{
  ℕ, ◌≡◌, ◌≢◌, refl, true, false, String, arith, some, inl, inr, find_row, Option, Bool-cases,
}
use my_kb.Result.{Result, ok, err, Result-cases}
use my_kb.Http.{Headers}
use my_kb.Db.{Db, Env}
use my_kb.Ownership.{Ownership}
use my_kb.Grant.{Grant, nil_or_after}
use my_kb.Grant.Repository.{RepoErr, find_current_by_subject, is_current_for}
use my_kb.Grant.Owner.{grants-require_owner}
use my_kb.Grant.Creation.{asked, find_current-ok, find_current-not_found, validated-user}
use my_kb.Db.Times.{column_times}
use my_kb.Grant.Service.{
  Actor, CreateRequest, create, after_find, require_owner, same_grant_request, same_time,
  validate_create_request,
}

same_time-nil_or_after :
    (s t : Option ℕ) (at : ℕ)
    → same_time s t ≡ true
    → nil_or_after t at ≡ true
    → nil_or_after s at ≡ true
unfolding same_time nil_or_after
same_time-nil_or_after s t at h k = ground arith

expired-differs :
    (g : Grant) (r : CreateRequest) (now : ℕ)
    → nil_or_after g.expires_at now ≡ false
    → nil_or_after r.expires_at now ≡ true
    → same_grant_request g r ≡ false
unfolding same_grant_request
expired-differs g r now e l = ground (arith, same_time-nil_or_after g.expires_at r.expires_at now)

-- The first lookup finds the row, or fails.
differing-after_find :
    (env : Env) (o : Ownership) (kb_id : String) (actor : Actor) (r : CreateRequest)
    (res : Result RepoErr Grant) (g k : Grant) (db : Db)
    → ((x : Grant) → res ≡ ok x → x ≡ g)
    → res ≢ err RepoErr.not_found
    → same_grant_request g r ≡ false
    → (after_find env o kb_id actor r res db).0 ≢ ok k
unfolding after_find
differing-after_find env o kb_id actor r (ok x) g k db same found differs h =
    ground (arith, same x refl)
differing-after_find env o kb_id actor r (err RepoErr.not_found) g k db same found differs h =
    absurd (found refl)
differing-after_find env o kb_id actor r (err _) g k db same found differs h = cc

differing-looked_up :
    (env : Env) (o : Ownership) (kb_id : String) (actor : Actor) (r : CreateRequest) (g k : Grant)
    (db : Db)
    → find_row (is_current_for kb_id r.subject_type r.subject_id) db.grants ≡ some g
    → same_grant_request g r ≡ false
    → let found = find_current_by_subject kb_id r.subject_type r.subject_id db in
      (after_find env o kb_id actor r found.0 found.1).0 ≢ ok k
differing-looked_up env o kb_id actor r g k db row differs =
    let found = find_current_by_subject kb_id r.subject_type r.subject_id db in
    differing-after_find env o kb_id actor r found.0 g k found.1
      (λ x q. let hit = (find_current-ok kb_id r.subject_type r.subject_id x db q).0 in cc)
      (λ q. let miss = find_current-not_found kb_id r.subject_type r.subject_id db q in cc) differs

-- A current grant that differs from what a valid request asks for makes Create fail.
pub differing_grant_blocks :
    (env : Env) (kb_id : String) (actor : Actor) (r : CreateRequest) (h : Headers) (db : Db)
    (g k : Grant)
    → find_row (is_current_for kb_id r.subject_type r.subject_id) db.grants ≡ some g
    → ((o : Ownership)
        → validate_create_request r o env.now ≡ ok tt
        → same_grant_request g r ≡ false)
    → (create env kb_id actor r h db).0 ≢ ok k
unfolding create
differing_grant_blocks env kb_id actor r h db g k row differs done =
    let kept = grants-require_owner env kb_id actor h db in
    elim (Result-cases (require_owner env kb_id actor h db).0) [
      | inr (x, p) ↦ ground arith
      | inl (o, p) ↦ elim (Result-cases (validate_create_request r o env.now)) [
        | inr (x, v) ↦ ground arith
        | inl (_, v) ↦
            differing-looked_up env o kb_id actor r g k (require_owner env kb_id actor h db).1
              (rw kept row) (differs o v) (rw (p, v) at done)
      ]
    ]

-- While a subject's grant is stored with an expiry that has passed and is not revoked, no request
-- to create a grant for that subject succeeds.
pub expired_grant_blocks :
    (env : Env) (kb_id : String) (actor : Actor) (r : CreateRequest) (h : Headers) (db : Db)
    (g k : Grant)
    → find_row (is_current_for kb_id r.subject_type r.subject_id) db.grants ≡ some g
    → nil_or_after g.expires_at env.now ≡ false
    → (create env kb_id actor r h db).0 ≢ ok k
expired_grant_blocks env kb_id actor r h db g k row e =
    differing_grant_blocks env kb_id actor r h db g k row
      (λ o v. expired-differs g r env.now e (validated-user r o env.now v).1)

fine-differs :
    (g : Grant) (r : CreateRequest)
    → column_times g.expires_at ≡ g.expires_at
    → column_times r.expires_at ≢ r.expires_at
    → same_grant_request g r ≡ false
fine-differs g r whole fine = elim (Bool-cases (same_grant_request g r)) [
  | inr differs ↦ differs
  | inl same ↦ let expiry = (asked g r same).1 in absurd (fine (rw expiry at whole))
]

-- While a subject has an unrevoked grant whose expiry is as a column keeps it, no request with an
-- expiry of other than whole microseconds succeeds: not even a repetition of the request that wrote
-- that row, which Create is meant to answer with the grant.
pub fine_expiry_blocks :
    (env : Env) (kb_id : String) (actor : Actor) (r : CreateRequest) (h : Headers) (db : Db)
    (g k : Grant)
    → find_row (is_current_for kb_id r.subject_type r.subject_id) db.grants ≡ some g
    → column_times g.expires_at ≡ g.expires_at
    → column_times r.expires_at ≢ r.expires_at
    → (create env kb_id actor r h db).0 ≢ ok k
fine_expiry_blocks env kb_id actor r h db g k row whole fine =
    differing_grant_blocks env kb_id actor r h db g k row (λ o v. fine-differs g r whole fine)
