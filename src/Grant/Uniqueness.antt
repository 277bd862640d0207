-- ===== src/Grant/Uniqueness.antt =====
-- internal/grant/repository.go: the partial unique index over all interleavings of statements.
-- A request runs its statements one by one, and the statements of other requests may come between.
use my_kb.Prelude.{
  ℕ, ◌≤◌, ◌≡◌, true, Option, List, [], String, arith, eq_iff, length, select, any, Bool-cases, inl,
  inr, if◌then◌else◌,
}
use my_kb.Prelude.Rows.{
  PairwiseNot, PairwiseNot-append, PairwiseNot-update_where, length-select-le-one,
}
use my_kb.Text.{==_sym}
use my_kb.Db.{Db}
use my_kb.Grant.{Grant, SubjectType, Permission, user, other, same_subject_type}
use my_kb.Grant.Repository.{
  as_stored, create, update, revoke, collides, is_current_for, is_version, updated, revoked,
}

same_subject_type_sym : (a b : SubjectType) → same_subject_type a b ≡ same_subject_type b a
unfolding same_subject_type
same_subject_type_sym (other s) (other t) = ==_sym s t
same_subject_type_sym user b = ground arith
same_subject_type_sym _ b = ground arith

pub collides_sym : (a b : Grant) → collides a b ≡ collides b a
unfolding collides
collides_sym a b = ground (
  arith,
  ==_sym a.id b.id,
  ==_sym a.knowledge_base_id b.knowledge_base_id,
  ==_sym a.subject_id b.subject_id,
  same_subject_type_sym a.subject_type b.subject_type,
)

-- No two rows collide on the primary key or the unique index.
abbrev pub IsUnique : List Grant → Type 0
IsUnique gs = PairwiseNot collides gs

pub create-IsUnique : (g : Grant) (db : Db) → IsUnique db.grants → IsUnique (create g db).1.grants
unfolding create
create-IsUnique g db h = elim (Bool-cases (any (collides (as_stored g)) db.grants)) [
  | inl e ↦ ground arith
  | inr e ↦ ground (arith, PairwiseNot-append collides collides_sym db.grants (as_stored g) e h)
]

update_shrinks :
    (id : String) (n : ℕ) (p : Permission) (t : Option ℕ) (at : ℕ) (c : String) (a b : Grant)
    → collides
        (if is_version id n a then updated p t at c a else a)
        (if is_version id n b then updated p t at c b else b)
      ≡ true
    → collides a b ≡ true
unfolding updated collides
update_shrinks id n p t at c a b h = ground arith

revoke_shrinks :
    (id : String) (n : ℕ) (at : ℕ) (c : String) (a b : Grant)
    → collides
        (if is_version id n a then revoked at c a else a)
        (if is_version id n b then revoked at c b else b)
      ≡ true
    → collides a b ≡ true
unfolding revoked collides
revoke_shrinks id n at c a b h = ground arith

pub update-IsUnique :
    (id : String) (n : ℕ) (p : Permission) (t : Option ℕ) (c : String) (at : ℕ) (db : Db)
    → IsUnique db.grants
    → IsUnique (update id n p t c at db).1.grants
unfolding update
update-IsUnique id n p t c at db h =
    let kept =
      PairwiseNot-update_where collides (is_version id n) (updated p t at c)
        (update_shrinks id n p t at c) db.grants h in
    ground arith

pub revoke-IsUnique :
    (id : String) (n : ℕ) (c : String) (at : ℕ) (db : Db)
    → IsUnique db.grants
    → IsUnique (revoke id n c at db).1.grants
unfolding revoke
revoke-IsUnique id n c at db h =
    let kept =
      PairwiseNot-update_where collides (is_version id n) (revoked at c) (revoke_shrinks id n at c)
        db.grants h in
    ground arith

-- One statement that writes grants, whoever sends it, whether it succeeds or not.
pub data Step : Db → Db → Type 0 where
  create_step : (g : Grant) (db : Db) → Step db (create g db).1
  update_step :
      (id : String) (n : ℕ) (p : Permission) (t : Option ℕ) (c : String) (at : ℕ) (db : Db)
      → Step db (update id n p t c at db).1
  revoke_step :
      (id : String) (n : ℕ) (c : String) (at : ℕ) (db : Db) → Step db (revoke id n c at db).1

pub data Reach (start : Db) : Db → Type 0 where
  here : Reach start start
  next : {db db' : Db} → Reach start db → Step db db' → Reach start db'

Step-IsUnique : {db db' : Db} → Step db db' → IsUnique db.grants → IsUnique db'.grants
Step-IsUnique (create_step g db) h = create-IsUnique g db h
Step-IsUnique (update_step id n p t c at db) h = update-IsUnique id n p t c at db h
Step-IsUnique (revoke_step id n c at db) h = revoke-IsUnique id n c at db h

pub Reach-IsUnique : {start db : Db} → Reach start db → IsUnique start.grants → IsUnique db.grants
Reach-IsUnique here h = h
Reach-IsUnique (next r s) h = Step-IsUnique s (Reach-IsUnique r h)

same_subject_type_join :
    (a b k : SubjectType)
    → same_subject_type a k ≡ true
    → same_subject_type b k ≡ true
    → same_subject_type b a ≡ true
unfolding same_subject_type
same_subject_type_join (other s) (other t) (other u) h k =
    ground (arith, eq_iff s u, eq_iff t u, eq_iff t s)
same_subject_type_join user b k h h' = ground arith
same_subject_type_join _ b k h h' = ground arith

-- Two current grants of one subject collide.
pub current-collides :
    (kb_id : String) (kind : SubjectType) (subject_id : String) (a b : Grant)
    → is_current_for kb_id kind subject_id a ≡ true
    → is_current_for kb_id kind subject_id b ≡ true
    → collides a b ≡ true
unfolding collides
current-collides kb_id kind subject_id a b h k = ground (
  arith,
  eq_iff a.knowledge_base_id kb_id,
  eq_iff b.knowledge_base_id kb_id,
  eq_iff b.knowledge_base_id a.knowledge_base_id,
  eq_iff a.subject_id subject_id,
  eq_iff b.subject_id subject_id,
  eq_iff b.subject_id a.subject_id,
  same_subject_type_join a.subject_type b.subject_type kind,
)

-- Whatever statements that write grants run, in whatever order and with whatever failures, from a
-- database with no grants: a subject has at most one unrevoked grant of a knowledge base.
pub one_current_grant :
    (kb_id : String) (kind : SubjectType) (subject_id : String) {start db : Db}
    → start.grants ≡ []
    → Reach start db
    → length (select (is_current_for kb_id kind subject_id) db.grants) ≤ 1
one_current_grant kb_id kind subject_id {start} {db} empty r =
    length-select-le-one collides (is_current_for kb_id kind subject_id)
      (current-collides kb_id kind subject_id) db.grants (Reach-IsUnique r (rw empty tt))
