-- ===== src/Publication/Uniqueness.antt =====
-- internal/publication/repository.go: the primary key and the unique column knowledge_base_id.
use my_kb.Prelude.{
  ◌≡◌, ◌≤◌, [], length, select, true, String, arith, eq_iff, List, inl, inr, Bool-cases, any, ℕ,
  if◌then◌else◌,
}
use my_kb.Prelude.Rows.{
  PairwiseNot, PairwiseNot-append, PairwiseNot-update_where, length-select-le-one,
}
use my_kb.Text.{==_sym}
use my_kb.Db.{Db}
use my_kb.Publication.{Publication}
use my_kb.Publication.Repository.{
  as_stored, create, update, unpublish, collides, is_version, is_published_version, rewritten,
  withdrawn, is_of,
}

-- No two rows have one identifier or one knowledge base.
abbrev pub IsUnique : List Publication → Type 0
IsUnique ps = PairwiseNot collides ps

pub collides_sym : (a b : Publication) → collides a b ≡ collides b a
unfolding collides
collides_sym a b = ground (arith, ==_sym a.id b.id, ==_sym a.knowledge_base_id b.knowledge_base_id)

pub create-IsUnique :
    (p : Publication) (db : Db) → IsUnique db.publications → IsUnique (create p db).1.publications
unfolding create
create-IsUnique p db h = elim (Bool-cases (any (collides (as_stored p)) db.publications)) [
  | inl e ↦ ground arith
  | inr e ↦
      ground (arith, PairwiseNot-append collides collides_sym db.publications (as_stored p) e h)
]

rewrite_shrinks :
    (c : Publication) (n : ℕ) (a b : Publication)
    → collides
        (if is_version c.id n a then rewritten c a else a)
        (if is_version c.id n b then rewritten c b else b)
      ≡ true
    → collides a b ≡ true
unfolding rewritten collides
rewrite_shrinks c n a b h = ground arith

withdraw_shrinks :
    (id : String) (n at : ℕ) (c : String) (a b : Publication)
    → collides
        (if is_published_version id n a then withdrawn at c a else a)
        (if is_published_version id n b then withdrawn at c b else b)
      ≡ true
    → collides a b ≡ true
unfolding withdrawn collides
withdraw_shrinks id n at c a b h = ground arith

pub update-IsUnique :
    (c : Publication) (n : ℕ) (db : Db)
    → IsUnique db.publications
    → IsUnique (update c n db).1.publications
unfolding update
update-IsUnique c n db h =
    let kept =
      PairwiseNot-update_where collides (is_version c.id n) (rewritten c) (rewrite_shrinks c n)
        db.publications h in
    ground arith

pub unpublish-IsUnique :
    (id : String) (n : ℕ) (c : String) (at : ℕ) (db : Db)
    → IsUnique db.publications
    → IsUnique (unpublish id n c at db).1.publications
unfolding unpublish
unpublish-IsUnique id n c at db h =
    let kept =
      PairwiseNot-update_where collides (is_published_version id n) (withdrawn at c)
        (withdraw_shrinks id n at c) db.publications h in
    ground arith

-- Two rows of one knowledge base collide, and so do two rows with one identifier.
pub same_kb-collides :
    (kb_id : String) (a b : Publication)
    → is_of kb_id a ≡ true
    → is_of kb_id b ≡ true
    → collides a b ≡ true
unfolding is_of collides
same_kb-collides kb_id a b h k = ground (
  arith,
  eq_iff a.knowledge_base_id kb_id,
  eq_iff b.knowledge_base_id kb_id,
  eq_iff b.knowledge_base_id a.knowledge_base_id,
)

pub same_id-collides : (a b : Publication) → a.id ≡ b.id → collides a b ≡ true
unfolding collides
same_id-collides a b h = ground (arith, eq_iff b.id a.id)

-- One statement that writes publications, whoever sends it, whether it succeeds or not.
pub data Step : Db → Db → Type 0 where
  create_step : (p : Publication) (db : Db) → Step db (create p db).1
  update_step : (c : Publication) (n : ℕ) (db : Db) → Step db (update c n db).1
  unpublish_step :
      (id : String) (n : ℕ) (c : String) (at : ℕ) (db : Db) → Step db (unpublish id n c at db).1

pub data Reach (start : Db) : Db → Type 0 where
  here : Reach start start
  next : {db db' : Db} → Reach start db → Step db db' → Reach start db'

Step-IsUnique : {db db' : Db} → Step db db' → IsUnique db.publications → IsUnique db'.publications
Step-IsUnique (create_step p db) h = create-IsUnique p db h
Step-IsUnique (update_step c n db) h = update-IsUnique c n db h
Step-IsUnique (unpublish_step id n c at db) h = unpublish-IsUnique id n c at db h

pub Reach-IsUnique :
    {start db : Db} → Reach start db → IsUnique start.publications → IsUnique db.publications
Reach-IsUnique here h = h
Reach-IsUnique (next r s) h = Step-IsUnique s (Reach-IsUnique r h)

-- Whatever statements that write publications run, in whatever order and with whatever failures,
-- from a database with no publications: a knowledge base has at most one publication.
pub one_publication :
    (kb_id : String) {start db : Db}
    → start.publications ≡ []
    → Reach start db
    → length (select (is_of kb_id) db.publications) ≤ 1
one_publication kb_id {start} {db} empty r =
    length-select-le-one collides (is_of kb_id) (same_kb-collides kb_id) db.publications
      (Reach-IsUnique r (rw empty tt))
