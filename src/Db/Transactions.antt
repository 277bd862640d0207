-- ===== src/Db/Transactions.antt =====
-- What a transaction leaves in the tables, whether it is committed or rolled back.
use my_kb.Prelude.{◌≡◌, ◌∙◌, refl, Bool, List, arith, inl, inr, Bool-cases}
use my_kb.Result.{Exec, ok, Result-cases}
use my_kb.Db.{Db, transaction, failing, later}

-- The database in which the body of a transaction starts.
abbrev pub begun : Db → Db
begun db = record db { faults = later db.faults }

module _ {E A : Type 0} (e e' : E) (body : Exec Db E A) (db : Db) where
  -- A property of the tables holds afterwards if it held before and the body keeps it.
  pub transaction-keeps :
      (P : Db → Type 0)
      → ((d : Db) (fs : List Bool) → P d → P (record d { faults = fs }))
      → P db
      → P (body (begun db)).1
      → P (transaction e e' body db).1
  unfolding transaction
  transaction-keeps P any_faults h k = elim (Bool-cases (failing db.faults)) [
    | inl f ↦ rw f (any_faults db (later db.faults) h)
    | inr f ↦ elim (Result-cases (body (begun db)).0) [
      | inr (x, r) ↦ rw (f, r) (any_faults db (body (begun db)).1.faults h)
      | inl (x, r) ↦ elim (Bool-cases (failing (body (begun db)).1.faults)) [
        | inl g ↦ rw (f, r, g) (any_faults db (later (body (begun db)).1.faults) h)
        | inr g ↦ rw (f, r, g) (any_faults (body (begun db)).1 (later (body (begun db)).1.faults) k)
      ]
    ]
  ]

  -- A transaction that succeeds leaves what its body leaves.
  pub transaction-ok :
      (a : A)
      → (transaction e e' body db).0 ≡ ok a
      → ((body (begun db)).0 ≡ ok a)
        × ((transaction e e' body db).1
            ≡ record (body (begun db)).1 { faults = later (body (begun db)).1.faults })
  unfolding transaction
  transaction-ok a h = elim (Bool-cases (failing db.faults)) [
    | inl f ↦ absurd (ground arith)
    | inr f ↦ elim (Result-cases (body (begun db)).0) [
      | inr (x, r) ↦ absurd (ground arith)
      | inl (x, r) ↦ elim (Bool-cases (failing (body (begun db)).1.faults)) [
        | inl g ↦ absurd (ground arith)
        | inr g ↦ (r ∙ rw (f, r, g) at h, rw (f, r, g) refl)
      ]
    ]
  ]
