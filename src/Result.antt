-- ===== src/Result.antt =====
-- Go's (value, error) pair as a value, and calls that read and write a store and may fail.
-- What was written before an error stays written, so the store comes back beside the error.
use my_kb.Prelude.{Bool, true, false, ◌≡◌, refl, ◌⊎◌, inl, inr}

pub data Result {ℓ} (E A : Type ℓ) : Type ℓ where
  ok : A → Result E A
  err : E → Result E A

abbrev pub Exec {ℓ} : Type ℓ → Type ℓ → Type ℓ → Type ℓ
Exec S E A = S → Result E A × S

module _ {ℓ} {S E A : Type ℓ} where
  abbrev pub pure : A → Exec S E A
  pure a s = (ok a, s)

  abbrev pub fail : E → Exec S E A
  fail e s = (err e, s)

  -- A call that reads and writes no store.
  abbrev pub lift : Result E A → Exec S E A
  lift r s = (r, s)

  -- if test { return err }
  abbrev pub fail_if : Bool → E → Exec S E A → Exec S E A
  fail_if true e rest s = (err e, s)
  fail_if false e rest s = rest s

module _ {ℓ} {S E A B : Type ℓ} where
  abbrev pub and_then : Result E A → (A → Exec S E B) → Exec S E B
  and_then (ok a) f s = f a s
  and_then (err e) f s = (err e, s)

  infixl 5 ◌>>=◌ ◌>>◌
  abbrev pub ◌>>=◌ : Exec S E A → (A → Exec S E B) → Exec S E B
  ◌>>=◌ m f s = let (r, s') = m s in and_then r f s'

  abbrev pub ◌>>◌ : Exec S E A → Exec S E B → Exec S E B
  m >> n = m >>= λ _. n

module _ {ℓ} {E F A : Type ℓ} where
  abbrev pub map_err : (E → F) → Result E A → Result F A
  map_err f (ok a) = ok a
  map_err f (err e) = err (f e)

module _ {ℓ} {S E F A : Type ℓ} where
  -- The caller inspects the error: `value, err := m()`.
  abbrev pub attempt : Exec S E A → Exec S F (Result E A)
  attempt m s = let (r, s') = m s in (ok r, s')

  -- The caller wraps the error: `fmt.Errorf("%w: %v", ErrX, err)`.
  abbrev pub wrap : (E → F) → Exec S E A → Exec S F A
  wrap f m s = let (r, s') = m s in (map_err f r, s')

pub Result-cases {ℓ} :
    {E A : Type ℓ} (r : Result E A) → ((a : A) × (r ≡ ok a)) ⊎ ((e : E) × (r ≡ err e))
Result-cases (ok a) = inl (a, refl)
Result-cases (err e) = inr (e, refl)

module _ {ℓ} {S E A B : Type ℓ} where
  -- A chain ends well where its first call does and the rest does on what that call left.
  pub >>=-ok :
      (m : Exec S E A) (f : A → Exec S E B) (s : S) (b : B)
      → ((m >>= f) s).0 ≡ ok b
      → (a : A) × ((m s).0 ≡ ok a) × ((f a (m s).1).0 ≡ ok b)
  >>=-ok m f s b h = elim (Result-cases (m s).0) [
    | inl (a, e) ↦ (a, e, rw e at h)
    | inr (x, e) ↦ absurd (cc (rw e at h))
  ]

module _ {ℓ} {S E A : Type ℓ} where
  pub fail_if-ok :
      (test : Bool) (e : E) (rest : Exec S E A) (s : S) (a : A)
      → (fail_if test e rest s).0 ≡ ok a
      → (test ≡ false) × ((rest s).0 ≡ ok a)
  fail_if-ok true e rest s a h = absurd (cc)
  fail_if-ok false e rest s a h = (refl, h)
