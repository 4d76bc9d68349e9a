-- ===== src/Prelude/Results.antt =====
-- Go's pairs of a value and an error, and the chain of fallible calls.
use mathlib.Core.Path.{◌≡◌, refl}

-- The error comes first, as in `Result Text ℕ`.
pub data Result {ε ℓ} (Failure : Type ε) (A : Type ℓ) : Type (ε ⊔ ℓ) where
  err : Failure → Result Failure A
  ok : A → Result Failure A

-- The early return on an error.
infixl 5 ◌>>=◌
abbrev pub ◌>>=◌ {ε ℓ κ} :
    {Failure : Type ε} {A : Type ℓ} {B : Type κ}
    → Result Failure A
    → (A → Result Failure B)
    → Result Failure B
err failure >>= next = err failure
ok x >>= next = next x

-- A chain succeeds only if its first call does.
pub >>=-eq-ok :
    {Failure A B : Type 0} (first : Result Failure A) (next : A → Result Failure B) {b : B}
    → (first >>= next) ≡ ok b
    → (x : A) × (first ≡ ok x) × (next x ≡ ok b)
>>=-eq-ok (err failure) next h = cc
>>=-eq-ok (ok x) next h = (x, refl, h)
