-- ===== src/Thunk/Slices.antt =====
-- The slices of a thunk (pkg/bass/thunk.go): a thunk is passed by value, and its copy shares the arrays
-- behind its slices, which `append` writes to in place where they have room.
use native.Mathlib.Nat.{zero-add, suc-add}
use bass.Prelude.{
  Bool, true, false, ℕ, zero, suc, ◌+◌, ◌≤◌, ◌<◌, ltb, leb, List, [], ◌∷◌, ◌++◌, ◌≡◌, refl, ap,
  length, set, replicate, arith, if◌then◌else◌,
}

-- Every slice of a thunk starts where its array does; its capacity is the length of the array.
pub record Slice : Type 0 where
  pub array : ℕ
  pub len : ℕ

abbrev pub take {ℓ} : {A : Type ℓ} → ℕ → List A → List A
take zero xs = []
take (suc n) [] = []
take (suc n) (x ∷ xs) = x ∷ take n xs

-- The copying of elements into an array, up to its end.
abbrev pub write {ℓ} : {A : Type ℓ} → ℕ → List A → List A → List A
write i xs [] = []
write zero [] (a ∷ as_) = a ∷ as_
write zero (x ∷ xs) (a ∷ as_) = x ∷ write zero xs as_
write (suc i) xs (a ∷ as_) = a ∷ write i xs as_

abbrev pub array_at {ℓ} : {A : Type ℓ} → List (List A) → ℕ → List A
array_at [] i = []
array_at (a ∷ as_) zero = a
array_at (a ∷ as_) (suc i) = array_at as_ i

abbrev pub read {ℓ} : {A : Type ℓ} → List (List A) → Slice → List A
read st s = take s.len (array_at st s.array)

-- A slice lies within an array that was allocated.
abbrev pub IsSlice {ℓ} : {A : Type ℓ} → List (List A) → Slice → Type 0
IsSlice st s = (s.array < length st) × (s.len ≤ length (array_at st s.array))

-- The first of the arguments is the command.
abbrev pub keep_command {ℓ} : {A : Type ℓ} → List A → List A → List A
keep_command [] given = given
keep_command (cmd ∷ old) given = cmd ∷ given

-- `spare` is the room that `append` leaves in a new array, by the old capacity and the new length, and
-- `blank` is the zero value.
module _ {ℓ} {A : Type ℓ} (blank : A) (spare : ℕ → ℕ → ℕ) where
  -- What `append` does, by whether the array has room: the arrays after it and the result.
  unfoldable pub append_into : Bool → Slice → List A → List (List A) → List (List A) × Slice
  append_into true s xs st =
      (set st s.array (write s.len xs (array_at st s.array)), record s { len = s.len + length xs })
  append_into false s xs st =
      let old = array_at st s.array in
      let n = s.len + length xs in
      (
        st ++ (take s.len old ++ xs ++ replicate (spare (length old) n) blank) ∷ [],
        record { array = length st; len = n },
      )

  -- Go's `append`.
  unfoldable pub append : Slice → List A → List (List A) → List (List A) × Slice
  unfolding append_into
  append s xs st = append_into (leb (s.len + length xs) (length (array_at st s.array))) s xs st

  -- `WithArgs`, on the slice of the thunk's arguments and the slice of the given ones.
  unfoldable pub with_args : Slice → Slice → List (List A) → List (List A) × Slice
  unfolding append
  with_args s given st =
      if ltb 0 s.len then append (record s { len = 1 }) (read st given) st else (st, given)

module _ {ℓ} {A : Type ℓ} where
  pub take-write_start :
      (xs old : List A) → length xs ≤ length old → take (length xs) (write 0 xs old) ≡ xs
  take-write_start [] old h = refl
  take-write_start (x ∷ xs) [] h = absurd (omega (arith, h))
  take-write_start (x ∷ xs) (a ∷ old) h =
      ap (λ ys. x ∷ ys) (take-write_start xs old (omega (arith, h)))

  pub take-write_end :
      (i : ℕ) (xs old : List A)
      → i + length xs ≤ length old
      → take (i + length xs) (write i xs old) ≡ take i old ++ xs
  take-write_end zero xs old h =
      rw (zero-add (length xs)) (take-write_start xs old (omega (arith, h)))
  take-write_end (suc i) xs [] h = absurd (omega (arith, h))
  take-write_end (suc i) xs (a ∷ old) h =
      rw (suc-add i (length xs)) (ap (λ ys. a ∷ ys) (take-write_end i xs old (omega (arith, h))))

  pub take-write : (n i : ℕ) (xs old : List A) → take n (write i xs old) ≡ write i xs (take n old)
  take-write zero i xs [] = refl
  take-write zero i xs (a ∷ old) = refl
  take-write (suc n) i xs [] = refl
  take-write (suc n) zero [] (a ∷ old) = refl
  take-write (suc n) zero (x ∷ xs) (a ∷ old) = ap (λ ys. x ∷ ys) (take-write n zero xs old)
  take-write (suc n) (suc i) xs (a ∷ old) = ap (λ ys. a ∷ ys) (take-write n i xs old)

  pub take-write_before : (n i : ℕ) (xs old : List A) → n ≤ i → take n (write i xs old) ≡ take n old
  take-write_before zero i xs old h = refl
  take-write_before (suc n) i xs [] h = refl
  take-write_before (suc n) zero xs (a ∷ old) h = absurd (omega (arith, h))
  take-write_before (suc n) (suc i) xs (a ∷ old) h =
      ap (λ ys. a ∷ ys) (take-write_before n i xs old (omega (arith, h)))

  pub array_at-set :
      (st : List (List A)) (i : ℕ) (a : List A) → i < length st → array_at (set st i a) i ≡ a
  array_at-set [] i a h = elim h [ ]
  array_at-set (b ∷ st) zero a h = refl
  array_at-set (b ∷ st) (suc i) a h = array_at-set st i a (omega arith)

  pub array_at-end : (st : List (List A)) (a : List A) → array_at (st ++ a ∷ []) (length st) ≡ a
  array_at-end [] a = refl
  array_at-end (b ∷ st) a = array_at-end st a

  pub array_at-append :
      (st : List (List A)) (a : List A) (i : ℕ)
      → i < length st
      → array_at (st ++ a ∷ []) i ≡ array_at st i
  array_at-append [] a i h = elim h [ ]
  array_at-append (b ∷ st) a zero h = refl
  array_at-append (b ∷ st) a (suc i) h = array_at-append st a i (omega arith)

  pub take-append_all : (xs rest : List A) → take (length xs) (xs ++ rest) ≡ xs
  take-append_all [] rest = refl
  take-append_all (x ∷ xs) rest = ap (λ ys. x ∷ ys) (take-append_all xs rest)

  pub take_all :
      (i : ℕ) (old xs rest : List A)
      → i ≤ length old
      → take (i + length xs) (take i old ++ xs ++ rest) ≡ take i old ++ xs
  take_all zero old xs rest h = rw (zero-add (length xs)) (take-append_all xs rest)
  take_all (suc i) [] xs rest h = absurd (omega (arith, h))
  take_all (suc i) (a ∷ old) xs rest h =
      rw (suc-add i (length xs)) (ap (λ ys. a ∷ ys) (take_all i old xs rest (omega (arith, h))))

  pub length-take : (n : ℕ) (xs : List A) → n ≤ length xs → length (take n xs) ≡ n
  length-take zero xs h = refl
  length-take (suc n) [] h = absurd (omega (arith, h))
  length-take (suc n) (x ∷ xs) h = ap suc (length-take n xs (omega (arith, h)))
