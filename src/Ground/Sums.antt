-- ===== src/Ground/Sums.antt =====
-- What the loops of the arithmetic builtins of pkg/bass/ground.go compute.
use bass.Prelude.{
  ◌^◌, Bool, true, false, List, [], ◌∷◌, ◌≡◌, refl, sym, ap, ◌∙◌, ◌↔◌, arith, Bool-cases, inl, inr,
}
use bass.Prelude.Int.{ℤ, pos, ◌+ℤ◌, ◌-ℤ◌, ◌*ℤ◌, ◌≤ℤ◌, ◌<ℤ◌}
use bass.Prelude.Words.{Fits, to_int64, to_int64_of_Fits, Fits-to_int64}
use bass.Ground.Numbers.{
  sum_from, mul_from, sub_from, sum, mul, sub, chain, descending, not_ascending, ascending,
  not_descending,
}
use bass.Ground.Wrapping.{to_int64_add, to_int64_subtract, to_int64_multiply}

-- The exact results.
abbrev pub plus_all : ℤ → List ℤ → ℤ
plus_all z [] = z
plus_all z (num ∷ nums) = plus_all (z +ℤ num) nums

abbrev pub times_all : ℤ → List ℤ → ℤ
times_all z [] = z
times_all z (num ∷ nums) = times_all (z *ℤ num) nums

abbrev pub minus_all : ℤ → List ℤ → ℤ
minus_all z [] = z
minus_all z (num ∷ nums) = minus_all (z -ℤ num) nums

plus_wraps : (z : ℤ) (nums : List ℤ) → sum_from (to_int64 z) nums ≡ to_int64 (plus_all z nums)
unfolding sum_from
plus_wraps z [] = refl
plus_wraps z (num ∷ nums) = rw (to_int64_add z num) (plus_wraps (z +ℤ num) nums)

times_wraps : (z : ℤ) (nums : List ℤ) → mul_from (to_int64 z) nums ≡ to_int64 (times_all z nums)
unfolding mul_from
times_wraps z [] = refl
times_wraps z (num ∷ nums) = rw (to_int64_multiply z num) (times_wraps (z *ℤ num) nums)

minus_wraps : (z : ℤ) (nums : List ℤ) → sub_from (to_int64 z) nums ≡ to_int64 (minus_all z nums)
unfolding sub_from
minus_wraps z [] = refl
minus_wraps z (num ∷ nums) = rw (to_int64_subtract z num) (minus_wraps (z -ℤ num) nums)

-- `-` of one number negates it.
abbrev pub exact_sub : ℤ → List ℤ → ℤ
exact_sub num [] = pos 0 -ℤ num
exact_sub num (n ∷ nums) = minus_all num (n ∷ nums)

sub_wraps :
    (num : ℤ) (nums : List ℤ) → Fits (2 ^ 63) num → sub num nums ≡ to_int64 (exact_sub num nums)
unfolding sub
sub_wraps num [] h = refl
sub_wraps num (n ∷ nums) h =
    ap (λ z. sub_from z (n ∷ nums)) (sym (to_int64_of_Fits num h)) ∙ minus_wraps num (n ∷ nums)

sum_wraps : (nums : List ℤ) → sum nums ≡ to_int64 (plus_all (pos 0) nums)
unfolding sum
sum_wraps nums =
    ap (λ z. sum_from z nums) (sym (to_int64_of_Fits (pos 0) (omega arith)))
    ∙ plus_wraps (pos 0) nums

mul_wraps : (nums : List ℤ) → mul nums ≡ to_int64 (times_all (pos 1) nums)
unfolding mul
mul_wraps nums =
    ap (λ z. mul_from z nums) (sym (to_int64_of_Fits (pos 1) (omega arith)))
    ∙ times_wraps (pos 1) nums

-- `+`, `*` and `-` wrap around at every step, and their results are Go ints: the exact results,
-- wrapped around once. The first number of `-` is a Go int.
pub wraps_once :
    (num : ℤ) (nums : List ℤ)
    → Fits (2 ^ 63) num
    → (sum nums ≡ to_int64 (plus_all (pos 0) nums))
      × (mul nums ≡ to_int64 (times_all (pos 1) nums))
      × (sub num nums ≡ to_int64 (exact_sub num nums))
      × Fits (2 ^ 63) (sum nums)
      × Fits (2 ^ 63) (mul nums)
      × Fits (2 ^ 63) (sub num nums)
wraps_once num nums h =
    let s = sum_wraps nums in
    let m = mul_wraps nums in
    let d = sub_wraps num nums h in
    (s, m, d, rw s (Fits-to_int64 _), rw m (Fits-to_int64 _), rw d (Fits-to_int64 _))

-- The numbers of a list are related, each to every later one.
abbrev pub All : (ℤ → Type 0) → List ℤ → Type 0
All P [] = Unit
All P (num ∷ nums) = P num × All P nums

abbrev pub Ordered : (ℤ → ℤ → Type 0) → List ℤ → Type 0
Ordered R [] = Unit
Ordered R (num ∷ nums) = All (R num) nums × Ordered R nums

module _ (stop : ℤ → ℤ → Bool) (R : ℤ → ℤ → Type 0)
    (transitive : (a b c : ℤ) → R a b → R b c → R a c)
    (goes_on : (a b : ℤ) → stop a b ≡ false → R a b)
    (stops : (a b : ℤ) → stop a b ≡ true → R a b → ⊥) where
  All-later : (a b : ℤ) (nums : List ℤ) → R a b → All (R b) nums → All (R a) nums
  All-later a b [] h g = tt
  All-later a b (num ∷ nums) h g = (transitive a b num h g.0, All-later a b nums h g.1)

  Ordered-of_chain : (num : ℤ) (nums : List ℤ) → chain stop num nums ≡ true → Ordered R (num ∷ nums)
  unfolding chain
  Ordered-of_chain num [] h = (tt, tt)
  Ordered-of_chain num (n ∷ nums) h = elim (Bool-cases (stop num n)) [
    | inl e ↦ absurd (ground (arith, h, e))
    | inr e ↦
        let rest = Ordered-of_chain n nums (ground (arith, h, e)) in
        ((goes_on num n e, All-later num n nums (goes_on num n e) rest.0), rest)
  ]

  chain_of_Ordered : (num : ℤ) (nums : List ℤ) → Ordered R (num ∷ nums) → chain stop num nums ≡ true
  unfolding chain
  chain_of_Ordered num [] h = refl
  chain_of_Ordered num (n ∷ nums) h = elim (Bool-cases (stop num n)) [
    | inl e ↦ absurd (stops num n e h.0.0)
    | inr e ↦ rw e (chain_of_Ordered n nums h.1)
  ]

  chain_iff : (num : ℤ) (nums : List ℤ) → (chain stop num nums ≡ true) ↔ Ordered R (num ∷ nums)
  chain_iff num nums = (Ordered-of_chain num nums, chain_of_Ordered num nums)

-- `>`, `>=`, `<` and `<=` are true exactly if every number is related so to all the later ones.
pub comparisons_lem :
    (num : ℤ) (nums : List ℤ)
    → ((descending num nums ≡ true) ↔ Ordered (λ a b. b <ℤ a) (num ∷ nums))
      × ((not_ascending num nums ≡ true) ↔ Ordered (λ a b. b ≤ℤ a) (num ∷ nums))
      × ((ascending num nums ≡ true) ↔ Ordered (λ a b. a <ℤ b) (num ∷ nums))
      × ((not_descending num nums ≡ true) ↔ Ordered (λ a b. a ≤ℤ b) (num ∷ nums))
unfolding descending not_ascending ascending not_descending
comparisons_lem num nums = (
  chain_iff _ (λ a b. b <ℤ a) (λ a b c h g. omega (arith, h, g)) (λ a b h. ground (arith, h))
      (λ a b h g. ground (arith, h, g)) num nums,
  chain_iff _ (λ a b. b ≤ℤ a) (λ a b c h g. omega (arith, h, g)) (λ a b h. ground (arith, h))
      (λ a b h g. ground (arith, h, g)) num nums,
  chain_iff _ (λ a b. a <ℤ b) (λ a b c h g. omega (arith, h, g)) (λ a b h. ground (arith, h))
      (λ a b h g. ground (arith, h, g)) num nums,
  chain_iff _ (λ a b. a ≤ℤ b) (λ a b c h g. omega (arith, h, g)) (λ a b h. ground (arith, h))
      (λ a b h g. ground (arith, h, g)) num nums,
)
