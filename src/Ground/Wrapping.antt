-- ===== src/Ground/Wrapping.antt =====
-- Wrapping around once gives what wrapping at every step gives.
use bass.Prelude.{ℕ, ◌+◌, ◌*◌, ◌%◌, ◌/◌, ◌^◌, ◌-◌, ltb, Bool-cases, inl, inr, ap, ◌≡◌, arith}
use bass.Prelude.Int.{
  ℤ, pos, negsuc, ◌+ℤ◌, ◌-ℤ◌, ◌*ℤ◌, pos_part, neg_part, +ℤ_parts, -ℤ_parts, *ℤ_parts,
}
use bass.Prelude.Words.{to_int64}

-- Two integers that differ by a multiple of the modulus.
abbrev Congruent : ℤ → ℤ → Type 0
Congruent a b =
    (p : ℕ) × (q : ℕ) × (pos_part a + neg_part b + p * 2 ^ 64
      ≡ pos_part b + neg_part a + q * 2 ^ 64)

to_int64-Congruent : (a : ℤ) → Congruent (to_int64 a) a
unfolding to_int64
to_int64-Congruent (pos n) = elim (Bool-cases (ltb (n % 2 ^ 64) (2 ^ 63))) [
  | inl e ↦ (n / 2 ^ 64, 0, ground (arith, e))
  | inr e ↦ (n / 2 ^ 64 + 1, 0, ground (arith, e))
]
to_int64-Congruent (negsuc n) = elim (Bool-cases (ltb (2 ^ 64 - 1 - n % 2 ^ 64) (2 ^ 63))) [
  | inl e ↦ (0, n / 2 ^ 64 + 1, ground (arith, e))
  | inr e ↦ (0, n / 2 ^ 64, ground (arith, e))
]

to_int64_of_Congruent : (a b : ℤ) → Congruent a b → to_int64 a ≡ to_int64 b
unfolding to_int64
to_int64_of_Congruent a b (p, q, h) = ground (arith, h)

sum-Congruent : (a a' b : ℤ) → Congruent a a' → Congruent (a +ℤ b) (a' +ℤ b)
sum-Congruent a a' b (p, q, h) = (p, q, omega (arith, h, +ℤ_parts a b, +ℤ_parts a' b))

difference-Congruent : (a a' b : ℤ) → Congruent a a' → Congruent (a -ℤ b) (a' -ℤ b)
difference-Congruent a a' b (p, q, h) = (p, q, omega (arith, h, -ℤ_parts a b, -ℤ_parts a' b))

product-Congruent : (a a' b : ℤ) → Congruent a a' → Congruent (a *ℤ b) (a' *ℤ b)
product-Congruent a a' b (p, q, h) = (
  p * pos_part b + q * neg_part b,
  q * pos_part b + p * neg_part b,
  grind
      (arith, *ℤ_parts a b, *ℤ_parts a' b, ap (λ t. t * pos_part b) h, ap (λ t. t * neg_part b) h),
)

pub to_int64_add : (a b : ℤ) → to_int64 (to_int64 a +ℤ b) ≡ to_int64 (a +ℤ b)
to_int64_add a b =
    to_int64_of_Congruent (to_int64 a +ℤ b) (a +ℤ b)
      (sum-Congruent (to_int64 a) a b (to_int64-Congruent a))

pub to_int64_subtract : (a b : ℤ) → to_int64 (to_int64 a -ℤ b) ≡ to_int64 (a -ℤ b)
to_int64_subtract a b =
    to_int64_of_Congruent (to_int64 a -ℤ b) (a -ℤ b)
      (difference-Congruent (to_int64 a) a b (to_int64-Congruent a))

pub to_int64_multiply : (a b : ℤ) → to_int64 (to_int64 a *ℤ b) ≡ to_int64 (a *ℤ b)
to_int64_multiply a b =
    to_int64_of_Congruent (to_int64 a *ℤ b) (a *ℤ b)
      (product-Congruent (to_int64 a) a b (to_int64-Congruent a))
