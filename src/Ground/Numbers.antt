-- ===== src/Ground/Numbers.antt =====
-- The arithmetic builtins of pkg/bass/ground.go, on Go ints of 64 bits, whose operations wrap around.
use bass.Prelude.{
  zero, suc, ◌/◌, Bool, true, false, Option, none, some, List, [], ◌∷◌, if◌then◌else◌,
}
use bass.Prelude.Int.{ℤ, pos, negsuc, ◌+ℤ◌, ◌-ℤ◌, ◌*ℤ◌, ltb_ℤ, leb_ℤ}
use bass.Prelude.Words.{to_int64}

-- The loops of `+`, `*` and `-`.
unfoldable pub sum_from : ℤ → List ℤ → ℤ
unfolding to_int64 ◌+ℤ◌
sum_from sum [] = sum
sum_from sum (num ∷ nums) = sum_from (to_int64 (sum +ℤ num)) nums

unfoldable pub mul_from : ℤ → List ℤ → ℤ
unfolding to_int64 ◌*ℤ◌
mul_from mul [] = mul
mul_from mul (num ∷ nums) = mul_from (to_int64 (mul *ℤ num)) nums

unfoldable pub sub_from : ℤ → List ℤ → ℤ
unfolding to_int64 ◌-ℤ◌
sub_from sub [] = sub
sub_from sub (num ∷ nums) = sub_from (to_int64 (sub -ℤ num)) nums

-- `+`.
unfoldable pub sum : List ℤ → ℤ
unfolding sum_from
sum nums = sum_from (pos 0) nums

-- `*`.
unfoldable pub mul : List ℤ → ℤ
unfolding mul_from
mul nums = mul_from (pos 1) nums

-- `-`.
unfoldable pub sub : ℤ → List ℤ → ℤ
unfolding sub_from to_int64 ◌-ℤ◌
sub num [] = to_int64 (pos 0 -ℤ num)
sub num (n ∷ nums) = sub_from num (n ∷ nums)

-- Division truncates towards zero.
abbrev truncated : ℤ → ℤ → ℤ
truncated (pos n) (pos d) = pos (n / d)
truncated (pos n) (negsuc d) = pos 0 -ℤ pos (n / suc d)
truncated (negsuc n) (pos d) = pos 0 -ℤ pos (suc n / d)
truncated (negsuc n) (negsuc d) = pos (suc n / suc d)

-- `quot`; `none` is the panic of a division by zero.
unfoldable pub quot : ℤ → ℤ → Option ℤ
unfolding to_int64 ◌-ℤ◌
quot num (pos zero) = none
quot num denom = some (to_int64 (truncated num denom))

-- `max` and `min`.
unfoldable pub max : ℤ → List ℤ → ℤ
max best [] = best
max best (num ∷ nums) = max (if ltb_ℤ best num then num else best) nums

unfoldable pub min : ℤ → List ℤ → ℤ
min best [] = best
min best (num ∷ nums) = min (if ltb_ℤ num best then num else best) nums

-- The loop of `>`, `>=`, `<` and `<=`: each number is tested against the one before it.
unfoldable pub chain : (ℤ → ℤ → Bool) → ℤ → List ℤ → Bool
chain stop last [] = true
chain stop last (num ∷ nums) =
    let rest = chain stop num nums in if stop last num then false else rest

-- `>`.
unfoldable pub descending : ℤ → List ℤ → Bool
unfolding chain
descending num nums = chain (λ last n. leb_ℤ last n) num nums

-- `>=`.
unfoldable pub not_ascending : ℤ → List ℤ → Bool
unfolding chain
not_ascending num nums = chain (λ last n. ltb_ℤ last n) num nums

-- `<`.
unfoldable pub ascending : ℤ → List ℤ → Bool
unfolding chain
ascending num nums = chain (λ last n. leb_ℤ n last) num nums

-- `<=`.
unfoldable pub not_descending : ℤ → List ℤ → Bool
unfolding chain
not_descending num nums = chain (λ last n. ltb_ℤ n last) num nums
