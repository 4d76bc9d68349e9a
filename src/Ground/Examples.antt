-- ===== src/Ground/Examples.antt =====
-- The arithmetic builtins at concrete inputs.
use bass.Prelude.{◌^◌, ◌-◌, ◌≡◌, ◌↔◌, refl, true, some, none, List, [], ◌∷◌, arith}
use bass.Prelude.Int.{ℤ, pos, negsuc, ◌+ℤ◌, ◌-ℤ◌, ◌≤ℤ◌, ◌<ℤ◌}
use bass.Prelude.Words.{Fits, to_int64}
use bass.Ground.Numbers.{
  sum_from, sum, mul, sub, quot, descending, not_ascending, ascending, not_descending,
}
use bass.Ground.Sums.{plus_all, times_all, exact_sub, wraps_once, Ordered, comparisons_lem}

-- The largest Go int and one more is the smallest one.
sum_overflows : sum (pos (2 ^ 63 - 1) ∷ pos 1 ∷ []) ≡ negsuc (2 ^ 63 - 1)
unfolding sum sum_from to_int64 ◌+ℤ◌
sum_overflows = refl

-- Division truncates towards zero, and by zero it panics.
quot_truncates : quot (negsuc 6) (pos 2) ≡ some (negsuc 2)
unfolding quot to_int64 ◌-ℤ◌
quot_truncates = refl

quot_by_zero : quot (pos 1) (pos 0) ≡ none
unfolding quot
quot_by_zero = refl

abbrev nums : List ℤ
nums = pos (2 ^ 62) ∷ pos 4 ∷ []

wraps_once_example :
    (sum nums ≡ to_int64 (plus_all (pos 0) nums))
    × (mul nums ≡ to_int64 (times_all (pos 1) nums))
    × (sub (negsuc 4) nums ≡ to_int64 (exact_sub (negsuc 4) nums))
    × Fits (2 ^ 63) (sum nums)
    × Fits (2 ^ 63) (mul nums)
    × Fits (2 ^ 63) (sub (negsuc 4) nums)
wraps_once_example = wraps_once (negsuc 4) nums (omega arith)

comparisons_lem_example :
    ((descending (pos 9) nums ≡ true) ↔ Ordered (λ a b. b <ℤ a) (pos 9 ∷ nums))
    × ((not_ascending (pos 9) nums ≡ true) ↔ Ordered (λ a b. b ≤ℤ a) (pos 9 ∷ nums))
    × ((ascending (pos 9) nums ≡ true) ↔ Ordered (λ a b. a <ℤ b) (pos 9 ∷ nums))
    × ((not_descending (pos 9) nums ≡ true) ↔ Ordered (λ a b. a ≤ℤ b) (pos 9 ∷ nums))
comparisons_lem_example = comparisons_lem (pos 9) nums
