-- ===== src/Memo/Results.antt =====
-- The loop of `Lockfile.Store` over the results of one call, and what it leaves to be found.
use bass.Prelude.{
  ◌≡◌, refl, Bool, true, false, ◌||◌, Option, none, some, List, [], ◌∷◌, ◌++◌, if◌then◌else◌,
  map_accum, arith,
}
use bass.Memo.Content.{MemoResult, find_result, store_result}

-- `gproto.Equal` is an equivalence.
pub record IsEquivalence {Msg : Type 0} (equal : Msg → Msg → Bool) : Type 0 where
  pub reflexive : (a : Msg) → equal a a ≡ true
  pub symmetric : (a b : Msg) → equal a b ≡ true → equal b a ≡ true
  pub transitive : (a b c : Msg) → equal a b ≡ true → equal b c ≡ true → equal a c ≡ true

abbrev pub or_else : {A : Type 0} → Option A → Option A → Option A
or_else none o = o
or_else (some a) o = some a

abbrev pub replaced : {A : Type 0} → A → Option A → Option A
replaced b none = none
replaced b (some a) = some b

abbrev pub is_found : {A : Type 0} → Option A → Bool
is_found none = false
is_found (some a) = true

module _ {Msg : Type 0} (equal : Msg → Msg → Bool) (eqv : IsEquivalence equal) where
  -- Equal messages compare alike.
  pub equal_congr : (a b c : Msg) → equal a b ≡ true → equal a c ≡ equal b c
  equal_congr a b c h =
      ground (arith, eqv.symmetric a b, eqv.transitive a b c, eqv.transitive b a c)

  pub equal_congr_right : (a b c : Msg) → equal a b ≡ true → equal c a ≡ equal c b
  equal_congr_right a b c h =
      ground (arith, eqv.symmetric a b, eqv.transitive c a b, eqv.transitive c b a)

  module _ (ip op jp : Msg) where
    pub find_result-congr :
        (rs : List (MemoResult Msg))
        → equal ip jp ≡ true
        → find_result equal jp rs ≡ find_result equal ip rs
    unfolding find_result
    find_result-congr [] h = refl
    find_result-congr (r ∷ rs) h =
        ground (arith, equal_congr_right ip jp r.input, find_result-congr rs h)

    pub find_result-append :
        (rs : List (MemoResult Msg))
        → find_result equal jp (rs ++ record { input = ip; output = op } ∷ [])
          ≡ or_else (find_result equal jp rs) (if equal ip jp then some op else none)
    unfolding find_result
    find_result-append [] = refl
    find_result-append (r ∷ rs) = ground (arith, find_result-append rs)

    -- The loop over the results of one call: what it leaves to be found, and its flag.
    pub find_result-store_result :
        (rs : List (MemoResult Msg)) (u : Bool)
        → find_result equal jp (map_accum (store_result equal ip op) rs u).0
          ≡ (if equal ip jp then replaced op (find_result equal jp rs) else find_result equal jp rs)
    unfolding find_result store_result
    find_result-store_result [] u = ground arith
    find_result-store_result (r ∷ rs) u = ground (
      arith,
      equal_congr r.input ip jp,
      equal_congr_right ip jp r.input,
      find_result-store_result rs u,
      find_result-store_result rs true,
    )

    pub updated-store_result :
        (rs : List (MemoResult Msg)) (u : Bool)
        → (map_accum (store_result equal ip op) rs u).1 ≡ (u || is_found (find_result equal ip rs))
    unfolding find_result store_result
    updated-store_result [] u = ground arith
    updated-store_result (r ∷ rs) u =
        ground (arith, updated-store_result rs u, updated-store_result rs true)
