-- ===== src/Memo/Calls.antt =====
-- The loop of `Lockfile.Store` over the calls of one module, and what it leaves to be found.
use bass.Prelude.{
  Text, text_eq, text_eq_iff, Bool-cases, inl, inr, ◌≡◌, refl, Bool, true, false, ◌&&◌, ◌||◌, none,
  some, List, [], ◌∷◌, ◌++◌, if◌then◌else◌, map_accum, arith,
}
use bass.Memo.Content.{MemoCall, Flags, find_result, find_call, store_result, store_call, new_call}
use bass.Memo.Results.{
  IsEquivalence, or_else, find_result-congr, find_result-append, find_result-store_result,
  updated-store_result,
}

module _ {Msg : Type 0} (equal : Msg → Msg → Bool) (eqv : IsEquivalence equal) where
  module _ (binding : Text) (ip op : Msg) where
    -- A matching call holds the new output after the loop and the append.
    pub find_result-store_call :
        (jp : Msg) (call : MemoCall Msg) (flags : Flags)
        → text_eq call.binding binding ≡ true
        → flags.updated ≡ false
        → equal ip jp ≡ true
        → find_result equal jp (store_call equal binding ip op call flags).0.results ≡ some op
    unfolding store_call
    find_result-store_call jp call flags b u h = ground (
      arith,
      find_result-store_result equal eqv ip op jp call.results flags.updated,
      updated-store_result equal eqv ip op jp call.results flags.updated,
      find_result-congr equal eqv ip op jp call.results,
      find_result-append equal eqv ip op jp
          (map_accum (store_result equal ip op) call.results flags.updated).0,
    )

    pub store_call-skip :
        (call : MemoCall Msg) (flags : Flags)
        → text_eq call.binding binding ≡ false
        → store_call equal binding ip op call flags ≡ (call, flags)
    unfolding store_call
    store_call-skip call flags h = rw h

    pub binding-store_call :
        (call : MemoCall Msg) (flags : Flags)
        → (store_call equal binding ip op call flags).0.binding ≡ call.binding
    unfolding store_call
    binding-store_call call flags = ground arith

    pub found_call-store_call :
        (call : MemoCall Msg) (flags : Flags)
        → (store_call equal binding ip op call flags).1.found_call
          ≡ (text_eq call.binding binding || flags.found_call)
    unfolding store_call
    found_call-store_call call flags = ground arith

    pub found_call-store_calls :
        (calls : List (MemoCall Msg)) (flags : Flags)
        → flags.found_call ≡ true
        → (map_accum (store_call equal binding ip op) calls flags).1.found_call ≡ true
    found_call-store_calls [] flags h = h
    found_call-store_calls (call ∷ rest) flags h =
        found_call-store_calls rest (store_call equal binding ip op call flags).1
          (ground (arith, found_call-store_call call flags))

    pub found_mod-store_calls :
        (calls : List (MemoCall Msg)) (flags : Flags)
        → (map_accum (store_call equal binding ip op) calls flags).1.found_mod ≡ flags.found_mod
    unfolding store_call
    found_mod-store_calls [] flags = refl
    found_mod-store_calls (call ∷ rest) flags =
        ground (arith, found_mod-store_calls rest (store_call equal binding ip op call flags).1)

    -- With the flags clear, the loop over the calls finds the call exactly when its flag says so.
    pub find_call-store_calls :
        (jp : Msg) (calls : List (MemoCall Msg)) (flags : Flags)
        → flags.updated ≡ false
        → flags.found_call ≡ false
        → equal ip jp ≡ true
        → find_call equal binding jp (map_accum (store_call equal binding ip op) calls flags).0 ≡ (
            if (map_accum (store_call equal binding ip op) calls flags).1.found_call
            then some op
            else none)
    unfolding find_call
    find_call-store_calls jp [] flags u f h = ground arith
    find_call-store_calls jp (call ∷ rest) flags u f h =
        elim (Bool-cases (text_eq call.binding binding)) [
          | inl b ↦ ground (
            arith,
            binding-store_call call flags,
            find_result-store_call jp call flags b u h,
            found_call-store_call call flags,
            found_call-store_calls rest (store_call equal binding ip op call flags).1,
          )
          | inr b ↦ rw (store_call-skip call flags b, b) (find_call-store_calls jp rest flags u f h)
        ]

    pub find_call-append :
        (c : Text) (jp : Msg) (calls : List (MemoCall Msg))
        → find_call equal c jp (calls ++ new_call binding ip op ∷ [])
          ≡ or_else
              (find_call equal c jp calls)
              (if text_eq binding c && equal ip jp then some op else none)
    unfolding find_call find_result
    find_call-append c jp [] = ground arith
    find_call-append c jp (call ∷ rest) = ground (arith, find_call-append c jp rest)

    -- What the loops leave of another key.
    pub find_result-store_call_ne :
        (c : Text) (jp : Msg) (call : MemoCall Msg) (flags : Flags)
        → (text_eq binding c && equal ip jp) ≡ false
        → text_eq call.binding c ≡ true
        → find_result equal jp (store_call equal binding ip op call flags).0.results
          ≡ find_result equal jp call.results
    unfolding store_call
    find_result-store_call_ne c jp call flags h b = ground (
      arith,
      text_eq_iff call.binding c,
      text_eq_iff call.binding binding,
      text_eq_iff binding c,
      find_result-store_result equal eqv ip op jp call.results flags.updated,
      find_result-append equal eqv ip op jp
          (map_accum (store_result equal ip op) call.results flags.updated).0,
    )

    pub find_call-store_calls_ne :
        (c : Text) (jp : Msg) (calls : List (MemoCall Msg)) (flags : Flags)
        → (text_eq binding c && equal ip jp) ≡ false
        → find_call equal c jp (map_accum (store_call equal binding ip op) calls flags).0
          ≡ find_call equal c jp calls
    unfolding find_call
    find_call-store_calls_ne c jp [] flags h = refl
    find_call-store_calls_ne c jp (call ∷ rest) flags h = ground (
      arith,
      binding-store_call call flags,
      find_result-store_call_ne c jp call flags h,
      find_call-store_calls_ne c jp rest (store_call equal binding ip op call flags).1 h,
    )
