-- ===== src/Memo/Store.antt =====
-- What `retrieveMemo` finds after `Lockfile.Store`.
use bass.Prelude.{
  Text, text_eq, text_eq_iff, text_eq_refl, Bool-cases, inl, inr, ◌≡◌, refl, Bool, true, false,
  ◌&&◌, ◌||◌, none, some, List, [], ◌∷◌, ◌++◌, if◌then◌else◌, map_accum, arith,
}
use bass.Memo.Content.{
  MemoModule, Flags, no_flags, find_result, find_call, find_memo, store_call, new_call, store_memo,
  store_memos,
}
use bass.Memo.Results.{IsEquivalence, or_else, equal_congr_right}
use bass.Memo.Calls.{
  find_call-store_calls, find_call-append, find_call-store_calls_ne, found_mod-store_calls,
}

module _ {Msg : Type 0} (equal : Msg → Msg → Bool) (eqv : IsEquivalence equal) where
  module _ (tp : Msg) (binding : Text) (ip op : Msg) where
    thunk-store_memo :
        (memo : MemoModule Msg) (flags : Flags)
        → (store_memo equal tp binding ip op memo flags).0.thunk ≡ memo.thunk
    unfolding store_memo
    thunk-store_memo memo flags = ground arith

    found_mod-store_memo :
        (memo : MemoModule Msg) (flags : Flags)
        → (store_memo equal tp binding ip op memo flags).1.found_mod
          ≡ (equal memo.thunk tp || flags.found_mod)
    unfolding store_memo
    found_mod-store_memo memo flags = ground (
      arith,
      found_mod-store_calls equal eqv binding ip op memo.calls (record flags { found_mod = true }),
    )

    store_memo-skip :
        (memo : MemoModule Msg) (flags : Flags)
        → equal memo.thunk tp ≡ false
        → store_memo equal tp binding ip op memo flags ≡ (memo, flags)
    unfolding store_memo
    store_memo-skip memo flags h = rw h

    find_call-store_memo :
        (jp : Msg) (memo : MemoModule Msg) (flags : Flags)
        → flags.updated ≡ false
        → flags.found_call ≡ false
        → equal ip jp ≡ true
        → equal memo.thunk tp ≡ true
        → find_call equal binding jp (store_memo equal tp binding ip op memo flags).0.calls
          ≡ some op
    unfolding store_memo
    find_call-store_memo jp memo flags u f h m =
        let opened : Flags = record flags { found_mod = true } in
        ground (
          arith,
          find_call-store_calls equal eqv binding ip op jp memo.calls opened u f h,
          find_call-append equal eqv binding ip op binding jp
              (map_accum (store_call equal binding ip op) memo.calls opened).0,
          text_eq_refl binding,
        )

    find_call-store_memo_ne :
        (c : Text) (jp : Msg) (memo : MemoModule Msg) (flags : Flags)
        → (text_eq binding c && equal ip jp) ≡ false
        → find_call equal c jp (store_memo equal tp binding ip op memo flags).0.calls
          ≡ find_call equal c jp memo.calls
    unfolding store_memo
    find_call-store_memo_ne c jp memo flags h =
        let opened : Flags = record flags { found_mod = true } in
        ground (
          arith,
          find_call-store_calls_ne equal eqv binding ip op c jp memo.calls opened h,
          find_call-append equal eqv binding ip op c jp
              (map_accum (store_call equal binding ip op) memo.calls opened).0,
        )

    found_mod-store_memos :
        (memos : List (MemoModule Msg)) (flags : Flags)
        → flags.found_mod ≡ true
        → (map_accum (store_memo equal tp binding ip op) memos flags).1.found_mod ≡ true
    found_mod-store_memos [] flags h = h
    found_mod-store_memos (memo ∷ rest) flags h =
        found_mod-store_memos rest (store_memo equal tp binding ip op memo flags).1
          (ground (arith, found_mod-store_memo memo flags))

    -- With the flags clear, the loop finds the key exactly when its flag says so.
    find_memo-store_memo :
        (sp jp : Msg) (memos : List (MemoModule Msg)) (flags : Flags)
        → flags.updated ≡ false
        → flags.found_call ≡ false
        → flags.found_mod ≡ false
        → equal tp sp ≡ true
        → equal ip jp ≡ true
        → find_memo equal sp binding jp
            (map_accum (store_memo equal tp binding ip op) memos flags).0
          ≡ (if (map_accum (store_memo equal tp binding ip op) memos flags).1.found_mod
              then some op
              else none)
    unfolding find_memo
    find_memo-store_memo sp jp [] flags u f m t h = ground arith
    find_memo-store_memo sp jp (memo ∷ rest) flags u f m t h =
        elim (Bool-cases (equal memo.thunk tp)) [
          | inl b ↦ ground (
            arith,
            thunk-store_memo memo flags,
            equal_congr_right equal eqv tp sp memo.thunk t,
            find_call-store_memo jp memo flags u f h b,
            found_mod-store_memo memo flags,
            found_mod-store_memos rest (store_memo equal tp binding ip op memo flags).1,
          )
          | inr b ↦ rw (store_memo-skip memo flags b) (
              ground (
                arith,
                equal_congr_right equal eqv tp sp memo.thunk t,
                find_memo-store_memo sp jp rest flags u f m t h,
              ))
        ]

    find_memo-store_memo_ne :
        (sp : Msg) (c : Text) (jp : Msg) (memos : List (MemoModule Msg)) (flags : Flags)
        → (equal tp sp && (text_eq binding c && equal ip jp)) ≡ false
        → find_memo equal sp c jp (map_accum (store_memo equal tp binding ip op) memos flags).0
          ≡ find_memo equal sp c jp memos
    unfolding find_memo
    find_memo-store_memo_ne sp c jp [] flags h = refl
    find_memo-store_memo_ne sp c jp (memo ∷ rest) flags h =
        let later =
          find_memo-store_memo_ne sp c jp rest (store_memo equal tp binding ip op memo flags).1 h in
        elim (Bool-cases (equal tp sp)) [
          | inl t ↦
              ground
                (arith, thunk-store_memo memo flags, find_call-store_memo_ne c jp memo flags, later)
          | inr t ↦ elim (Bool-cases (equal memo.thunk tp)) [
            | inl b ↦ ground (
              arith,
              thunk-store_memo memo flags,
              eqv.symmetric memo.thunk tp,
              eqv.transitive tp memo.thunk sp,
              later,
            )
            | inr b ↦
                rw (store_memo-skip memo flags b)
                  (ground (arith, find_memo-store_memo_ne sp c jp rest flags h))
          ]
        ]

    find_memo-append :
        (sp : Msg) (c : Text) (jp : Msg) (memos : List (MemoModule Msg))
        → find_memo equal sp c jp
            (memos ++ record { thunk = tp; calls = new_call binding ip op ∷ [] } ∷ [])
          ≡ or_else
              (find_memo equal sp c jp memos)
              (if equal tp sp && (text_eq binding c && equal ip jp) then some op else none)
    unfolding find_memo find_call find_result
    find_memo-append sp c jp [] = ground arith
    find_memo-append sp c jp (memo ∷ rest) = ground (arith, find_memo-append sp c jp rest)

    pub find-store_memos :
        (sp : Msg) (c : Text) (jp : Msg) (memos : List (MemoModule Msg))
        → find_memo equal sp c jp (store_memos equal tp binding ip op memos) ≡ (
            if equal tp sp && (text_eq binding c && equal ip jp)
            then some op
            else find_memo equal sp c jp memos)
    unfolding store_memos
    find-store_memos sp c jp memos =
        elim (Bool-cases (equal tp sp && (text_eq binding c && equal ip jp))) [
          | inl same ↦ ground (
            arith,
            text_eq_iff binding c,
            find_memo-store_memo sp jp memos no_flags refl refl refl (ground arith) (ground arith),
            find_memo-append sp c jp
                (map_accum (store_memo equal tp binding ip op) memos no_flags).0,
          )
          | inr other ↦ ground (
            arith,
            find_memo-store_memo_ne sp c jp memos no_flags other,
            find_memo-append sp c jp
                (map_accum (store_memo equal tp binding ip op) memos no_flags).0,
          )
        ]
