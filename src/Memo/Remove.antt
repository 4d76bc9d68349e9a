-- ===== src/Memo/Remove.antt =====
-- What `retrieveMemo` finds after `Lockfile.Remove`.
use bass.Prelude.{
  Text, text_eq, text_eq_iff, ◌≡◌, Bool, ◌&&◌, none, List, [], ◌∷◌, if◌then◌else◌, arith,
}
use bass.Memo.Content.{
  MemoResult, MemoCall, MemoModule, keep_call, keep_memo, find_result, find_call, find_memo,
  remove_results, remove_calls, remove_memos,
}
use bass.Memo.Results.{IsEquivalence, or_else, equal_congr, equal_congr_right}

module _ {Msg : Type 0} (equal : Msg → Msg → Bool) (eqv : IsEquivalence equal) where
  find_result-remove_results :
      (ip jp : Msg) (rs : List (MemoResult Msg))
      → find_result equal jp (remove_results equal ip rs)
        ≡ (if equal ip jp then none else find_result equal jp rs)
  unfolding find_result remove_results
  find_result-remove_results ip jp [] = ground arith
  find_result-remove_results ip jp (r ∷ rs) = ground (
    arith,
    equal_congr equal eqv r.input ip jp,
    equal_congr_right equal eqv ip jp r.input,
    find_result-remove_results ip jp rs,
  )

  -- A call that is dropped had nothing left to find.
  find_call-keep_call :
      (c : Text) (jp : Msg) (call : MemoCall Msg) (rs : List (MemoResult Msg))
      (kept : List (MemoCall Msg))
      → find_call equal c jp (keep_call call rs kept) ≡ (
          if text_eq call.binding c
          then or_else (find_result equal jp rs) (find_call equal c jp kept)
          else find_call equal c jp kept)
  unfolding find_call find_result
  find_call-keep_call c jp call [] kept = ground arith
  find_call-keep_call c jp call (r ∷ rs) kept = ground arith

  find_call-remove_calls :
      (binding : Text) (ip : Msg) (c : Text) (jp : Msg) (calls : List (MemoCall Msg))
      → find_call equal c jp (remove_calls equal binding ip calls)
        ≡ (if text_eq binding c && equal ip jp then none else find_call equal c jp calls)
  unfolding find_call remove_calls
  find_call-remove_calls binding ip c jp [] = ground arith
  find_call-remove_calls binding ip c jp (call ∷ rest) = ground (
    arith,
    text_eq_iff call.binding c,
    text_eq_iff call.binding binding,
    text_eq_iff binding c,
    find_result-remove_results ip jp call.results,
    find_call-keep_call c jp call (remove_results equal ip call.results)
        (remove_calls equal binding ip rest),
    find_call-remove_calls binding ip c jp rest,
  )

  find_memo-keep_memo :
      (sp : Msg) (c : Text) (jp : Msg) (memo : MemoModule Msg) (calls : List (MemoCall Msg))
      (kept : List (MemoModule Msg))
      → find_memo equal sp c jp (keep_memo memo calls kept) ≡ (
          if equal memo.thunk sp
          then or_else (find_call equal c jp calls) (find_memo equal sp c jp kept)
          else find_memo equal sp c jp kept)
  unfolding find_memo find_call
  find_memo-keep_memo sp c jp memo [] kept = ground arith
  find_memo-keep_memo sp c jp memo (r ∷ rs) kept = ground arith

  pub find-remove_memos :
      (tp : Msg) (binding : Text) (ip sp : Msg) (c : Text) (jp : Msg)
      (memos : List (MemoModule Msg))
      → find_memo equal sp c jp (remove_memos equal tp binding ip memos) ≡ (
          if equal tp sp && (text_eq binding c && equal ip jp)
          then none
          else find_memo equal sp c jp memos)
  unfolding find_memo remove_memos
  find-remove_memos tp binding ip sp c jp [] = ground arith
  find-remove_memos tp binding ip sp c jp (memo ∷ rest) = ground (
    arith,
    equal_congr equal eqv memo.thunk tp sp,
    equal_congr_right equal eqv tp sp memo.thunk,
    find_call-remove_calls binding ip c jp memo.calls,
    find_memo-keep_memo sp c jp memo (remove_calls equal binding ip memo.calls)
        (remove_memos equal tp binding ip rest),
    find-remove_memos tp binding ip sp c jp rest,
  )
