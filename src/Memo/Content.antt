-- ===== src/Memo/Content.antt =====
-- The messages of a lockfile (proto/memo.proto) and the loops of `retrieveMemo`, `Lockfile.Store`
-- and `Lockfile.Remove` over them. A proto message is an element of `Msg`, compared by `gproto.Equal`.
use bass.Prelude.{
  Text, text_eq, Bool, true, false, Option, none, some, List, [], ◌∷◌, ◌++◌, if◌then◌else◌,
  map_accum,
}

module _ (Msg : Type 0) where
  pub record MemoResult : Type 0 where
    pub input : Msg
    pub output : Msg

  pub record MemoCall : Type 0 where
    pub binding : Text
    pub results : List MemoResult

  pub record MemoModule : Type 0 where
    pub thunk : Msg
    pub calls : List MemoCall

abbrev pub new_call : {Msg : Type 0} → Text → Msg → Msg → MemoCall Msg
new_call binding ip op = record {
  binding = binding;
  results = record { input = ip; output = op } ∷ [];
}

-- A call whose results are all gone is dropped, and so is a module with no call.
abbrev pub keep_call :
    {Msg : Type 0}
    → MemoCall Msg
    → List (MemoResult Msg)
    → List (MemoCall Msg)
    → List (MemoCall Msg)
keep_call call [] kept = kept
keep_call call (res ∷ rest) kept = record call { results = res ∷ rest } ∷ kept

abbrev pub keep_memo :
    {Msg : Type 0}
    → MemoModule Msg
    → List (MemoCall Msg)
    → List (MemoModule Msg)
    → List (MemoModule Msg)
keep_memo memo [] kept = kept
keep_memo memo (call ∷ rest) kept = record memo { calls = call ∷ rest } ∷ kept

-- The variables that `Store` declares outside its loops.
pub record Flags : Type 0 where
  pub found_mod : Bool
  pub found_call : Bool
  pub updated : Bool

abbrev pub no_flags : Flags
no_flags = record { found_mod = false; found_call = false; updated = false }

module _ {Msg : Type 0} (equal : Msg → Msg → Bool) where
  unfoldable pub find_result : Msg → List (MemoResult Msg) → Option Msg
  find_result ip [] = none
  find_result ip (res ∷ rest) = if equal res.input ip then some res.output else find_result ip rest

  unfoldable pub find_call : Text → Msg → List (MemoCall Msg) → Option Msg
  find_call binding ip [] = none
  find_call binding ip (call ∷ rest) =
      let later = find_call binding ip rest in
      if text_eq call.binding binding
      then elim (find_result ip call.results) [ none ↦ later | some output ↦ some output ]
      else later

  unfoldable pub find_memo : Msg → Text → Msg → List (MemoModule Msg) → Option Msg
  find_memo tp binding ip [] = none
  find_memo tp binding ip (memo ∷ rest) =
      let later = find_memo tp binding ip rest in
      if equal memo.thunk tp
      then elim (find_call binding ip memo.calls) [ none ↦ later | some output ↦ some output ]
      else later

  unfoldable pub store_result : Msg → Msg → MemoResult Msg → Bool → MemoResult Msg × Bool
  store_result ip op res updated =
      if equal res.input ip then (record res { output = op }, true) else (res, updated)

  unfoldable pub store_call : Text → Msg → Msg → MemoCall Msg → Flags → MemoCall Msg × Flags
  store_call binding ip op call flags =
      let (results, updated) = map_accum (store_result ip op) call.results flags.updated in
      let results' =
        if updated then results else results ++ record { input = ip; output = op } ∷ [] in
      if text_eq call.binding binding
      then (
        record call { results = results' },
        record flags { found_call = true; updated = updated },
      )
      else (call, flags)

  unfoldable pub store_memo :
      Msg → Text → Msg → Msg → MemoModule Msg → Flags → MemoModule Msg × Flags
  store_memo tp binding ip op memo flags =
      let (calls, flags') =
        map_accum (store_call binding ip op) memo.calls (record flags { found_mod = true }) in
      let calls' = if flags'.found_call then calls else calls ++ new_call binding ip op ∷ [] in
      if equal memo.thunk tp then (record memo { calls = calls' }, flags') else (memo, flags)

  unfoldable pub store_memos :
      Msg → Text → Msg → Msg → List (MemoModule Msg) → List (MemoModule Msg)
  store_memos tp binding ip op memos =
      let (memos', flags) = map_accum (store_memo tp binding ip op) memos no_flags in
      if flags.found_mod
      then memos'
      else memos' ++ record { thunk = tp; calls = new_call binding ip op ∷ [] } ∷ []

  unfoldable pub remove_results : Msg → List (MemoResult Msg) → List (MemoResult Msg)
  remove_results ip [] = []
  remove_results ip (res ∷ rest) =
      let kept = remove_results ip rest in if equal res.input ip then kept else res ∷ kept

  unfoldable pub remove_calls : Text → Msg → List (MemoCall Msg) → List (MemoCall Msg)
  remove_calls binding ip [] = []
  remove_calls binding ip (call ∷ rest) =
      let kept = remove_calls binding ip rest in
      let results = remove_results ip call.results in
      if text_eq call.binding binding then keep_call call results kept else call ∷ kept

  unfoldable pub remove_memos : Msg → Text → Msg → List (MemoModule Msg) → List (MemoModule Msg)
  remove_memos tp binding ip [] = []
  remove_memos tp binding ip (memo ∷ rest) =
      let kept = remove_memos tp binding ip rest in
      let calls = remove_calls binding ip memo.calls in
      if equal memo.thunk tp then keep_memo memo calls kept else memo ∷ kept
