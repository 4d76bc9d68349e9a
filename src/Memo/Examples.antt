-- ===== src/Memo/Examples.antt =====
-- A codec that can write a lockfile of at most one result, and the laws of the lockfile at work on it.
use bass.Prelude.{
  ℕ, ◌==◌, Text, text_eq, ◌≡◌, refl, Option, none, some, List, [], ◌∷◌, Result, ok, err, arith,
}
use bass.Memo.Content.{
  MemoResult, MemoCall, MemoModule, store_memos, store_memo, store_call, store_result, find_memo,
  find_call, find_result, remove_memos, remove_calls, remove_results,
}
use bass.Memo.Lockfile.{
  Failure, other, Codec, IsFaithful, load, save, retrieve_memo, store, retrieve, remove,
  retrieve-store, retrieve-remove,
}

abbrev one_memo : ℕ → Text → ℕ → ℕ → List (MemoModule ℕ)
one_memo tp binding ip op =
    record {
      thunk = tp;
      calls = record { binding = binding; results = record { input = ip; output = op } ∷ [] } ∷ [];
    }
    ∷ []

abbrev write_results : ℕ → Text → List (MemoResult ℕ) → Result Text Text
write_results tp binding (res ∷ []) = ok (tp ∷ res.input ∷ res.output ∷ binding)
write_results tp binding [] = err []
write_results tp binding (res ∷ r ∷ rest) = err []

abbrev write_calls : ℕ → List (MemoCall ℕ) → Result Text Text
write_calls tp (call ∷ []) = write_results tp call.binding call.results
write_calls tp [] = err []
write_calls tp (call ∷ c ∷ rest) = err []

abbrev write : List (MemoModule ℕ) → Result Text Text
write [] = ok []
write (memo ∷ []) = write_calls memo.thunk memo.calls
write (memo ∷ m ∷ rest) = err []

abbrev parse : Text → List (MemoModule ℕ) × Option Failure
parse [] = ([], none)
parse (tp ∷ ip ∷ op ∷ binding) = (one_memo tp binding ip op, none)
parse (tp ∷ []) = ([], some other)
parse (tp ∷ ip ∷ []) = ([], some other)

abbrev small_codec : Codec
small_codec = record {
  Err = Text;
  Thunk = ℕ;
  Value = ℕ;
  Msg = ℕ;
  thunk_proto = ok;
  marshal_proto = ok;
  from_proto = ok;
  equal = λ a b. a == b;
  unmarshal = parse;
  marshal = write;
  format = ok;
  read_error = [];
  unmarshal_error = [];
}

parse-write_results :
    (tp : ℕ) (binding : Text) (rs : List (MemoResult ℕ)) (payload : Text)
    → write_results tp binding rs ≡ ok payload
    → parse payload
      ≡ (record { thunk = tp; calls = record { binding = binding; results = rs } ∷ [] } ∷ [], none)
parse-write_results tp binding [] payload h = cc
parse-write_results tp binding (res ∷ []) payload h = ground arith
parse-write_results tp binding (res ∷ r ∷ rest) payload h = cc

parse-write_calls :
    (tp : ℕ) (cs : List (MemoCall ℕ)) (payload : Text)
    → write_calls tp cs ≡ ok payload
    → parse payload ≡ (record { thunk = tp; calls = cs } ∷ [], none)
parse-write_calls tp [] payload h = cc
parse-write_calls tp (call ∷ []) payload h =
    parse-write_results tp call.binding call.results payload h
parse-write_calls tp (call ∷ c ∷ rest) payload h = cc

parse-write :
    (memos : List (MemoModule ℕ)) (payload : Text)
    → write memos ≡ ok payload
    → parse payload ≡ (memos, none)
parse-write [] payload h = ground arith
parse-write (memo ∷ []) payload h = parse-write_calls memo.thunk memo.calls payload h
parse-write (memo ∷ m ∷ rest) payload h = cc

small_codec-IsFaithful : IsFaithful small_codec
small_codec-IsFaithful = record {
  reads_back = λ memos payload formatted m f. ground (arith, parse-write memos payload m);
  equivalence = record {
    reflexive = λ a. ground arith;
    symmetric = λ a b h. ground arith;
    transitive = λ a b c h k. ground arith;
  };
}

-- Thunk 7 has 20 stored as the output of `f` on 10; `f` is the byte 102.
retrieve-store_example :
    retrieve small_codec 7 (102 ∷ []) 10 (some (7 ∷ 10 ∷ 20 ∷ 102 ∷ [])) ≡ ok (some 20)
unfolding text_eq retrieve retrieve_memo load save store store_memos store_memo store_call
    store_result find_memo find_call find_result
retrieve-store_example =
    retrieve-store small_codec small_codec-IsFaithful 7 (102 ∷ []) 10 20
      (some (7 ∷ 10 ∷ 5 ∷ 102 ∷ [])) (some (7 ∷ 10 ∷ 20 ∷ 102 ∷ [])) 7 (102 ∷ []) 10 7 10 20 7 10
      refl refl refl refl refl refl

retrieve-remove_example : retrieve small_codec 7 (102 ∷ []) 10 (some []) ≡ ok none
unfolding text_eq retrieve retrieve_memo load save remove remove_memos remove_calls remove_results
    find_memo
retrieve-remove_example =
    retrieve-remove small_codec small_codec-IsFaithful 7 (102 ∷ []) 10
      (some (7 ∷ 10 ∷ 5 ∷ 102 ∷ [])) (some []) 7 (102 ∷ []) 10 7 10 7 10 refl refl refl refl refl
