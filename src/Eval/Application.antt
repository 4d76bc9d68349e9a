-- ===== src/Eval/Application.antt =====
-- Calling an applicative and a function, in direct style.
use bass.Prelude.{◌≡◌, refl, Text, some, List, [], ◌∷◌, map, length, arith}
use bass.Value.{Value, empty, symbol, pair, wrapped, Addr}
use bass.Value.Decode.{to_bindable, decode}
use bass.Value.Lists.{new_list}
use bass.Scope.Heap.{Bindings, set}
use bass.Scope.Each.{set_all}
use bass.Eval.Task.{
  Store, eval, call, bind, args, args_tail, args_done, call_with, list_tail, list_done,
}
use bass.Eval.Compare.{equal, bind_const}
use bass.Eval.Binding.{start_bind, bind_list, decoded_binding}
use bass.Eval.Step.{start, start_eval, start_call, call_wrapped, resume}
use bass.Eval.Trampoline.{Outcome, value, Runs, answers, tails, pushes}

-- The forms evaluate to the values, from the first to the last, each in the store that the one before
-- it leaves.
pub data EvaluatesAll (s : Addr) : List Value → Store → List Value → Store → Type 0 where
  no_forms : (st : Store) → EvaluatesAll s [] st [] st
  next_form :
      (form : Value) (forms : List Value) (v : Value) (vs : List Value) (st st' st'' : Store)
      → Runs (start (eval form s) st) (value v st')
      → EvaluatesAll s forms st' vs st''
      → EvaluatesAll s (form ∷ forms) st (v ∷ vs) st''

Runs-empty : (s : Addr) (st : Store) → Runs (start (eval empty s) st) (value empty st)
unfolding start start_eval
Runs-empty s st = answers empty st

Runs-args :
    (s : Addr) (form : Value) (forms : List Value) (v : Value) (vs : List Value)
    (st st' st'' : Store)
    → Runs (start (eval form s) st) (value v st')
    → EvaluatesAll s forms st' vs st''
    → Runs (start (args form (new_list forms) s) st) (value (pair v (new_list vs)) st'')
unfolding start resume new_list
Runs-args s form [] v [] st st' st'' d (no_forms _) =
    pushes (eval form s) (args_tail empty s) st v st' _ d (
      pushes (eval empty s) (args_done v) st' empty st' _ (Runs-empty s st')
        (answers (pair v empty) st'))
Runs-args s form [] v (v' ∷ vs) st st' st'' d ds = elim ds [ ]
Runs-args s form (form' ∷ forms) v [] st st' st'' d ds = elim ds [ ]
Runs-args s form (form' ∷ forms) v (v' ∷ vs) st st' st'' d (next_form _ _ _ _ _ mid _ d' ds) =
    pushes (eval form s) (args_tail (new_list (form' ∷ forms)) s) st v st' _ d (
      pushes (args form' (new_list forms) s) (args_done v) st' (pair v' (new_list vs)) st'' _
        (Runs-args s form' forms v' vs st' mid st'' d' ds)
        (answers (pair v (pair v' (new_list vs))) st''))

-- A wrapped combiner called on a list of forms: where the forms evaluate, from left to right, to
-- values, the call comes to what the underlying combiner called on the list of the values comes to.
pub Runs-call_wrapped :
    (c : Value) (s : Addr) (forms vs : List Value) (st st' : Store) (o : Outcome)
    → EvaluatesAll s forms st vs st'
    → Runs (start (call c (new_list vs) s) st') o
    → Runs (start (call (wrapped c) (new_list forms) s) st) o
unfolding start start_call call_wrapped resume new_list
Runs-call_wrapped c s [] [] st st' o (no_forms _) r =
    pushes (eval empty s) (call_with c s) st empty st o (Runs-empty s st)
      (tails (call c empty s) st o r)
Runs-call_wrapped c s [] (v ∷ vs) st st' o ds r = elim ds [ ]
Runs-call_wrapped c s (form ∷ forms) [] st st' o ds r = elim ds [ ]
Runs-call_wrapped c s (form ∷ forms) (v ∷ vs) st st' o (next_form _ _ _ _ _ mid _ d ds) r =
    pushes (args form (new_list forms) s) (call_with c s) st (pair v (new_list vs)) st' o
      (Runs-args s form forms v vs st mid st' d ds)
      (tails (call c (pair v (new_list vs)) s) st' o r)

abbrev pub zip : List Text → List Value → Bindings
zip [] vs = []
zip (k ∷ ks) [] = []
zip (k ∷ ks) (v ∷ vs) = (k, v) ∷ zip ks vs

decode-new_list : (vs : List Value) → decode to_bindable (new_list vs) ≡ some (new_list vs)
unfolding decode new_list
decode-new_list [] = refl
decode-new_list (v ∷ vs) = refl

-- A list of symbols bound to a list of as many values sets them in the scope, from left to right.
pub Runs-bind_symbols :
    (s : Addr) (ks : List Text) (vs : List Value) (st : Store)
    → length ks ≡ length vs
    → Runs
        (start (bind (new_list (map symbol ks)) s (new_list vs)) st)
        (value (new_list (map symbol ks)) (record st { heap = set_all s (zip ks vs) st.heap }))
unfolding start start_bind bind_list bind_const equal decode resume new_list set_all
Runs-bind_symbols s [] [] st e = answers empty st
Runs-bind_symbols s [] (v ∷ vs) st e = absurd (omega arith)
Runs-bind_symbols s (k ∷ ks) [] st e = absurd (omega arith)
Runs-bind_symbols s (k ∷ ks) (v ∷ vs) st e =
    let st' : Store = record st { heap = set s k v st.heap } in
    pushes (bind (symbol k) s v) (list_tail (new_list (map symbol ks)) s (new_list vs)) st
      (symbol k) st' _ (answers (symbol k) st')
      (rw (decode-new_list (map symbol ks), decoded_binding)
        (pushes (bind (new_list (map symbol ks)) s (new_list vs)) (list_done (symbol k)) st'
          (new_list (map symbol ks)) _ _ (Runs-bind_symbols s ks vs st' (omega arith))
          (answers (pair (symbol k) (new_list (map symbol ks))) _)))
