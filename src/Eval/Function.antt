-- ===== src/Eval/Function.antt =====
-- Calling a function: a wrapped operative whose formals are a list of symbols.
use bass.Prelude.{
  ℕ, suc, ◌<◌, ◌≡◌, ◌∙◌, Text, none, some, List, [], ◌∷◌, ◌++◌, map, length, length-append, arith,
}
use bass.Value.{Value, ignore, symbol, wrapped, operative, scope, Addr}
use bass.Value.Lists.{new_list}
use bass.Scope.Heap.{Heap, empty_scope, find, new_scope, found, get}
use bass.Scope.Each.{set_all}
use bass.Scope.Visit.{HasDistinctKeys}
use bass.Scope.Deref.{deref-append_lt, deref-append_self}
use bass.Scope.Copy.{find-set_all, parents-set_all, deref-set_all_ne}
use bass.Scope.Agree.{IsClosed, get-agree, get-one_parent}
use bass.Eval.Task.{Store, eval, call, bind, bind_scope, run_body}
use bass.Eval.Binding.{start_bind}
use bass.Eval.Step.{start, start_call, resume}
use bass.Eval.Trampoline.{Outcome, Runs, answers, tails, pushes}
use bass.Eval.Application.{EvaluatesAll, zip, Runs-call_wrapped, Runs-bind_symbols}

-- The heap that a function's body is evaluated in: a new scope below the static one binds the
-- parameters.
abbrev pub body_heap : Addr → List Text → List Value → Heap → Heap
body_heap static ks vs h = set_all (length h) (zip ks vs) (h ++ empty_scope (static ∷ []) ∷ [])

abbrev pub function : ℕ → List Text → Value → Addr → Value
function n ks body static = wrapped (operative n (new_list (map symbol ks)) ignore body static)

Runs-call_operative :
    (n : ℕ) (ks : List Text) (vs : List Value) (body : Value) (static s : Addr) (st : Store)
    (o : Outcome)
    → length ks ≡ length vs
    → Runs
        (start (eval body (length st.heap)) (record st { heap = body_heap static ks vs st.heap }))
        o
    → Runs
        (start
          (call (operative n (new_list (map symbol ks)) ignore body static) (new_list vs) s)
          st)
        o
unfolding start start_call start_bind resume new_scope
Runs-call_operative n ks vs body static s st o e r =
    let sub = length st.heap in
    let formals = new_list (map symbol ks) in
    let st' : Store = record st { heap = st.heap ++ empty_scope (static ∷ []) ∷ [] } in
    let st'' : Store = record st { heap = body_heap static ks vs st.heap } in
    pushes (bind formals sub (new_list vs)) (bind_scope ignore body sub s) st' formals st'' o
      (Runs-bind_symbols sub ks vs st' e)
      (pushes (bind ignore sub (scope s)) (run_body body sub) st'' ignore st'' o
        (answers ignore st'') (tails (eval body sub) st'' o r))

-- A function called with as many forms as it has parameters: where the forms evaluate, from left to
-- right in the caller's scope, to values, the call comes to what its body comes to in a new scope,
-- below the function's static scope, that binds the parameters to the values.
pub Runs-call_function :
    (n : ℕ) (ks : List Text) (body : Value) (static s : Addr) (forms vs : List Value)
    (st st' : Store) (o : Outcome)
    → length ks ≡ length vs
    → EvaluatesAll s forms st vs st'
    → Runs
        (start
          (eval body (length st'.heap))
          (record st' { heap = body_heap static ks vs st'.heap }))
        o
    → Runs (start (call (function n ks body static) (new_list forms) s) st) o
Runs-call_function n ks body static s forms vs st st' o e ds r =
    Runs-call_wrapped (operative n (new_list (map symbol ks)) ignore body static) s forms vs st st'
      o ds (Runs-call_operative n ks vs body static s st' o e r)

-- Scope is lexical: a symbol in a function's body is the parameter of that name, or else what the
-- static scope found before the call, whoever calls. The parameters' names are distinct, and no scope
-- has a parent outside the heap.
pub get-body_heap :
    (n : ℕ) (h : Heap) (static : Addr) (ks : List Text) (vs : List Value) (k : Text)
    → IsClosed h
    → static < length h
    → HasDistinctKeys (zip ks vs)
    → get (suc n) (body_heap static ks vs h) (length h) k
      ≡ (elim (find k (zip ks vs)) [ some v ↦ found v | none ↦ get n h static k ])
unfolding find
get-body_heap n h static ks vs k closed p distinct =
    let fresh = h ++ empty_scope (static ∷ []) ∷ [] in
    let within : length h < length fresh =
      omega (arith, length-append h (empty_scope (static ∷ []) ∷ [])) in
    let new = deref-append_self h (empty_scope (static ∷ [])) in
    let agree =
      get-agree n h (body_heap static ks vs h) static k closed
        (λ b lt.
          deref-set_all_ne (zip ks vs) fresh (length h) b (omega arith)
          ∙ deref-append_lt h (empty_scope (static ∷ []) ∷ []) b lt)
        p in
    ground (
      arith,
      get-one_parent n (body_heap static ks vs h) (length h) static k,
      find-set_all (zip ks vs) fresh (length h) k within distinct,
      parents-set_all (zip ks vs) fresh (length h) within,
      new,
      agree,
    )
