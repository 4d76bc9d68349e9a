-- ===== src/Reader/Keywords.antt =====
-- What a symbol with keywords behind it, as the reader makes it of a token, evaluates to.
use mathlib.Core.Path.{subst}
use bass.Prelude.{ℕ, ◌≡◌, sym, Text, some, List, [], ◌∷◌, arith}
use bass.Value.{Value, empty, symbol, keyword, pair, wrapped, symbol_operative, Addr}
use bass.Value.Decode.{decode, decode_scope}
use bass.Value.Lists.{new_list}
use bass.Scope.Heap.{found}
use bass.Eval.Task.{Store, eval, call, answer, apply_to}
use bass.Eval.Scopes.{lookup}
use bass.Eval.Builtins.{unwrap_value}
use bass.Eval.Step.{start, start_eval, start_call, call_symbol, resume}
use bass.Eval.Trampoline.{value, Runs, answers, tails, pushes}
use bass.Eval.Application.{no_forms, next_form, Runs-call_wrapped}
use bass.Reader.Symbols.{apply_keywords, read_keywords}

-- From a value, through a scope for each keyword, to a value.
abbrev pub Follows : Store → Value → List Text → Value → Type 0
Follows st v [] w = v ≡ w
Follows st v (k ∷ ks) w =
    (a : Addr) × (u : Value) × (decode_scope v ≡ some a)
    × (lookup st a k ≡ found u)
    × Follows st u ks w

Runs-symbol :
    (s : Addr) (k : Text) (v : Value) (st : Store)
    → lookup st s k ≡ found v
    → Runs (start (eval (symbol k) s) st) (value v st)
unfolding start start_eval
Runs-symbol s k v st e =
    let same : start (eval (symbol k) s) st ≡ answer v st = ground (arith, e) in
    subst (λ m. Runs m (value v st)) (sym same) (answers v st)

call_symbol-found :
    (k : Text) (v u : Value) (a : Addr) (st : Store)
    → decode_scope v ≡ some a
    → lookup st a k ≡ found u
    → call_symbol k (pair v empty) st ≡ answer u st
unfolding call_symbol decode
call_symbol-found k v u a st d e = ground (arith, d, e)

Runs-keyword :
    (s : Addr) (k : Text) (form v u : Value) (a : Addr) (st : Store)
    → Runs (start (eval form s) st) (value v st)
    → decode_scope v ≡ some a
    → lookup st a k ≡ found u
    → Runs (start (eval (new_list (keyword k ∷ form ∷ [])) s) st) (value u st)
unfolding start start_eval start_call resume decode unwrap_value new_list
Runs-keyword s k form v u a st r d e =
    pushes (eval (keyword k) s) (apply_to (pair form empty) s) st (symbol k) st (value u st)
      (answers (symbol k) st)
      (tails (call (symbol k) (pair form empty) s) st (value u st) (
        tails (call (wrapped (symbol_operative k)) (pair form empty) s) st (value u st) (
          Runs-call_wrapped (symbol_operative k) s (form ∷ []) (v ∷ []) st st (value u st)
            (next_form form [] v [] st st st r (no_forms st))
            (subst (λ m. Runs m (value u st)) (sym (call_symbol-found k v u a st d e))
              (answers u st)))))

Runs-apply_keywords :
    (s : Addr) (form v w : Value) (ks : List Text) (st : Store)
    → Runs (start (eval form s) st) (value v st)
    → Follows st v ks w
    → Runs (start (eval (apply_keywords form ks) s) st) (value w st)
unfolding apply_keywords
Runs-apply_keywords s form v w [] st r e =
    subst (λ u. Runs (start (eval form s) st) (value u st)) e r
Runs-apply_keywords s form v w (k ∷ ks) st r (a, u, d, e, f) =
    Runs-apply_keywords s (new_list (keyword k ∷ form ∷ [])) u w ks st
      (Runs-keyword s k form v u a st r d e) f

-- The segments of a token, `name` and then keywords, are read as a form that follows the keywords from
-- what the name is bound to.
pub Runs-read_keywords :
    (s : Addr) (c : ℕ) (name : Text) (ks : List Text) (v w : Value) (st : Store)
    → lookup st s (c ∷ name) ≡ found v
    → Follows st v ks w
    → Runs (start (eval (read_keywords ((c ∷ name) ∷ ks)) s) st) (value w st)
unfolding read_keywords
Runs-read_keywords s c name ks v w st e f =
    Runs-apply_keywords s (symbol (c ∷ name)) v w ks st (Runs-symbol s (c ∷ name) v st e) f
