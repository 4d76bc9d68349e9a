-- ===== src/Eval/Binding.antt =====
-- `Bind` of each kind of binding, and `EachBinding`.
use bass.Prelude.{
  Text, Bool, true, false, Option, none, some, List, [], ◌∷◌, ◌++◌, Result, ok, err, if◌then◌else◌,
}
use bass.Value.{
  Value, null, ignore, empty, bool, int, string, symbol, keyword, pair, cons, bind as bind_,
  annotate, annotated, annotate_binding, command_path, extend_path, Values, none_left, more, Addr,
  Range,
}
use bass.Value.Decode.{
  to_bindable, to_empty, to_list, to_keyword, decode, decode_keyword, decode_scope,
}
use bass.Value.Lists.{to_slice}
use bass.Scope.Heap.{set}
use bass.Eval.Task.{
  Err, cannot_bind, cannot_decode, mismatch, bad_syntax, not_a_list, unbound, Store, eval, bind,
  Move, answer, raise, tail, push, Frame, list_tail, bind_found, bind_rest, bind_with_meta,
  compare_with,
}
use bass.Eval.Compare.{bind_const}
use bass.Eval.Scopes.{lookup, found_or}

-- `First` and `Rest` of a list.
abbrev pub first : Value → Value
first (pair a d) = a
first (cons a d) = a
first v = empty

abbrev pub rest_of : Value → Value
rest_of (pair a d) = d
rest_of (cons a d) = d
rest_of v = empty

-- `v.Decode(&x)` into a binding.
abbrev pub decoded_binding : Value → Store → (Value → Move) → Move
decoded_binding v st next = elim (decode to_bindable v) [
  | none ↦ raise (cannot_bind v) st
  | some b ↦ next b
]

-- `BindList`: the list, its first and its rest.
unfoldable pub bind_list : Value → Value → Value → Addr → Value → Store → Move
bind_list binding a d s val st = elim (decode to_empty val) [
  | some v ↦ raise (mismatch binding val) st
  | none ↦ elim (decode to_list val) [
    | none ↦ raise (mismatch binding val) st
    | some list ↦
        decoded_binding a st (λ f. push (bind f s (first list)) (list_tail d s (rest_of list)) st)
  ]
]

-- The key of a scope binding: a keyword, or a list of a keyword and a form for its default.
abbrev key_and_default : List Value → Result Err (Text × Option Value)
key_and_default (k ∷ form ∷ []) = elim (decode_keyword k) [
  | some name ↦ ok (name, some form)
  | none ↦ err (cannot_decode to_keyword)
]
key_and_default _ = err bad_syntax

unfoldable pub bind_key : Value → Result Err (Text × Option Value)
bind_key vf = elim (decode to_list vf) [
  | some list ↦ elim (to_slice list) [ err e ↦ err (not_a_list e) | ok vals ↦ key_and_default vals ]
  | none ↦ elim (decode_keyword vf) [
    | some name ↦ ok (name, none)
    | none ↦ err (cannot_decode to_keyword)
  ]
]

abbrev pub is_even : Values → Bool
is_even none_left = true
is_even (more v none_left) = false
is_even (more v (more w vs)) = is_even vs

-- The default of a key that is not bound.
abbrev pub default_or : Option Value → Text → Addr → Addr → Frame → Store → Move
default_or none name s vs next st = raise (unbound name vs) st
default_or (some form) name s vs next st = push (eval form s) next st

-- `Bind.Bind` of an even number of elements, into scope `s`, from scope `vs`.
unfoldable pub bind_from : Values → Addr → Addr → Store → Move
unfolding bind_key
bind_from (more vf (more vb rest)) s vs st = decoded_binding vb st (λ b. elim (bind_key vf) [
  | err e ↦ raise e st
  | ok key ↦
      found_or (lookup st vs key.0) st (default_or key.1 key.0 s vs (bind_found b rest s vs) st)
        (λ v. push (bind b s v) (bind_rest rest s vs) st)
])
bind_from vs s v st = answer (bind_ vs) st

-- `Bind.Bind`.
unfoldable pub bind_scope_to : Values → Addr → Value → Store → Move
unfolding bind_from
bind_scope_to vs s val st = elim (decode_scope val) [
  | some a ↦ if is_even vs then bind_from vs s a st else raise bad_syntax st
  | none ↦ raise (mismatch (bind_ vs) val) st
]

-- `AnnotateBinding.Bind`.
unfoldable pub bind_annotated : Value → Range → Values → Addr → Value → Store → Move
bind_annotated b r none_left s val st = tail (bind b s val) st
bind_annotated b r (more v vs) s val st =
    push (eval (bind_ (more v vs)) s) (bind_with_meta b r s val) st

-- `Bind` of each kind of binding.
unfoldable pub start_bind : Value → Addr → Value → Store → Move
unfolding bind_list bind_scope_to bind_annotated
start_bind null s val st = bind_const null null val st
start_bind ignore s val st = answer ignore st
start_bind empty s val st = bind_const empty empty val st
start_bind (bool b) s val st = bind_const (bool b) (bool b) val st
start_bind (int i) s val st = bind_const (int i) (int i) val st
start_bind (string t) s val st = bind_const (string t) (string t) val st
start_bind (keyword k) s val st = bind_const (keyword k) (symbol k) val st
start_bind (command_path c) s val st = bind_const (command_path c) (command_path c) val st
start_bind (symbol k) s val st = answer (symbol k) (record st { heap = set s k val st.heap })
start_bind (pair a d) s val st = bind_list (pair a d) a d s val st
start_bind (cons a d) s val st = bind_list (cons a d) a d s val st
start_bind (bind_ vs) s val st = bind_scope_to vs s val st
start_bind (annotate_binding b r vs) s val st = bind_annotated b r vs s val st
start_bind (extend_path p c) s val st =
    push (eval (extend_path p c) s) (compare_with (extend_path p c) val) st
start_bind b s val st = raise (cannot_bind b) st

-- `EachBinding`: the symbols that the callback is called on, and whether it ends without an error.
abbrev Bound : Type 0
Bound = List Text × Bool

abbrev and_then : Bound → Bound → Bound
and_then (ks, true) (js, b) = (ks ++ js, b)
and_then (ks, false) later = (ks, false)

unfoldable mutual
  pub bound_symbols : Value → Bound
  bound_symbols null = ([], true)
  bound_symbols ignore = ([], true)
  bound_symbols empty = ([], true)
  bound_symbols (bool b) = ([], true)
  bound_symbols (int i) = ([], true)
  bound_symbols (string t) = ([], true)
  bound_symbols (keyword k) = ([], true)
  bound_symbols (command_path c) = ([], true)
  bound_symbols (extend_path p c) = ([], true)
  bound_symbols (symbol k) = (k ∷ [], true)
  bound_symbols (pair a d) = and_then (bound_symbols a) (bound_symbols d)
  bound_symbols (cons a d) = and_then (bound_symbols a) (bound_symbols d)
  bound_symbols (bind_ vs) =
      let of_pairs = bound_in vs in if is_even vs then of_pairs else ([], false)
  bound_symbols (annotate v r c m) = bound_symbols v
  bound_symbols (annotated v m) = bound_symbols v
  bound_symbols (annotate_binding b r m) = bound_symbols b
  bound_symbols _ = ([], false)

  -- The loop over an even number of elements.
  pub bound_in : Values → Bound
  bound_in none_left = ([], true)
  bound_in (more k none_left) = ([], true)
  bound_in (more k (more b vs)) = and_then (bound_symbols b) (bound_in vs)
