-- ===== src/Eval/Keeps.antt =====
-- What evaluation keeps of the heap.
use bass.Prelude.{◌≡◌, refl, Text, Option, none, some, Option-cases, inl, inr, arith}
use bass.Value.{Value, Values, none_left, more, Addr, Range}
use bass.Value.Decode.{to_bindable, decode, decode_scope}
use bass.Eval.Task.{Store, Frame, Move, answer, raise, tail, push, crash, beyond}
use bass.Eval.Compare.{bind_const}
use bass.Eval.Binding.{bind_list, bind_from, bind_scope_to, bind_annotated, decoded_binding}
use bass.Eval.Annotation.{start_annotate}
use bass.Eval.Step.{
  call_wrapped, call_symbol, call_thunk, call_extend, call_unwrapped, start_sequence, build_symbol,
  args_from, apply_result, extend_result,
}

abbrev pub store_of : Move → Store
store_of (answer v st) = st
store_of (raise e st) = st
store_of (tail task st) = st
store_of (push task frame st) = st
store_of (crash st) = st
store_of (beyond st) = st

pub store-bind_const :
    (binding a b : Value) (st : Store) → store_of (bind_const binding a b st) ≡ st
unfolding bind_const
store-bind_const binding a b st = ground arith

pub store-bind_list :
    (binding a d : Value) (s : Addr) (val : Value) (st : Store)
    → store_of (bind_list binding a d s val st) ≡ st
unfolding bind_list
store-bind_list binding a d s val st = ground arith

pub store-bind_from : (vs : Values) (s a : Addr) (st : Store) → store_of (bind_from vs s a st) ≡ st
unfolding bind_from
store-bind_from none_left s a st = refl
store-bind_from (more v none_left) s a st = refl
store-bind_from (more vf (more vb rest)) s a st = ground arith

pub store-bind_scope_to :
    (vs : Values) (s : Addr) (val : Value) (st : Store) → store_of (bind_scope_to vs s val st) ≡ st
unfolding bind_scope_to
store-bind_scope_to vs s val st = elim (Option-cases (decode_scope val)) [
  | inl e ↦ ground (arith, e)
  | inr (a, e) ↦ ground (arith, e, store-bind_from vs s a st)
]

pub store-bind_annotated :
    (b : Value) (r : Range) (vs : Values) (s : Addr) (val : Value) (st : Store)
    → store_of (bind_annotated b r vs s val st) ≡ st
unfolding bind_annotated
store-bind_annotated b r none_left s val st = refl
store-bind_annotated b r (more v vs) s val st = refl

pub store-call_symbol : (k : Text) (val : Value) (st : Store) → store_of (call_symbol k val st) ≡ st
unfolding call_symbol
store-call_symbol k val st = ground arith

pub store-call_thunk : (cmd val : Value) (st : Store) → store_of (call_thunk cmd val st) ≡ st
unfolding call_thunk
store-call_thunk cmd val st = ground arith

pub store-call_extend : (path val : Value) (st : Store) → store_of (call_extend path val st) ≡ st
unfolding call_extend
store-call_extend path val st = ground arith

pub store-call_unwrapped :
    (app val : Value) (s : Addr) (st : Store) → store_of (call_unwrapped app val s st) ≡ st
store-call_unwrapped app val s st = ground arith

pub store-call_wrapped :
    (c v : Value) (s : Addr) (st : Store) → store_of (call_wrapped c v s st) ≡ st
unfolding call_wrapped
store-call_wrapped c v s st = ground arith

pub store-start_annotate :
    (v : Value) (r : Range) (vs : Values) (s : Addr) (st : Store)
    → store_of (start_annotate v r vs s st) ≡ st
unfolding start_annotate
store-start_annotate v r none_left s st = refl
store-start_annotate v r (more b bs) s st = refl

pub store-start_sequence :
    (s : Addr) (vs : Values) (st : Store) → store_of (start_sequence s vs st) ≡ st
unfolding start_sequence
store-start_sequence s none_left st = refl
store-start_sequence s (more v none_left) st = refl
store-start_sequence s (more v (more w vs)) st = refl

pub store-args_from :
    (v : Value) (s : Addr) (next : Frame) (st : Store) → store_of (args_from v s next st) ≡ st
store-args_from v s next st = ground arith

pub store-apply_result :
    (c : Option Value) (f d : Value) (s : Addr) (st : Store)
    → store_of (apply_result c f d s st) ≡ st
store-apply_result none f d s st = refl
store-apply_result (some c) f d s st = refl

pub store-extend_result :
    (c : Option Value) (p d : Value) (s : Addr) (st : Store)
    → store_of (extend_result c p d s st) ≡ st
store-extend_result none p d s st = refl
store-extend_result (some c) p d s st = refl

pub store-build_symbol :
    (k : Text) (v : Value) (vs : Values) (s : Addr) (st : Store)
    → store_of (build_symbol k v vs s st) ≡ st
store-build_symbol k v none_left s st = refl
store-build_symbol k v (more w vs) s st = refl

pub store-decoded_binding :
    (v : Value) (st : Store) (next : Value → Move)
    → ((b : Value) → store_of (next b) ≡ st)
    → store_of (decoded_binding v st next) ≡ st
store-decoded_binding v st next h = elim (Option-cases (decode to_bindable v)) [
  | inl e ↦ ground (arith, e)
  | inr (b, e) ↦ ground (arith, e, h b)
]
