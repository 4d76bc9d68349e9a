-- ===== src/Eval/Task.antt =====
-- What the evaluator is asked to do, what waits for its results, and what one stretch of code between
-- two continuations ends in (pkg/bass/continuation.go, errors.go).
use bass.Prelude.{ℕ, Text, Bool, Option}
use bass.Value.{Value, Values, Addr, Builtin, Range}
use bass.Value.Decode.{Dest}
use bass.Scope.Heap.{Heap}

-- The errors of pkg/bass/errors.go that evaluation raises. A decoding error keeps its destination.
pub data Err : Type 0 where
  unbound : Text → Addr → Err
  cannot_bind : Value → Err
  mismatch : Value → Value → Err
  cannot_decode : Dest → Err
  cannot_decode_slice : Err
  not_a_list : Value → Err
  arity : Option Builtin → ℕ → ℕ → Bool → Err
  bad_syntax : Err
  cannot_extend : Value → Value → Err
  -- An error with the text that `fmt.Errorf` puts before it.
  apply_err : Value → Err → Err
  subpath_err : Value → Err → Err
  bad_arg : Builtin → ℕ → Err → Err
  bad_variadic_arg : Builtin → Err → Err
  call_symbol_err : Err → Err

-- The heap, and the identity of the next operative.
pub record Store : Type 0 where
  pub heap : Heap
  pub next : ℕ

-- The recursive methods of the evaluator, less their continuation.
pub data Task : Type 0 where
  -- `v.Eval(ctx, scope, _)`.
  eval : Value → Addr → Task
  -- `c.Call(ctx, v, scope, _)`.
  call : Value → Value → Addr → Task
  -- `b.Bind(ctx, scope, _, v)`.
  bind : Value → Addr → Value → Task
  -- `EvalPair` of a pair of the two values.
  args : Value → Value → Addr → Task
  -- `scopeBuilder.Build`.
  build : Values → Addr → Task
  -- `do` of pkg/bass/ground.go.
  sequence : Addr → Values → Task

-- The closures given to `Continue`, by what they capture besides `cont`.
pub data Frame : Type 0 where
  -- `Pair.Eval`: the argument and the scope.
  apply_to : Value → Addr → Frame
  -- `Cons.Eval`: the tail and the scope, then the evaluated head.
  cons_tail : Value → Addr → Frame
  cons_done : Value → Frame
  -- `EvalPair`.
  args_tail : Value → Addr → Frame
  args_done : Value → Frame
  -- `Wrapped.Call`: the underlying combiner and the scope.
  call_with : Value → Addr → Frame
  -- `Operative.Call`: the scope binding, the body, the new scope, the caller's scope.
  bind_scope : Value → Value → Addr → Addr → Frame
  run_body : Value → Addr → Frame
  -- `BindList`.
  list_tail : Value → Addr → Value → Frame
  list_done : Value → Frame
  -- `Bind.Bind`: the binding, the rest, the scope, the scope that is taken apart.
  bind_found : Value → Values → Addr → Addr → Frame
  bind_rest : Values → Addr → Addr → Frame
  -- `Bind.Eval` and `scopeBuilder.Build`.
  build_in : Addr → Frame
  build_rest : Values → Addr → Frame
  -- `Annotate.Eval`: the metadata's form, the range and the scope, then the value.
  annotate_result : Values → Range → Addr → Frame
  annotate_meta : Range → Addr → Value → Frame
  -- `AnnotateBinding.Bind`.
  bind_with_meta : Value → Range → Addr → Value → Frame
  -- `ExtendPath.Eval` and `ExtendPath.Bind`.
  extend_child : Value → Addr → Frame
  compare_with : Value → Value → Frame
  -- `def`, `if` and `do`.
  define : Value → Addr → Frame
  choose : Value → Value → Addr → Frame
  then_sequence : Addr → Values → Frame

-- What a stretch of code ends in.
pub data Move : Type 0 where
  -- `cont.Call(v, nil)`.
  answer : Value → Store → Move
  -- `cont.Call(nil, err)`.
  raise : Err → Store → Move
  -- A call that passes the continuation on.
  tail : Task → Store → Move
  -- A call with a new continuation in front.
  push : Task → Frame → Store → Move
  -- The stack overflows in a search through a cycle of scopes.
  crash : Store → Move
  -- Values are compared whose `Equal` is not modelled.
  beyond : Store → Move
