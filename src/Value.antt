-- ===== src/Value.antt =====
-- The values of the language (pkg/bass/value.go and the file of each kind of value), what each
-- decodes into, and the operations on lists.
pub mod Decode
pub mod Lists
pub mod Laws
mod Examples
use bass.Prelude.{ℕ, Text, Bool, Option, none, some, List, [], ◌∷◌}
use bass.Prelude.Int.{ℤ}

-- A scope is a pointer: an index into the heap of scopes.
abbrev pub Addr : Type 0
Addr = ℕ

pub record Position : Type 0 where
  pub ln : ℕ
  pub col : ℕ

-- The source file is known by a number.
pub record Range : Type 0 where
  pub file : ℕ
  pub start : Position
  pub end : Position

pub record DirPath : Type 0 where
  pub path : Text
  pub include : List Text
  pub exclude : List Text

-- The builtins of pkg/bass/ground.go that the evaluator model holds.
pub data Builtin : Type 0 where
  def if_ do_ op eval cons_ wrap unwrap make_scope meta_ with_meta : Builtin

mutual
  pub data Value : Type 0 where
    null : Value
    ignore : Value
    empty : Value
    bool : Bool → Value
    int : ℤ → Value
    string : Text → Value
    symbol : Text → Value
    keyword : Text → Value
    pair : Value → Value → Value
    cons : Value → Value → Value
    bind : Values → Value
    scope : Addr → Value
    annotate : Value → Range → Text → Meta → Value
    annotated : Value → Addr → Value
    annotate_binding : Value → Range → Values → Value
    -- An operative is a pointer: its identity, bindings, scope binding, body and static scope.
    operative : ℕ → Value → Value → Value → Addr → Value
    wrapped : Value → Value
    builtin : Builtin → Value
    symbol_operative : Text → Value
    dir_path : DirPath → Value
    file_path : Text → Value
    command_path : Text → Value
    extend_path : Value → Value → Value
    thunk_operative : Value → Value
    extend_operative : Value → Value
    -- A thunk as `ThunkOperative.Call` makes it: its arguments and its stdin.
    thunk : Values → Values → Value
    -- A path below a thunk's output: the thunk, and a file or directory path.
    thunk_path : Value → Value → Value
    -- A source file, as the metadata of a definition names it.
    readable : ℕ → Value

  -- `[]Value`.
  pub data Values : Type 0 where
    none_left : Values
    more : Value → Values → Values

  -- `*Bind`.
  pub data Meta : Type 0 where
    no_meta : Meta
    has_meta : Values → Meta

abbrev pub to_list : Values → List Value
to_list none_left = []
to_list (more v vs) = v ∷ to_list vs

abbrev pub from_list : List Value → Values
from_list [] = none_left
from_list (v ∷ vs) = more v (from_list vs)
