-- ===== src/Eval/Compare.antt =====
-- `BindConst` of pkg/bass/scope.go, and `Equal` of the kinds of value that are compared by their content
-- alone.
use bass.Prelude.{text_eq, Bool, true, false, ◌==◌, Option, none, some, if◌then◌else◌}
use bass.Prelude.Int.{eqb_ℤ}
use bass.Value.{
  Value, null, ignore, empty, bool, int, string, symbol, keyword, dir_path, file_path, command_path,
  operative,
}
use bass.Value.Decode.{
  to_null, to_ignore, to_empty, to_bool, to_int, to_string, to_symbol, to_keyword, to_dir_path,
  to_file_path, to_command_path, to_operative, decode,
}
use bass.Eval.Task.{Store, Move, answer, raise, beyond, mismatch}

abbrev eqb_bool : Bool → Bool → Bool
eqb_bool true b = b
eqb_bool false true = false
eqb_bool false false = true

abbrev is_some : Option Value → Bool
is_some none = false
is_some (some v) = true

-- The comparison of two values that decoded into one type.
abbrev same : Value → Option Value → Bool
same (bool a) (some (bool b)) = eqb_bool a b
same (int a) (some (int b)) = eqb_ℤ a b
same (string a) (some (string b)) = text_eq a b
same (symbol a) (some (symbol b)) = text_eq a b
same (keyword a) (some (keyword b)) = text_eq a b
same (dir_path a) (some (dir_path b)) = text_eq a.path b.path
same (file_path a) (some (file_path b)) = text_eq a b
same (command_path a) (some (command_path b)) = text_eq a b
same (operative n b s e a) (some (operative m b' s' e' a')) = n == m
same _ _ = false

-- `a.Equal(b)`; `none` where it is not modelled.
unfoldable pub equal : Value → Value → Option Bool
equal null b = some (is_some (decode to_null b))
equal ignore b = some (is_some (decode to_ignore b))
equal empty b = some (is_some (decode to_empty b))
equal (bool a) b = some (same (bool a) (decode to_bool b))
equal (int a) b = some (same (int a) (decode to_int b))
equal (string a) b = some (same (string a) (decode to_string b))
equal (symbol a) b = some (same (symbol a) (decode to_symbol b))
equal (keyword a) b = some (same (keyword a) (decode to_keyword b))
equal (dir_path a) b = some (same (dir_path a) (decode to_dir_path b))
equal (file_path a) b = some (same (file_path a) (decode to_file_path b))
equal (command_path a) b = some (same (command_path a) (decode to_command_path b))
equal (operative n c s e a) b = some (same (operative n c s e a) (decode to_operative b))
equal _ b = none

-- `cont.Call(binding, BindConst(a, b))`.
unfoldable pub bind_const : Value → Value → Value → Store → Move
unfolding equal
bind_const binding a b st = elim (equal a b) [
  | none ↦ beyond st
  | some same ↦ if same then answer binding st else raise (mismatch a b) st
]
