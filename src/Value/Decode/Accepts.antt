-- ===== src/Value/Decode/Accepts.antt =====
-- The destinations that `Decode` of each kind of value has a case for.
use bass.Prelude.{Bool, true, false}

-- The types of Bass values that code decodes into.
pub data Dest : Type 0 where
  to_value to_bindable to_combiner to_applicative to_list to_path to_filesystem_path : Dest
  to_null to_ignore to_empty to_bool to_int to_string to_symbol to_keyword : Dest
  to_pair to_cons to_scope to_annotate to_annotated to_annotate_binding : Dest
  to_operative to_wrapped to_builtin to_symbol_operative : Dest
  to_dir_path to_file_path to_command_path to_extend_path to_thunk_operative to_extend_operative
        to_thunk to_thunk_path :
      Dest

abbrev pub null_accepts : Dest → Bool
null_accepts to_null = true
null_accepts to_bindable = true
null_accepts to_value = true
null_accepts _ = false

abbrev pub ignore_accepts : Dest → Bool
ignore_accepts to_ignore = true
ignore_accepts to_value = true
ignore_accepts to_bindable = true
ignore_accepts _ = false

abbrev pub empty_accepts : Dest → Bool
empty_accepts to_empty = true
empty_accepts to_value = true
empty_accepts to_list = true
empty_accepts to_bindable = true
empty_accepts _ = false

abbrev pub bool_accepts : Dest → Bool
bool_accepts to_bool = true
bool_accepts to_bindable = true
bool_accepts to_value = true
bool_accepts _ = false

abbrev pub int_accepts : Dest → Bool
int_accepts to_int = true
int_accepts to_value = true
int_accepts to_bindable = true
int_accepts _ = false

abbrev pub string_accepts : Dest → Bool
string_accepts to_string = true
string_accepts to_value = true
string_accepts to_bindable = true
string_accepts _ = false

abbrev pub symbol_accepts : Dest → Bool
symbol_accepts to_symbol = true
symbol_accepts to_applicative = true
symbol_accepts to_combiner = true
symbol_accepts to_value = true
symbol_accepts to_bindable = true
symbol_accepts _ = false

abbrev pub keyword_accepts : Dest → Bool
keyword_accepts to_keyword = true
keyword_accepts to_bindable = true
keyword_accepts to_value = true
keyword_accepts _ = false

abbrev pub pair_accepts : Dest → Bool
pair_accepts to_pair = true
pair_accepts to_list = true
pair_accepts to_value = true
pair_accepts to_bindable = true
pair_accepts _ = false

abbrev pub cons_accepts : Dest → Bool
cons_accepts to_cons = true
cons_accepts to_list = true
cons_accepts to_value = true
cons_accepts to_bindable = true
cons_accepts _ = false

abbrev pub bind_accepts : Dest → Bool
bind_accepts to_bindable = true
bind_accepts to_value = true
bind_accepts _ = false

abbrev pub scope_accepts : Dest → Bool
scope_accepts to_scope = true
scope_accepts to_value = true
scope_accepts _ = false

abbrev pub operative_accepts : Dest → Bool
operative_accepts to_operative = true
operative_accepts to_combiner = true
operative_accepts to_value = true
operative_accepts _ = false

abbrev pub wrapped_accepts : Dest → Bool
wrapped_accepts to_wrapped = true
wrapped_accepts to_applicative = true
wrapped_accepts to_combiner = true
wrapped_accepts to_value = true
wrapped_accepts _ = false

abbrev pub builtin_accepts : Dest → Bool
builtin_accepts to_builtin = true
builtin_accepts to_combiner = true
builtin_accepts to_value = true
builtin_accepts _ = false

abbrev pub symbol_operative_accepts : Dest → Bool
symbol_operative_accepts to_symbol_operative = true
symbol_operative_accepts to_combiner = true
symbol_operative_accepts to_value = true
symbol_operative_accepts _ = false

abbrev pub dir_path_accepts : Dest → Bool
dir_path_accepts to_path = true
dir_path_accepts to_applicative = true
dir_path_accepts to_combiner = true
dir_path_accepts to_filesystem_path = true
dir_path_accepts to_value = true
dir_path_accepts to_dir_path = true
dir_path_accepts _ = false

abbrev pub file_path_accepts : Dest → Bool
file_path_accepts to_path = true
file_path_accepts to_value = true
file_path_accepts to_applicative = true
file_path_accepts to_combiner = true
file_path_accepts to_filesystem_path = true
file_path_accepts to_file_path = true
file_path_accepts _ = false

abbrev pub command_path_accepts : Dest → Bool
command_path_accepts to_path = true
command_path_accepts to_value = true
command_path_accepts to_applicative = true
command_path_accepts to_combiner = true
command_path_accepts to_command_path = true
command_path_accepts to_bindable = true
command_path_accepts _ = false

-- There is no case for `*Value`.
abbrev pub extend_path_accepts : Dest → Bool
extend_path_accepts to_bindable = true
extend_path_accepts to_extend_path = true
extend_path_accepts _ = false

abbrev pub thunk_operative_accepts : Dest → Bool
thunk_operative_accepts to_thunk_operative = true
thunk_operative_accepts to_combiner = true
thunk_operative_accepts to_value = true
thunk_operative_accepts _ = false

abbrev pub extend_operative_accepts : Dest → Bool
extend_operative_accepts to_extend_operative = true
extend_operative_accepts to_combiner = true
extend_operative_accepts to_value = true
extend_operative_accepts _ = false

abbrev pub thunk_accepts : Dest → Bool
thunk_accepts to_thunk = true
thunk_accepts to_path = true
thunk_accepts to_value = true
thunk_accepts to_combiner = true
thunk_accepts _ = false

abbrev pub thunk_path_accepts : Dest → Bool
thunk_path_accepts to_thunk_path = true
thunk_path_accepts to_path = true
thunk_path_accepts to_value = true
thunk_path_accepts to_applicative = true
thunk_path_accepts to_combiner = true
thunk_path_accepts _ = false

abbrev pub value_accepts : Dest → Bool
value_accepts to_value = true
value_accepts _ = false
