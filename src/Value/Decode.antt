-- ===== src/Value/Decode.antt =====
-- `Decode` of each kind of value, and `Annotate.MetaBind`.
mod Accepts
pub use Accepts.*
use bass.Prelude.{Text, codes, Bool, true, false, Option, none, some, [], ◌∷◌, if◌then◌else◌}
use bass.Value.{
  Value, null, ignore, empty, bool, int, string, symbol, keyword, pair, cons, bind, scope, annotate,
  annotated, annotate_binding, operative, wrapped, builtin, symbol_operative, dir_path, file_path,
  command_path, extend_path, thunk_operative, extend_operative, thunk, thunk_path, readable, Values,
  none_left, more, Meta, no_meta, has_meta, Addr,
}

-- `append` on slices.
abbrev pub append_values : Values → Values → Values
append_values none_left ws = ws
append_values (more v vs) ws = more v (append_values vs ws)

abbrev pub meta_values : Meta → Values
meta_values no_meta = none_left
meta_values (has_meta vs) = vs

abbrev is_blank : Text → Bool
is_blank [] = true
is_blank (c ∷ t) = false

-- `Annotate.MetaBind`.
unfoldable pub meta_bind : Text → Meta → Values
meta_bind comment m =
    if is_blank comment
    then meta_values m
    else append_values (meta_values m)
        (more (keyword (codes "doc")) (more (string comment) none_left))

abbrev accepted : Bool → Value → Option Value
accepted true v = some v
accepted false v = none

-- `v.Decode(&dest)`: the value that is assigned, or `none` for an error.
unfoldable pub decode : Dest → Value → Option Value
decode d null = accepted (null_accepts d) null
decode d ignore = accepted (ignore_accepts d) ignore
decode d empty = accepted (empty_accepts d) empty
decode d (bool b) = accepted (bool_accepts d) (bool b)
decode d (int i) = accepted (int_accepts d) (int i)
decode d (string s) = accepted (string_accepts d) (string s)
decode d (symbol s) = accepted (symbol_accepts d) (symbol s)
decode d (keyword s) = accepted (keyword_accepts d) (keyword s)
decode d (pair a r) = accepted (pair_accepts d) (pair a r)
decode d (cons a r) = accepted (cons_accepts d) (cons a r)
decode d (bind vs) = accepted (bind_accepts d) (bind vs)
decode d (scope a) = accepted (scope_accepts d) (scope a)
decode to_annotate (annotate v r c m) = some (annotate v r c m)
decode to_value (annotate v r c m) = some (annotate v r c m)
decode to_bindable (annotate v r c m) = elim (decode to_bindable v) [
  | none ↦ none
  | some inner ↦ some (annotate_binding inner r (meta_bind c m))
]
decode d (annotate v r c m) = decode d v
decode to_annotated (annotated v m) = some (annotated v m)
decode to_value (annotated v m) = some (annotated v m)
decode d (annotated v m) = decode d v
decode to_annotate_binding (annotate_binding b r m) = some (annotate_binding b r m)
decode to_bindable (annotate_binding b r m) = some (annotate_binding b r m)
decode to_value (annotate_binding b r m) = some (annotate_binding b r m)
decode d (annotate_binding b r m) = decode d b
decode d (operative n b s e a) = accepted (operative_accepts d) (operative n b s e a)
decode d (wrapped c) = accepted (wrapped_accepts d) (wrapped c)
decode d (builtin b) = accepted (builtin_accepts d) (builtin b)
decode d (symbol_operative s) = accepted (symbol_operative_accepts d) (symbol_operative s)
decode d (dir_path p) = accepted (dir_path_accepts d) (dir_path p)
decode d (file_path p) = accepted (file_path_accepts d) (file_path p)
decode d (command_path p) = accepted (command_path_accepts d) (command_path p)
decode d (extend_path p c) = accepted (extend_path_accepts d) (extend_path p c)
decode d (thunk_operative c) = accepted (thunk_operative_accepts d) (thunk_operative c)
decode d (extend_operative p) = accepted (extend_operative_accepts d) (extend_operative p)
decode d (thunk a i) = accepted (thunk_accepts d) (thunk a i)
decode d (thunk_path t p) = accepted (thunk_path_accepts d) (thunk_path t p)
decode d (readable f) = accepted (value_accepts d) (readable f)

-- What a value decodes into, taken apart.
abbrev the_scope : Option Value → Option Addr
the_scope (some (scope a)) = some a
the_scope _ = none

unfoldable pub decode_scope : Value → Option Addr
unfolding decode
decode_scope v = the_scope (decode to_scope v)

abbrev the_symbol : Option Value → Option Text
the_symbol (some (symbol k)) = some k
the_symbol _ = none

unfoldable pub decode_symbol : Value → Option Text
unfolding decode
decode_symbol v = the_symbol (decode to_symbol v)

abbrev the_keyword : Option Value → Option Text
the_keyword (some (keyword k)) = some k
the_keyword _ = none

unfoldable pub decode_keyword : Value → Option Text
unfolding decode
decode_keyword v = the_keyword (decode to_keyword v)

abbrev the_annotated : Option Value → Option (Value × Addr)
the_annotated (some (annotated v m)) = some (v, m)
the_annotated _ = none

unfoldable pub decode_annotated : Value → Option (Value × Addr)
unfolding decode
decode_annotated v = the_annotated (decode to_annotated v)
