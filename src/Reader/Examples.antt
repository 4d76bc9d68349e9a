-- ===== src/Reader/Examples.antt =====
-- A few tokens and strings.
use bass.Prelude.{
  ◌≡◌, refl, Text, codes, text_eq, split, join, has_prefix, [], ◌∷◌, ok, inl, inr, arith,
}
use bass.Value.{null, symbol, keyword, scope, command_path, extend_path, file_path}
use bass.Value.Decode.{decode, decode_scope}
use bass.Value.Lists.{new_list}
use bass.Path.Extend.{dir}
use bass.Scope.Heap.{deref, find, first_found, get}
use bass.Eval.Task.{Store, eval}
use bass.Eval.Scopes.{lookup}
use bass.Eval.Step.{start}
use bass.Eval.Trampoline.{value, Runs}
use bass.Reader.Strings.{quote, read_string}
use bass.Reader.Quoting.{
  quoted, quoted_rune, escape_of, AllPlain, read_string-quoted, read_string-form_feed,
}
use bass.Reader.Symbols.{
  predefined, apply_keywords, read_keywords, read_keywords_or_just_symbol, extend_all, read_path,
  read_symbol,
}
use bass.Reader.Tokens.{Runs-read_symbol}

reads_command : read_symbol (codes ".git") ≡ command_path (codes "git")
unfolding read_symbol predefined split text_eq has_prefix read_path
reads_command = refl

reads_path :
    read_symbol (codes "./a/b")
    ≡ extend_path (extend_path (dir (codes ".")) (dir (codes "a"))) (file_path (codes "b"))
unfolding read_symbol predefined split text_eq has_prefix read_path extend_all
reads_path = refl

reads_keywords :
    read_symbol (codes "a:b") ≡ new_list (keyword (codes "b") ∷ symbol (codes "a") ∷ [])
unfolding read_symbol predefined split text_eq has_prefix read_path read_keywords_or_just_symbol
    read_keywords apply_keywords
reads_keywords = refl

abbrev newline_text : Text
newline_text = b'a' ∷ 10 ∷ quote ∷ []

newline_text-AllPlain : AllPlain newline_text
newline_text-AllPlain = (
  inl (omega arith, omega arith),
  (inr (omega arith, omega arith, λ e. omega arith), (inl (omega arith, omega arith), tt)),
)

read_string-quoted_example : read_string (codes "a\\n\\\"\"rest") ≡ ok (newline_text, codes "rest")
unfolding quoted quoted_rune escape_of
read_string-quoted_example = read_string-quoted newline_text (codes "rest") newline_text-AllPlain

read_string-form_feed_example : read_string (codes "\\f\"") ≡ ok (7 ∷ [], [])
unfolding quoted quoted_rune escape_of
read_string-form_feed_example = read_string-form_feed [] [] tt

-- A scope that binds a to a scope that binds b to null.
abbrev nested : Store
nested = record {
  heap =
      record { parents = []; bindings = (codes "a", scope 1) ∷ []; order = codes "a" ∷ [] }
      ∷ record { parents = []; bindings = (codes "b", null) ∷ []; order = codes "b" ∷ [] }
      ∷ [];
  next = 0;
}

Runs-read_symbol_example :
    Runs (start (eval (read_symbol (codes "a:b")) 0) nested) (value null nested)
unfolding lookup get find deref first_found text_eq decode decode_scope join
Runs-read_symbol_example =
    Runs-read_symbol 0 b'a' [] (codes "b") [] (scope 1) null nested (refl, (refl, tt))
      (refl, (refl, tt)) (λ e. omega arith) refl (1, null, refl, refl, refl)
