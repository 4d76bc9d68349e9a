-- ===== src/Reader/Symbols.antt =====
-- `readSymbol`, `readKeywords`, `readPath` and `desugarMeta` of pkg/bass/reader.go.
use bass.Prelude.{
  ℕ, Text, codes, text_eq, has_prefix, split, true, false, not, ◌&&◌, ◌||◌, Option, none, some,
  List, [], ◌∷◌, if◌then◌else◌,
}
use bass.Value.{Value, null, ignore, bool, symbol, keyword, command_path, extend_path, file_path}
use bass.Value.Lists.{new_list}
use bass.Path.Clean.{slash, dot, dot_dot}
use bass.Path.Extend.{dir}

abbrev pub colon : ℕ
colon = b':'

-- `symTable`.
unfoldable pub predefined : Text → Option Value
predefined s =
    if text_eq s (codes "_")
    then some ignore
    else if text_eq s (codes "null")
    then some null
    else if text_eq s (codes "true")
    then some (bool true)
    else if text_eq s (codes "false")
    then some (bool false)
    else none

-- The loop of `readKeywords`: each keyword is called on what is before it.
unfoldable pub apply_keywords : Value → List Text → Value
apply_keywords val [] = val
apply_keywords val (k ∷ ks) = apply_keywords (new_list (keyword k ∷ val ∷ [])) ks

unfoldable pub read_keywords : List Text → Value
unfolding apply_keywords
read_keywords [] = symbol []
read_keywords ([] ∷ []) = symbol []
read_keywords ([] ∷ k ∷ ks) = apply_keywords (keyword k) ks
read_keywords ((c ∷ s) ∷ ks) = apply_keywords (symbol (c ∷ s)) ks

-- `readKeywordsOrJustSymbol`.
abbrev keywords_or : Text → List Text → Value
keywords_or s [] = symbol s
keywords_or s (seg ∷ []) = symbol s
keywords_or s (seg ∷ k ∷ ks) = read_keywords (seg ∷ k ∷ ks)

unfoldable pub read_keywords_or_just_symbol : Text → Value
unfolding read_keywords
read_keywords_or_just_symbol s = keywords_or s (split colon s)

-- The loop of `readPath`: every segment is a directory, except the last one unless it is empty.
unfoldable pub extend_all : Value → List Text → Value
extend_all path [] = path
extend_all path ([] ∷ []) = path
extend_all path ((c ∷ s) ∷ []) = extend_path path (file_path (c ∷ s))
extend_all path (seg ∷ seg' ∷ segs) = extend_all (extend_path path (dir seg)) (seg' ∷ segs)

abbrev path_start : Text → Value
path_start start =
    if text_eq start dot || text_eq start dot_dot
    then dir start
    else if text_eq start []
    then dir []
    else read_keywords_or_just_symbol start

unfoldable pub read_path : Text → List Text → Value
unfolding extend_all read_keywords_or_just_symbol
read_path start rest = extend_all (path_start start) rest

abbrev drop_one : Text → Text
drop_one [] = []
drop_one (c ∷ s) = s

abbrev read_segments : Text → List Text → Value
read_segments s (start ∷ seg ∷ segs) = read_path start (seg ∷ segs)
read_segments s _ =
    if not (text_eq s dot) && (not (text_eq s dot_dot) && has_prefix s dot)
    then command_path (drop_one s)
    else read_keywords_or_just_symbol s

-- `readSymbol`, of a token.
unfoldable pub read_symbol : Text → Value
unfolding predefined read_path
read_symbol s = elim (predefined s) [ some v ↦ v | none ↦ read_segments s (split slash s) ]
