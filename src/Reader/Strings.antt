-- ===== src/Reader/Strings.antt =====
-- `readString` and `getEscape` of pkg/bass/reader.go, over the runes after the opening quote. A rune is
-- a number, and a string is a list of them: below 128 a rune is written as the one byte that it is.
use bass.Prelude.{ℕ, Text, ◌==◌, Option, none, some, [], ◌∷◌, Result, ok, err, if◌then◌else◌}

abbrev pub quote : ℕ
quote = b'"'

abbrev pub backslash : ℕ
backslash = b'\\'

-- `escapeMap`: the bell is 7, backspace 8, tab 9, newline 10, the vertical tab 11, return 13.
unfoldable pub get_escape : ℕ → Option ℕ
get_escape r =
    if r == quote
    then some quote
    else if r == b'n'
    then some 10
    else if r == backslash
    then some backslash
    else if r == b't'
    then some 9
    else if r == b'a'
    then some 7
    else if r == b'f'
    then some 7
    else if r == b'r'
    then some 13
    else if r == b'b'
    then some 8
    else if r == b'v'
    then some 11
    else none

pub data ReadError : Type 0 where
  end_of_file : ReadError
  illegal_escape : ℕ → ReadError

abbrev write_rune : ℕ → Result ReadError (Text × Text) → Result ReadError (Text × Text)
write_rune r (ok (b, rest)) = ok (r ∷ b, rest)
write_rune r (err e) = err e

-- The string, and the runes after the closing quote.
unfoldable pub read_string : Text → Result ReadError (Text × Text)
read_string [] = err end_of_file
read_string (r ∷ []) = if r == quote then ok ([], []) else err end_of_file
read_string (r ∷ r2 ∷ rest) =
    let plain = read_string (r2 ∷ rest) in
    let after = read_string rest in
    if r == backslash
    then elim (get_escape r2) [
      | none ↦ err (illegal_escape r2)
      | some escaped ↦ write_rune escaped after
    ]
    else if r == quote
    then ok ([], r2 ∷ rest)
    else write_rune r plain
