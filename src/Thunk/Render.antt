-- ===== src/Thunk/Render.antt =====
-- `ThunkAddr.Render` of pkg/bass/thunk_addr.go, with `os.Expand` of the standard library.
use bass.Prelude.{
  ℕ, zero, suc, ◌+◌, ◌/◌, ◌%◌, Text, text_eq, codes, Bool, ◌||◌, ◌&&◌, ◌==◌, leb, Option, none,
  some, List, [], ◌∷◌, ◌++◌, length, Result, ok, err, ◌>>=◌, if◌then◌else◌, ◌≡◌, refl,
}
use bass.Prelude.Int.{pos, negsuc}
use bass.Thunk.Types.{
  Failure, panics, unprinted, Datum, int, string, annotated, Bindings, no_bindings, binding,
}
use bass.Thunk.Plain.{decode_string}

abbrev is_digit : ℕ → Bool
is_digit c = leb b'0' c && leb c b'9'

abbrev is_letter : ℕ → Bool
is_letter c = leb b'a' c && leb c b'z' || leb b'A' c && leb c b'Z'

abbrev is_alphanumeric : ℕ → Bool
is_alphanumeric c = c == b'_' || is_digit c || is_letter c

-- `isShellSpecialVar`.
abbrev is_special : ℕ → Bool
is_special c =
    c == b'*'
    || c == b'#'
    || c == b'$'
    || c == b'@'
    || c == b'!'
    || c == b'?'
    || c == b'-'
    || is_digit c

-- The characters before a closing brace, if there is one.
unfoldable pub before_brace : Text → Option Text
before_brace [] = none
before_brace (c ∷ s) =
    let rest = before_brace s in
    if c == b'}' then some [] else elim rest [ none ↦ none | some name ↦ some (c ∷ name) ]

unfoldable pub leading_name : Text → Text
leading_name [] = []
leading_name (c ∷ s) = let rest = leading_name s in if is_alphanumeric c then c ∷ rest else []

-- `getShellName`: the name after a `$`, and the number of characters that it takes.
unfoldable pub shell_name : Text → Text × ℕ
unfolding before_brace leading_name
shell_name [] = ([], 0)
shell_name (c ∷ s) =
    if c == b'{'
    then (elim (before_brace s) [
      | none ↦ ([], 1)
      | some name ↦ elim name [ [] ↦ ([], 2) | (d ∷ ds) ↦ (d ∷ ds, length ds + 3) ]
    ])
    else if is_special c
    then (c ∷ [], 1)
    else (let name = leading_name (c ∷ s) in (name, length name))

-- What the text expands to: its characters and, in their places, the names.
pub data Piece : Type 0 where
  char : ℕ → Piece
  name : Text → Piece

-- `os.Expand`, past the characters that are to be skipped. Where there is no name a `$` stands for
-- itself, and bad syntax is dropped.
unfoldable pub expand : ℕ → Text → List Piece
unfolding shell_name
expand skip [] = []
expand (suc skip) (c ∷ s) = expand skip s
expand zero (c ∷ []) = char c ∷ []
expand zero (c ∷ d ∷ s) =
    let (found, taken) = shell_name (d ∷ s) in
    let plain = expand zero (d ∷ s) in
    let after = expand taken (d ∷ s) in
    if c == b'$'
    then (elim found [
      | [] ↦ if taken == 0 then char c ∷ after else after
      | (e ∷ es) ↦ name (e ∷ es) ∷ after
    ])
    else char c ∷ plain

unfoldable pub find_binding : Text → Bindings → Option Datum
find_binding k no_bindings = none
find_binding k (binding j v bs) =
    let rest = find_binding k bs in if text_eq j k then some v else rest

-- A number in decimal, on enough fuel, before the digits that follow.
unfoldable pub decimal : ℕ → ℕ → Text → Text
decimal zero n digits = digits
decimal (suc fuel) n digits =
    let digit = b'0' + n % 10 in
    let rest = decimal fuel (n / 10) (digit ∷ digits) in if leb n 9 then digit ∷ digits else rest

-- `String` of a number. The information about a port holds texts and numbers.
unfoldable pub show : Datum → Result Failure Text
unfolding decimal
show (int (pos n)) = ok (decimal (n + 1) n [])
show (int (negsuc n)) = ok (b'-' ∷ decimal (suc n + 1) (suc n) [])
show (annotated v) = show v
show v = err unprinted

-- A name that is not bound is recorded as an error, and then its nil value is decoded.
unfoldable pub render_name : Text → Bindings → Result Failure Text
unfolding find_binding show
render_name k info = elim (find_binding k info) [
  | none ↦ err panics
  | some v ↦ elim (decode_string v) [ some s ↦ ok s | none ↦ show v ]
]

unfoldable pub render_pieces : List Piece → Bindings → Result Failure Text
unfolding render_name
render_pieces [] info = ok []
render_pieces (char c ∷ ps) info = do s ← render_pieces ps info; ok (c ∷ s)
render_pieces (name k ∷ ps) info = do v ← render_name k info; s ← render_pieces ps info; ok (v ++ s)

-- `Render`, with the format of an address.
unfoldable pub render : Text → Bindings → Result Failure Text
unfolding render_pieces expand
render format info = render_pieces (expand 0 format) info

-- The format that an address has by default.
default_format :
    render (codes "$host:$port") (
      binding
        (codes "host")
        (string (codes "web"))
        (binding (codes "port") (int (pos 80)) no_bindings))
    ≡ ok (codes "web:80")
unfolding render render_pieces render_name expand shell_name leading_name before_brace decode_string
    find_binding show decimal text_eq
default_format = refl
