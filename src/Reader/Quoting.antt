-- ===== src/Reader/Quoting.antt =====
-- Reading what `String.String` prints (pkg/bass/string.go, by the verb `%q` of fmt).
use bass.Prelude.{
  Option-cases, ◌⊎◌, inl, inr, ℕ, ◌<◌, ◌≤◌, ◌≡◌, ◌≢◌, refl, Text, ◌==◌, Option, none, some, [], ◌∷◌,
  ◌++◌, ok, if◌then◌else◌, arith,
}
use bass.Reader.Strings.{quote, backslash, get_escape, read_string}

-- The two runes of an escape that `%q` writes for a rune, of those that have one.
unfoldable pub escape_of : ℕ → Option ℕ
escape_of r =
    if r == quote
    then some quote
    else if r == backslash
    then some backslash
    else if r == 7
    then some b'a'
    else if r == 8
    then some b'b'
    else if r == 9
    then some b't'
    else if r == 10
    then some b'n'
    else if r == 11
    then some b'v'
    else if r == 12
    then some b'f'
    else if r == 13
    then some b'r'
    else none

unfoldable pub quoted_rune : ℕ → Text
quoted_rune r = elim (escape_of r) [ some e ↦ backslash ∷ e ∷ [] | none ↦ r ∷ [] ]

-- What `%q` writes after the opening quote.
unfoldable pub quoted : Text → Text
quoted [] = quote ∷ []
quoted (r ∷ s) = quoted_rune r ++ quoted s

-- A rune that `%q` writes as itself or with an escape of one letter, except for the form feed.
abbrev pub IsPlain : ℕ → Type 0
IsPlain r = ((32 ≤ r) × (r < 127)) ⊎ ((7 ≤ r) × (r ≤ 13) × (r ≢ 12))

abbrev pub AllPlain : Text → Type 0
AllPlain [] = Unit
AllPlain (r ∷ s) = IsPlain r × AllPlain s

get_escape-escape_of : (r e : ℕ) → r ≢ 12 → escape_of r ≡ some e → get_escape e ≡ some r
unfolding escape_of get_escape
get_escape-escape_of r e n h = ground arith

IsPlain-ne : (r : ℕ) → IsPlain r → r ≢ 12
IsPlain-ne r p e = ground arith

quoted-plain :
    (r : ℕ) (s rest : Text) → escape_of r ≡ none → quoted (r ∷ s) ++ rest ≡ r ∷ (quoted s ++ rest)
unfolding quoted quoted_rune
quoted-plain r s rest e = ground (arith, e)

quoted-escape :
    (r c : ℕ) (s rest : Text)
    → escape_of r ≡ some c
    → quoted (r ∷ s) ++ rest ≡ backslash ∷ c ∷ (quoted s ++ rest)
unfolding quoted quoted_rune
quoted-escape r c s rest e = ground (arith, e)

read_string-plain :
    (r : ℕ) (runes b rest : Text)
    → escape_of r ≡ none
    → read_string runes ≡ ok (b, rest)
    → read_string (r ∷ runes) ≡ ok (r ∷ b, rest)
unfolding read_string escape_of
read_string-plain r [] b rest e h = cc
read_string-plain r (r2 ∷ runes) b rest e h = ground arith

read_string-escape :
    (r e : ℕ) (runes b rest : Text)
    → get_escape e ≡ some r
    → read_string runes ≡ ok (b, rest)
    → read_string (backslash ∷ e ∷ runes) ≡ ok (r ∷ b, rest)
unfolding read_string
read_string-escape r e runes b rest g h = ground arith

-- The reader takes what is printed for a string back to the string, and stops behind its closing
-- quote. The string's runes are printable ASCII or the control characters that have an escape of one
-- letter, but for the form feed.
pub read_string-quoted :
    (s rest : Text) → AllPlain s → read_string (quoted s ++ rest) ≡ ok (s, rest)
unfolding quoted
read_string-quoted [] rest p = at_end rest
  where
    at_end : (rest : Text) → read_string (quote ∷ rest) ≡ ok ([], rest)
    at_end [] = unfold read_string in refl
    at_end (r ∷ rest) = unfold read_string in refl
read_string-quoted (r ∷ s) rest p = elim (Option-cases (escape_of r)) [
  | inl e ↦
      rw (quoted-plain r s rest e)
        (read_string-plain r (quoted s ++ rest) s rest e (read_string-quoted s rest p.1))
  | inr (c, e) ↦ rw (quoted-escape r c s rest e) (
      read_string-escape r c (quoted s ++ rest) s rest
        (get_escape-escape_of r c (IsPlain-ne r p.0) e) (read_string-quoted s rest p.1))
]

-- A form feed does not come back: the string that is printed for it reads as one that begins with the
-- bell.
pub read_string-form_feed :
    (s rest : Text) → AllPlain s → read_string (quoted (12 ∷ s) ++ rest) ≡ ok (7 ∷ s, rest)
unfolding escape_of get_escape
read_string-form_feed s rest p =
    rw (quoted-escape 12 b'f' s rest refl)
      (read_string-escape 7 b'f' (quoted s ++ rest) s rest refl (read_string-quoted s rest p))
