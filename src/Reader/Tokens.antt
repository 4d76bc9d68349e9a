-- ===== src/Reader/Tokens.antt =====
-- From the text of a token to what it evaluates to: `readSymbol` of pkg/bass/reader.go on a name with
-- keywords behind it.
use mathlib.Core.Path.{subst}
use bass.Prelude.{
  ℕ, ◌≡◌, ◌≢◌, refl, sym, ap, ◌∙◌, Text, codes, text_eq, text_eq_iff, has_prefix, split, join, Bool,
  true, false, not, ◌&&◌, ◌==◌, none, List, [], ◌∷◌, ◌++◌, append_assoc, Bool-cases, inl, inr,
  arith,
}
use bass.Value.{Value, Addr}
use bass.Path.Clean.{slash, dot}
use bass.Scope.Heap.{found}
use bass.Eval.Task.{Store, eval}
use bass.Eval.Scopes.{lookup}
use bass.Eval.Step.{start}
use bass.Eval.Trampoline.{value, Runs}
use bass.Reader.Symbols.{
  colon, predefined, read_keywords, read_keywords_or_just_symbol, read_symbol,
}
use bass.Reader.Keywords.{Follows, Runs-read_keywords}

-- No byte of the text is the separator.
abbrev pub lacks : ℕ → Text → Bool
lacks sep [] = true
lacks sep (c ∷ s) = not (c == sep) && lacks sep s

abbrev pub AllLack : ℕ → List Text → Type 0
AllLack sep [] = Unit
AllLack sep (e ∷ es) = (lacks sep e ≡ true) × AllLack sep es

split-lacks : (sep : ℕ) (e : Text) → lacks sep e ≡ true → split sep e ≡ e ∷ []
unfolding split
split-lacks sep [] h = refl
split-lacks sep (c ∷ e) h = ground (arith, split-lacks sep e)

split-append :
    (sep : ℕ) (e rest : Text)
    → lacks sep e ≡ true
    → split sep (e ++ sep ∷ rest) ≡ e ∷ split sep rest
unfolding split
split-append sep [] rest h = ground arith
split-append sep (c ∷ e) rest h = ground (arith, split-append sep e rest)

join-cons :
    (sep : ℕ) (e f : Text) (es : List Text)
    → join (sep ∷ []) (e ∷ f ∷ es) ≡ e ++ sep ∷ join (sep ∷ []) (f ∷ es)
unfolding join
join-cons sep e f es = append_assoc e (sep ∷ []) (join (sep ∷ []) (f ∷ es))

-- Text that is joined at a separator which none of its parts has is split into these parts.
split-join :
    (sep : ℕ) (e : Text) (es : List Text)
    → AllLack sep (e ∷ es)
    → split sep (join (sep ∷ []) (e ∷ es)) ≡ e ∷ es
unfolding join
split-join sep e [] h = split-lacks sep e h.0
split-join sep e (f ∷ es) h =
    ap (split sep) (join-cons sep e f es)
    ∙ split-append sep e (join (sep ∷ []) (f ∷ es)) h.0
    ∙ ap (λ l. e ∷ l) (split-join sep f es h.1)

lacks-append :
    (sep : ℕ) (s t : Text) → lacks sep s ≡ true → lacks sep t ≡ true → lacks sep (s ++ t) ≡ true
lacks-append sep [] t p q = q
lacks-append sep (c ∷ s) t p q = ground (arith, lacks-append sep s t)

lacks-join :
    (e : Text) (es : List Text)
    → AllLack slash (e ∷ es)
    → lacks slash (join (colon ∷ []) (e ∷ es)) ≡ true
unfolding join
lacks-join e [] h = h.0
lacks-join e (f ∷ es) h =
    ap (lacks slash) (join-cons colon e f es)
    ∙ lacks-append slash e (colon ∷ join (colon ∷ []) (f ∷ es)) h.0 (lacks-join f es h.1)

-- The token `c…:k:…` of these segments.
abbrev pub token : ℕ → Text → Text → List Text → Text
token c name k ks = join (colon ∷ []) ((c ∷ name) ∷ k ∷ ks)

module _ (c : ℕ) (name k : Text) (ks : List Text) (h : AllLack colon ((c ∷ name) ∷ k ∷ ks)) where
  -- A text without a colon is not the token.
  ne_plain : (s : Text) → split colon s ≡ s ∷ [] → text_eq (token c name k ks) s ≡ false
  ne_plain s plain = elim (Bool-cases (text_eq (token c name k ks) s)) [
    | inl e ↦
        let same = (text_eq_iff (token c name k ks) s).0 e in
        let parts : (c ∷ name) ∷ k ∷ ks ≡ s ∷ [] =
          sym (split-join colon (c ∷ name) (k ∷ ks) h) ∙ ap (split colon) same ∙ plain in
        absurd (cc)
    | inr e ↦ e
  ]

  predefined-token : predefined (token c name k ks) ≡ none
  unfolding predefined split
  predefined-token = ground (
    arith,
    ne_plain (codes "_") refl,
    ne_plain (codes "null") refl,
    ne_plain (codes "true") refl,
    ne_plain (codes "false") refl,
  )

  has_prefix-token : c ≢ b'.' → has_prefix (token c name k ks) dot ≡ false
  unfolding has_prefix
  has_prefix-token d =
      ap (λ t. has_prefix t dot) (join-cons colon (c ∷ name) k ks) ∙ ground (arith, d)

  -- The token is read as its segments are.
  pub read_symbol-token :
      AllLack slash ((c ∷ name) ∷ k ∷ ks)
      → c ≢ b'.'
      → read_symbol (token c name k ks) ≡ read_keywords ((c ∷ name) ∷ k ∷ ks)
  unfolding read_symbol read_keywords_or_just_symbol
  read_symbol-token g d = ground (
    arith,
    predefined-token,
    split-lacks slash (token c name k ks) (lacks-join (c ∷ name) (k ∷ ks) g),
    split-join colon (c ∷ name) (k ∷ ks) h,
    has_prefix-token d,
  )

-- The token `name:k1:k2...`, of a name and one or more keywords without a colon or a slash, of which the
-- name is not empty and does not start with a dot, is read as a form that evaluates to what one finds by
-- looking up the name in the scope of the evaluation and then each keyword in the scope that was found
-- before it, where all of these are found; nothing else changes.
pub Runs-read_symbol :
    (s : Addr) (c : ℕ) (name k : Text) (ks : List Text) (v w : Value) (st : Store)
    → AllLack colon ((c ∷ name) ∷ k ∷ ks)
    → AllLack slash ((c ∷ name) ∷ k ∷ ks)
    → c ≢ b'.'
    → lookup st s (c ∷ name) ≡ found v
    → Follows st v (k ∷ ks) w
    → Runs (start (eval (read_symbol (token c name k ks)) s) st) (value w st)
Runs-read_symbol s c name k ks v w st h g d e f =
    subst (λ form. Runs (start (eval form s) st) (value w st))
      (sym (read_symbol-token c name k ks h g d)) (Runs-read_keywords s c name (k ∷ ks) v w st e f)
