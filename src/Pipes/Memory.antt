-- ===== src/Pipes/Memory.antt =====
-- Sources and sinks in memory (pkg/bass/pipes.go), and the builtin `next` (pkg/bass/ground.go).
use bass.Prelude.{
  ℕ, zero, suc, ◌+◌, ◌<◌, leb, ◌≡◌, refl, ap, arith, append_assoc, append-nil, length-append, true,
  false, Option, none, some, List, [], ◌∷◌, ◌++◌, length, get_elem?, if◌then◌else◌,
}
use mathlib.Core.Path.{subst}

leb_refl : (n : ℕ) → leb n n ≡ true
leb_refl n = ground arith

leb_short : (n m : ℕ) → leb (n + suc m) n ≡ false
leb_short n m = ground arith

pub record InMemorySource {ℓ} (V : Type ℓ) : Type ℓ where
  pub vals : List V
  pub offset : ℕ

module _ {ℓ} {V : Type ℓ} where
  -- `NewInMemorySource`, and `list->source`.
  abbrev pub new_source : List V → InMemorySource V
  new_source vals = record { vals = vals; offset = 0 }

  -- `Next`; `none` is the end of the source.
  unfoldable pub next_value : InMemorySource V → Option V × InMemorySource V
  next_value src =
      if leb (length src.vals) src.offset
      then (none, src)
      else (get_elem? src.vals src.offset, record src { offset = src.offset + 1 })

  abbrev or_default : Option V → Option V × InMemorySource V → Option V × InMemorySource V
  or_default def (some v, src) = (some v, src)
  or_default def (none, src) = (def, src)

  -- The builtin `next` with a default or without; `none` is the error.
  unfoldable pub next_or : Option V → InMemorySource V → Option V × InMemorySource V
  unfolding next_value
  next_or def src = or_default def (next_value src)

  -- `Emit` and `Source` of an `InMemorySink`, which is its values.
  unfoldable pub emit : V → List V → List V
  emit v sink = sink ++ v ∷ []

  -- The values that a source gives on so many calls, until its end.
  abbrev pub values_after : (InMemorySource V → List V) → Option V × InMemorySource V → List V
  values_after rest (some v, src) = v ∷ rest src
  values_after rest (none, src) = []

  unfoldable pub values : ℕ → InMemorySource V → List V
  unfolding next_value
  values zero src = []
  values (suc n) src = values_after (λ after. values n after) (next_value src)

  get_elem?-append : (pre post : List V) (v : V) → get_elem? (pre ++ v ∷ post) (length pre) ≡ some v
  get_elem?-append [] post v = refl
  get_elem?-append (w ∷ pre) post v = get_elem?-append pre post v

  same_source :
      {vals vals' : List V} {i j : ℕ}
      → vals ≡ vals'
      → i ≡ j
      → (◌≡◌ {A = InMemorySource V}
          (record { vals = vals; offset = i })
          (record { vals = vals'; offset = j }))
  same_source e f = cc

  values_from :
      (n : ℕ) (pre post : List V)
      → length post < n
      → values n (record { vals = pre ++ post; offset = length pre }) ≡ post
  unfolding values next_value
  values_from zero pre post h = absurd (omega (arith, h))
  values_from (suc n) pre [] h = rw (append-nil pre, leb_refl (length pre)) refl
  values_from (suc n) pre (v ∷ post) h =
      rw
        (
          length-append pre (v ∷ post),
          leb_short (length pre) (length post),
          get_elem?-append pre post v,
        )
        (ap (λ vs. v ∷ vs)
          (subst (λ src. values n src ≡ post)
            (same_source (append_assoc pre (v ∷ []) post) (length-append pre (v ∷ [])))
            (values_from n (pre ++ v ∷ []) post (omega (arith, h)))))

  -- A sink's source gives the values that were emitted to it, in their order, and then ends.
  pub values-new_source :
      (n : ℕ) (sink : List V) → length sink < n → values n (new_source sink) ≡ sink
  values-new_source n sink h = values_from n [] sink h
