-- ===== src/Pipes/Since.antt =====
-- The sources while `Next` selects among them (pkg/bass/across.go).
use bass.Prelude.{
  ℕ, zero, suc, ◌≤◌, Bool, true, false, Option, none, some, List, [], ◌∷◌, length, get_elem?, set,
  replicate, ◌≡◌, refl, ap, sym, arith,
}
use bass.Pipes.Across.{Lane, lane}
use mathlib.Core.Path.{subst}
use mathlib.Core.Option.{some-injective}

module _ {ℓ} {V : Type ℓ} where
  -- The sources after the loop has run for a while: one that is listened to is as it was, one that is
  -- not has given its next value or has ended.
  pub data Since : List (Lane V) → List (Lane V) → List Bool → Type ℓ where
    no_sources : Since [] [] []
    untouched :
        {bs ls : List (Lane V)} {ns : List Bool} (l : Lane V)
        → Since bs ls ns
        → Since (l ∷ bs) (l ∷ ls) (true ∷ ns)
    taken :
        {bs ls : List (Lane V)} {ns : List Bool} (v : V) (vals : List V) (last : Option V)
        → Since bs ls ns
        → Since (lane (v ∷ vals) last ∷ bs) (lane vals (some v) ∷ ls) (false ∷ ns)
    dry :
        {bs ls : List (Lane V)} {ns : List Bool} (last : Option V)
        → Since bs ls ns
        → Since (lane [] last ∷ bs) (lane [] last ∷ ls) (false ∷ ns)

  abbrev pub taken_count : {bs ls : List (Lane V)} {ns : List Bool} → Since bs ls ns → ℕ
  taken_count no_sources = 0
  taken_count (untouched l s) = taken_count s
  taken_count (taken v vals last s) = suc (taken_count s)
  taken_count (dry last s) = taken_count s

  abbrev pub dry_count : {bs ls : List (Lane V)} {ns : List Bool} → Since bs ls ns → ℕ
  dry_count no_sources = 0
  dry_count (untouched l s) = dry_count s
  dry_count (taken v vals last s) = dry_count s
  dry_count (dry last s) = suc (dry_count s)

  -- The sources before and after a list: each has given a value, and has moved on by one or stayed.
  pub data Moves : List (Lane V) → List (Lane V) → Type ℓ where
    nothing : Moves [] []
    kept :
        {bs ls : List (Lane V)} (vals : List V) (v : V)
        → Moves bs ls
        → Moves (lane vals (some v) ∷ bs) (lane vals (some v) ∷ ls)
    moved :
        {bs ls : List (Lane V)} (v : V) (vals : List V) (last : Option V)
        → Moves bs ls
        → Moves (lane (v ∷ vals) last ∷ bs) (lane vals (some v) ∷ ls)

  abbrev pub moved_count : {bs ls : List (Lane V)} → Moves bs ls → ℕ
  moved_count nothing = 0
  moved_count (kept vals v m) = moved_count m
  moved_count (moved v vals last m) = suc (moved_count m)

  abbrev pub IsGivenLane : Lane V → Type 0
  IsGivenLane (lane vals (some v)) = Unit
  IsGivenLane (lane vals none) = ⊥

  -- Every source has given a value.
  abbrev pub IsGiven : List (Lane V) → Type 0
  IsGiven [] = Unit
  IsGiven (l ∷ ls) = IsGivenLane l × IsGiven ls

  abbrev pub pending : Lane V → List V
  pending (lane vals last) = vals

  -- No source has a value left.
  abbrev pub IsDry : List (Lane V) → Type ℓ
  IsDry [] = Unit
  IsDry (l ∷ ls) = (pending l ≡ []) × IsDry ls

  pub start-Since :
      (ls : List (Lane V))
      → (s : Since ls ls (replicate (length ls) true)) × (taken_count s ≡ 0) × (dry_count s ≡ 0)
  start-Since [] = (no_sources, refl, refl)
  start-Since (l ∷ ls) = let (s, e, f) = start-Since ls in (untouched l s, e, f)

  pub moves_of :
      {bs ls : List (Lane V)} {ns : List Bool} (s : Since bs ls ns)
      → IsGiven bs
      → (m : Moves bs ls) × (moved_count m ≡ taken_count s)
  moves_of no_sources g = (nothing, refl)
  moves_of (untouched (lane vals (some v)) s) g = let (m, e) = moves_of s g.1 in (kept vals v m, e)
  moves_of (untouched (lane vals none) s) g = absurd g.0
  moves_of (taken v vals last s) g = let (m, e) = moves_of s g.1 in (moved v vals last m, ap suc e)
  moves_of (dry (some v) s) g = let (m, e) = moves_of s g.1 in (kept [] v m, e)
  moves_of (dry none s) g = absurd g.0

  dry_count_le :
      {bs ls : List (Lane V)} {ns : List Bool} (s : Since bs ls ns) → dry_count s ≤ length ls
  dry_count_le no_sources = omega arith
  dry_count_le (untouched l s) = omega (arith, dry_count_le s)
  dry_count_le (taken v vals last s) = omega (arith, dry_count_le s)
  dry_count_le (dry last s) = omega (arith, dry_count_le s)

  pub all-IsDry :
      {bs ls : List (Lane V)} {ns : List Bool} (s : Since bs ls ns)
      → dry_count s ≡ length ls
      → IsDry bs × (ls ≡ bs)
  all-IsDry no_sources e = (tt, refl)
  all-IsDry (untouched l s) e = absurd (omega (arith, e, dry_count_le s))
  all-IsDry (taken v vals last s) e = absurd (omega (arith, e, dry_count_le s))
  all-IsDry (dry last s) e =
      let (d, f) = all-IsDry s (omega (arith, e)) in ((refl, d), ap (λ ls. lane [] last ∷ ls) f)

  first_taken :
      {bs ls : List (Lane V)} {ns : List Bool} (s : Since bs ls ns) (l : Lane V) (v : V)
      (vals : List V) (last : Option V)
      → l ≡ lane (v ∷ vals) last
      → (t : Since (l ∷ bs) (lane vals (some v) ∷ ls) (false ∷ ns)) × (taken_count t
          ≡ suc (taken_count s))
        × (dry_count t ≡ dry_count s)
  first_taken {bs} {ls} {ns} s l v vals last e =
      subst
        (λ k.
          (t : Since (k ∷ bs) (lane vals (some v) ∷ ls) (false ∷ ns)) × (taken_count t
            ≡ suc (taken_count s))
          × (dry_count t ≡ dry_count s))
        (sym e) (taken v vals last s, refl, refl)

  first_dry :
      {bs ls : List (Lane V)} {ns : List Bool} (s : Since bs ls ns) (l : Lane V) (last : Option V)
      → l ≡ lane [] last
      → (t : Since (l ∷ bs) (l ∷ ls) (false ∷ ns)) × (taken_count t ≡ taken_count s)
        × (dry_count t ≡ suc (dry_count s))
  first_dry {bs} {ls} {ns} s l last e =
      subst
        (λ k.
          (t : Since (k ∷ bs) (k ∷ ls) (false ∷ ns)) × (taken_count t ≡ taken_count s)
          × (dry_count t ≡ suc (dry_count s)))
        (sym e) (dry last s, refl, refl)

  -- A source that is listened to gives its next value.
  pub take_at :
      {bs ls : List (Lane V)} {ns : List Bool} (s : Since bs ls ns) (i : ℕ) (v : V) (vals : List V)
      (last : Option V)
      → get_elem? ns i ≡ some true
      → get_elem? ls i ≡ some (lane (v ∷ vals) last)
      → (t : Since bs (set ls i (lane vals (some v))) (set ns i false)) × (taken_count t
          ≡ suc (taken_count s))
        × (dry_count t ≡ dry_count s)
  take_at no_sources i v vals last e f = ground (arith, e)
  take_at (untouched l s) zero v vals last e f = first_taken s l v vals last (some-injective _ _ f)
  take_at (untouched l s) (suc i) v vals last e f =
      let (t, p, q) = take_at s i v vals last e f in (untouched l t, p, q)
  take_at (taken w ws old s) zero v vals last e f = ground (arith, e)
  take_at (taken w ws old s) (suc i) v vals last e f =
      let (t, p, q) = take_at s i v vals last e f in (taken w ws old t, ap suc p, q)
  take_at (dry old s) zero v vals last e f = ground (arith, e)
  take_at (dry old s) (suc i) v vals last e f =
      let (t, p, q) = take_at s i v vals last e f in (dry old t, p, ap suc q)

  -- A source that is listened to has ended.
  pub end_at :
      {bs ls : List (Lane V)} {ns : List Bool} (s : Since bs ls ns) (i : ℕ) (last : Option V)
      → get_elem? ns i ≡ some true
      → get_elem? ls i ≡ some (lane [] last)
      → (t : Since bs ls (set ns i false)) × (taken_count t ≡ taken_count s)
        × (dry_count t ≡ suc (dry_count s))
  end_at no_sources i last e f = ground (arith, e)
  end_at (untouched l s) zero last e f = first_dry s l last (some-injective _ _ f)
  end_at (untouched l s) (suc i) last e f =
      let (t, p, q) = end_at s i last e f in (untouched l t, p, q)
  end_at (taken w ws old s) zero last e f = ground (arith, e)
  end_at (taken w ws old s) (suc i) last e f =
      let (t, p, q) = end_at s i last e f in (taken w ws old t, ap suc p, q)
  end_at (dry old s) zero last e f = ground (arith, e)
  end_at (dry old s) (suc i) last e f =
      let (t, p, q) = end_at s i last e f in (dry old t, p, ap suc q)
