-- ===== src/Pipes/Seen.antt =====
-- What a program sees of the sources of `across` (pkg/bass/across.go).
use bass.Prelude.{
  ℕ, zero, suc, ◌+◌, ◌≤◌, ◌<◌, Bool, Option, none, some, List, [], ◌∷◌, map, length, get_elem?, ◌≡◌,
  refl, ap, sym, ◌∙◌, arith,
}
use mathlib.Core.Path.{subst}
use mathlib.Core.Option.{some-injective}
use bass.Pipes.Across.{
  Lane, lane, lasts, last_of, Event, Answer, listed, ended, interrupted, blocked, impossible,
  across, next,
}
use bass.Pipes.Since.{Moves, nothing, kept, moved, moved_count, IsGiven, IsDry, pending}
use bass.Pipes.Moves.{moves-IsGiven, next-listed, next-ended}

abbrev pub Rows {ℓ} : Type ℓ → Type ℓ
Rows V = List (List (Option V)) × Answer V

module _ {ℓ} {V : Type ℓ} where
  abbrev pub with_row : List (Option V) → Rows V → Rows V
  with_row row (rows, a) = (row ∷ rows, a)

  abbrev pub drain_after : (List (Lane V) → Rows V) → Answer V × List (Lane V) → Rows V
  drain_after rest (listed row, ls) = with_row row (rest ls)
  drain_after rest (a, ls) = ([], a)

  -- `Next` is called, under a schedule each time, until a call gives no list.
  unfoldable pub drain : List (List Bool × List Event) → List (Lane V) → Rows V
  unfolding next
  drain [] ls = ([], blocked)
  drain ((cancelled, es) ∷ calls) ls =
      drain_after (λ after. drain calls after) (next cancelled es ls)

  -- A source's place in each list.
  abbrev pub place : ℕ → List (Option V) → Option V
  place i row = elim (get_elem? row i) [ none ↦ none | some v ↦ v ]

  abbrev pub column : ℕ → List (List (Option V)) → List (Option V)
  column i rows = map (λ row. place i row) rows

  -- A column that starts after the last value, shows each of the values, in their order and nothing
  -- else, and shows one again at will.
  pub data Shows : Option V → List (Option V) → List V → Type ℓ where
    all_shown : {last : Option V} → Shows last [] []
    fresh :
        {last : Option V} {col : List (Option V)} {vals : List V} (v : V)
        → Shows (some v) col vals
        → Shows last (some v ∷ col) (v ∷ vals)
    shown_again :
        {col : List (Option V)} {vals : List V} (v : V)
        → Shows (some v) col vals
        → Shows (some v) (some v ∷ col) vals

  moved_lane :
      {bs ls : List (Lane V)} (m : Moves bs ls) (i : ℕ) (vals : List V) (last : Option V)
      (col : List (Option V))
      → get_elem? bs i ≡ some (lane vals last)
      → ((rest : List V) (now : Option V)
          → get_elem? ls i ≡ some (lane rest now)
          → Shows now col rest)
      → Shows last (place i (lasts ls) ∷ col) vals
  moved_lane nothing i vals last col e f = ground (arith, e)
  moved_lane (kept ws w m) zero vals last col e f =
      subst (λ l. Shows (last_of l) (some w ∷ col) (pending l)) (some-injective _ _ e)
        (shown_again w (f ws (some w) refl))
  moved_lane (kept ws w m) (suc i) vals last col e f = moved_lane m i vals last col e f
  moved_lane (moved w ws old m) zero vals last col e f =
      subst (λ l. Shows (last_of l) (some w ∷ col) (pending l)) (some-injective _ _ e)
        (fresh w (f ws (some w) refl))
  moved_lane (moved w ws old m) (suc i) vals last col e f = moved_lane m i vals last col e f

  -- What a place shows after the lists of some calls, if the last call finds the sources ended.
  abbrev IsShown : List (Lane V) → Rows V → Type ℓ
  IsShown ls (rows, a) =
      a ≡ ended
      → (i : ℕ) (vals : List V) (last : Option V) → get_elem? ls i ≡ some (lane vals last)
      → Shows last (column i rows) vals

  row-IsShown :
      (bs ls : List (Lane V)) (row : List (Option V)) (r : Rows V)
      → ((m : Moves bs ls) × (0 < moved_count m) × (row ≡ lasts ls))
      → IsShown ls r
      → IsShown bs (with_row row r)
  row-IsShown bs ls row (rows, a) (m, p, e) h f i vals last g =
      rw e (moved_lane m i vals last (column i rows) g (λ rest now k. h f i rest now k))

  dry_shown :
      (ls : List (Lane V)) (i : ℕ) (vals : List V) (last : Option V)
      → IsDry ls
      → get_elem? ls i ≡ some (lane vals last)
      → Shows last [] vals
  dry_shown [] i vals last d e = ground (arith, e)
  dry_shown (l ∷ ls) zero vals last d e =
      rw (sym (ap pending (some-injective _ _ e)) ∙ d.0) all_shown
  dry_shown (l ∷ ls) (suc i) vals last d e = dry_shown ls i vals last d.1 e

  call-IsShown :
      (rest : List (Lane V) → Rows V) (cancelled : List Bool) (es : List Event) (bs : List (Lane V))
      → IsGiven bs
      → ((ls : List (Lane V)) → IsGiven ls → IsShown ls (rest ls))
      → (r : Answer V × List (Lane V)) → next cancelled es bs ≡ r
      → IsShown bs (drain_after rest r)
  call-IsShown rest cancelled es bs g ih (listed row, ls) e =
      let m = next-listed cancelled es bs ls row e in
      row-IsShown bs ls row (rest ls) m (ih ls (moves-IsGiven m.0))
  call-IsShown rest cancelled es bs g ih (ended, ls) e =
      λ f i vals last k. dry_shown bs i vals last (next-ended cancelled es bs ls g e).0 k
  call-IsShown rest cancelled es bs g ih (interrupted, ls) e = λ f i vals last k. ground (arith, f)
  call-IsShown rest cancelled es bs g ih (blocked, ls) e = λ f i vals last k. ground (arith, f)
  call-IsShown rest cancelled es bs g ih (impossible, ls) e = λ f i vals last k. ground (arith, f)

  shown :
      (calls : List (List Bool × List Event)) (ls : List (Lane V))
      → IsGiven ls
      → IsShown ls (drain calls ls)
  unfolding drain
  shown [] ls g = λ f i vals last k. ground (arith, f)
  shown ((cancelled, es) ∷ calls) ls g =
      call-IsShown (λ after. drain calls after) cancelled es ls g (λ after k. shown calls after k)
        (next cancelled es ls) refl

  get_elem?-across :
      (sources : List (List V)) (i : ℕ) (vals : List V)
      → get_elem? sources i ≡ some vals
      → get_elem? (across sources) i ≡ some (lane vals none)
  get_elem?-across [] i vals e = ground (arith, e)
  get_elem?-across (s ∷ sources) zero vals e = ap (λ l. some (lane l none)) (some-injective _ _ e)
  get_elem?-across (s ∷ sources) (suc i) vals e = get_elem?-across sources i vals e

  first-IsShown :
      (calls : List (List Bool × List Event)) (cancelled : List Bool) (es : List Event)
      (bs : List (Lane V)) (row : List (Option V)) (rows : List (List (Option V)))
      (r : Answer V × List (Lane V))
      → next cancelled es bs ≡ r
      → drain_after (λ after. drain calls after) r ≡ (row ∷ rows, ended)
      → IsShown bs (row ∷ rows, ended)
  first-IsShown calls cancelled es bs row rows (listed found, ls) e f =
      let m = next-listed cancelled es bs ls found e in
      subst (IsShown bs) f
        (row-IsShown bs ls found (drain calls ls) m (shown calls ls (moves-IsGiven m.0)))
  first-IsShown calls cancelled es bs row rows (_, ls) e f =
      λ h i vals last k. ground (arith, ap (λ r. r.0) f)

  -- However the goroutines are scheduled: when the lists of `across` end, and there was one, every
  -- source has shown all of its values in its place of the lists, in their order and nothing else.
  -- None is skipped.
  pub never_skipped :
      (sources : List (List V)) (calls : List (List Bool × List Event)) (row : List (Option V))
      (rows : List (List (Option V))) (i : ℕ) (vals : List V)
      → drain calls (across sources) ≡ (row ∷ rows, ended)
      → get_elem? sources i ≡ some vals
      → Shows none (column i (row ∷ rows)) vals
  unfolding drain
  never_skipped sources [] row rows i vals e f = ground (arith, ap (λ r. r.1) e)
  never_skipped sources ((cancelled, es) ∷ calls) row rows i vals e f =
      first-IsShown calls cancelled es (across sources) row rows _ refl e refl i vals none
        (get_elem?-across sources i vals f)

  -- How many values the sources have left.
  abbrev pub remaining : List (Lane V) → ℕ
  remaining [] = 0
  remaining (l ∷ ls) = length (pending l) + remaining ls

  remaining_moves :
      {bs ls : List (Lane V)} (m : Moves bs ls) → remaining ls + moved_count m ≡ remaining bs
  remaining_moves nothing = omega arith
  remaining_moves (kept vals v m) = omega (arith, remaining_moves m)
  remaining_moves (moved v vals last m) = omega (arith, remaining_moves m)

  call_length :
      (rest : List (Lane V) → Rows V) (cancelled : List Bool) (es : List Event) (bs : List (Lane V))
      → ((ls : List (Lane V)) → length (rest ls).0 ≤ remaining ls)
      → (r : Answer V × List (Lane V)) → next cancelled es bs ≡ r
      → length (drain_after rest r).0 ≤ remaining bs
  call_length rest cancelled es bs ih (listed row, ls) e =
      let (m, p, q) = next-listed cancelled es bs ls row e in
      omega (arith, ih ls, p, remaining_moves m)
  call_length rest cancelled es bs ih (_, ls) e = omega arith

  -- There are at most as many lists as there are values in all the sources.
  pub length-drain :
      (calls : List (List Bool × List Event)) (ls : List (Lane V))
      → length (drain calls ls).0 ≤ remaining ls
  unfolding drain
  length-drain [] ls = omega arith
  length-drain ((cancelled, es) ∷ calls) ls =
      call_length (λ after. drain calls after) cancelled es ls (λ after. length-drain calls after)
        (next cancelled es ls) refl
