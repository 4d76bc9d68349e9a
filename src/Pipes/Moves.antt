-- ===== src/Pipes/Moves.antt =====
-- What one call of `Next` does to the sources (pkg/bass/across.go).
use bass.Prelude.{
  ℕ, suc, ◌<◌, ltb, ltb→lt, lt→ltb, Bool, true, false, ◌==◌, Option, none, some, List, [], ◌∷◌,
  length, get_elem?, ◌≡◌, refl, ap, sym, ◌∙◌, arith, Bool-cases, Option-cases, inl, inr,
}
use bass.Pipes.Since.{
  Since, taken_count, dry_count, Moves, nothing, kept, moved, moved_count, IsGiven, IsDry,
  start-Since, moves_of, all-IsDry, take_at, end_at,
}
use bass.Pipes.Across.{
  Lane, lane, lasts, Event, done, default_case, ready, Answer, listed, ended, interrupted, blocked,
  Filled, filled, halted, and_lane, fill, Loop, Turn, again, stop, receive, select_case,
  select_loop, start_loop, after_fill, next,
}
use mathlib.Core.Path.{subst}

test_eq : (a b : ℕ) → (a == b) ≡ true → a ≡ b
test_eq a b h = ground arith

module _ {ℓ} {V : Type ℓ} where
  -- What holds of the variables of the loop, over the sources before the call.
  abbrev pub IsRunning : List (Lane V) → Loop V → Type ℓ
  IsRunning bs loop =
      (s : Since bs loop.lanes loop.listening) × (loop.has_new ≡ ltb 0 (taken_count s))
      × (loop.has_default ≡ false → taken_count s ≡ 0)
      × (loop.exhausted ≡ dry_count s)

  -- What an answer says of the sources before and after it.
  abbrev pub IsAnswer : List (Lane V) → Answer V → List (Lane V) → Type ℓ
  IsAnswer bs (listed row) ls = (m : Moves bs ls) × (0 < moved_count m) × (row ≡ lasts ls)
  IsAnswer bs ended ls = IsDry bs × (ls ≡ bs)
  IsAnswer bs _ ls = Unit

  abbrev pub IsTurn : List (Lane V) → Turn V → Type ℓ
  IsTurn bs (again loop) = IsRunning bs loop
  IsTurn bs (stop a ls) = IsAnswer bs a ls

  abbrev pub IsRest : List (Lane V) → Answer V × List (Lane V) → Type ℓ
  IsRest bs (a, ls) = IsAnswer bs a ls

  receive-IsTurn :
      (bs : List (Lane V)) (loop : Loop V) (i : ℕ) (vals : List V) (last : Option V)
      → IsGiven bs
      → IsRunning bs loop
      → get_elem? loop.listening i ≡ some true
      → get_elem? loop.lanes i ≡ some (lane vals last)
      → IsTurn bs (receive i vals last loop)
  unfolding receive
  receive-IsTurn bs loop i [] last g h e f =
      let (s, new, quiet, dried) = h in
      let (t, p, q) = end_at s i last e f in
      elim (Bool-cases (suc loop.exhausted == length loop.lanes)) [
        | inl b ↦ rw b (all-IsDry t (omega (arith, test_eq _ _ b, q, dried)))
        | inr b ↦
            rw b (t, new ∙ ap (λ n. ltb 0 n) (sym p), λ c. p ∙ quiet c, omega (arith, q, dried))
      ]
  receive-IsTurn bs loop i (v ∷ vals) last g h e f =
      let (s, new, quiet, dried) = h in
      let (t, p, q) = take_at s i v vals last e f in
      elim (Bool-cases loop.has_default) [
        | inl b ↦ rw b (
          t,
          sym (lt→ltb 0 (taken_count t) (omega (arith, p))),
          λ c. ground (arith, c),
          omega (arith, q, dried),
        )
        | inr b ↦ let (m, c) = moves_of t g in rw b (m, omega (arith, c, p), refl)
      ]

  select-IsTurn :
      (bs : List (Lane V)) (loop : Loop V) (e : Event)
      → IsGiven bs
      → IsRunning bs loop
      → IsTurn bs (select_case e loop)
  unfolding select_case
  select-IsTurn bs loop done g h = tt
  select-IsTurn bs loop default_case g h =
      let (s, new, quiet, dried) = h in
      elim (Bool-cases loop.has_default) [
        | inl b ↦ elim (Bool-cases loop.has_new) [
          | inl c ↦
              let (m, d) = moves_of s g in
              rw (b, c) (m, omega (arith, ltb→lt 0 _ (sym new ∙ c), d), refl)
          | inr c ↦ rw (b, c) (s, sym c ∙ new, λ d. ground (arith, sym new ∙ c), dried)
        ]
        | inr b ↦ rw b tt
      ]
  select-IsTurn bs loop (ready i) g h = elim (Option-cases (get_elem? loop.listening i)) [
    | inl e ↦ rw (e, select_case) tt
    | inr (b, e) ↦ elim (Bool-cases b) [
      | inl c ↦ elim (Option-cases (get_elem? loop.lanes i)) [
        | inl d ↦ rw (e, c, d, select_case) tt
        | inr (lane vals last, d) ↦
            rw (e, c, d, select_case) (receive-IsTurn bs loop i vals last g h (e ∙ ap some c) d)
      ]
      | inr c ↦ rw (e, c, select_case) tt
    ]
  ]

  rest_of :
      (bs : List (Lane V)) (es : List Event) (turn : Turn V)
      → ((loop : Loop V) → IsRunning bs loop → IsRest bs (select_loop es loop))
      → IsTurn bs turn
      → IsRest bs (elim turn [ again after ↦ select_loop es after | stop a ls ↦ (a, ls) ])
  rest_of bs es (again loop) ih h = ih loop h
  rest_of bs es (stop a ls) ih h = h

  select_rest :
      (bs : List (Lane V)) (es : List Event) (loop : Loop V)
      → IsGiven bs
      → IsRunning bs loop
      → IsRest bs (select_loop es loop)
  unfolding select_loop
  select_rest bs [] loop g h = tt
  select_rest bs (e ∷ es) loop g h =
      rest_of bs es (select_case e loop) (λ after k. select_rest bs es after g k)
        (select-IsTurn bs loop e g h)

  data IsUnlisted : Answer V → Type ℓ where
    at_end : IsUnlisted ended
    at_interrupt : IsUnlisted interrupted
    at_wait : IsUnlisted blocked

  -- What the loop over the sources that have given no value does.
  abbrev IsFilled : List (Lane V) → Filled V → Type ℓ
  IsFilled bs (filled updated ls) = (m : Moves bs ls) × (updated ≡ ltb 0 (moved_count m))
  IsFilled bs (halted a ls) = IsUnlisted a

  and_kept :
      (vals : List V) (v : V) (bs : List (Lane V)) (r : Filled V)
      → IsFilled bs r
      → IsFilled (lane vals (some v) ∷ bs) (and_lane false (lane vals (some v)) r)
  and_kept vals v bs (filled updated ls) (m, e) = (kept vals v m, e)
  and_kept vals v bs (halted a ls) h = h

  and_moved :
      (v : V) (vals : List V) (bs : List (Lane V)) (r : Filled V)
      → IsFilled bs r
      → IsFilled (lane (v ∷ vals) none ∷ bs) (and_lane true (lane vals (some v)) r)
  and_moved v vals bs (filled updated ls) (m, e) =
      (moved v vals none m, sym (lt→ltb 0 (suc (moved_count m)) (omega arith)))
  and_moved v vals bs (halted a ls) h = h

  fill_lem : (cancelled : List Bool) (bs : List (Lane V)) → IsFilled bs (fill cancelled bs)
  unfolding fill
  fill_lem cancelled [] = (nothing, refl)
  fill_lem cancelled (lane vals (some v) ∷ ls) = and_kept vals v ls _ (fill_lem cancelled ls)
  fill_lem [] (lane vals none ∷ ls) = at_wait
  fill_lem (true ∷ cancelled) (lane vals none ∷ ls) = at_interrupt
  fill_lem (false ∷ cancelled) (lane [] none ∷ ls) = at_end
  fill_lem (false ∷ cancelled) (lane (v ∷ vals) none ∷ ls) =
      and_moved v vals ls _ (fill_lem cancelled ls)

  pub moves-IsGiven : {bs ls : List (Lane V)} → Moves bs ls → IsGiven ls
  moves-IsGiven nothing = tt
  moves-IsGiven (kept vals v m) = (tt, moves-IsGiven m)
  moves-IsGiven (moved v vals last m) = (tt, moves-IsGiven m)

  unmoved : {bs ls : List (Lane V)} (m : Moves bs ls) → moved_count m ≡ 0 → ls ≡ bs
  unmoved nothing e = refl
  unmoved (kept vals v m) e = ap (λ ls. lane vals (some v) ∷ ls) (unmoved m e)
  unmoved (moved v vals last m) e = absurd (omega (arith, e))

  fill_given :
      (cancelled : List Bool) (bs : List (Lane V))
      → IsGiven bs
      → fill cancelled bs ≡ filled false bs
  unfolding fill
  fill_given cancelled [] g = refl
  fill_given cancelled (lane vals none ∷ ls) g = absurd g.0
  fill_given cancelled (lane vals (some v) ∷ ls) g = rw (fill_given cancelled ls g.1) refl

  started :
      (es : List Event) (bs : List (Lane V))
      → IsGiven bs
      → IsRest bs (select_loop es (start_loop bs))
  started es bs g =
      let (s, e, f) = start-Since bs in
      select_rest bs es (start_loop bs) g (s, rw e refl, λ c. ground (arith, c), sym f)

  -- What a list says, of a call from any sources.
  abbrev IsListing : List (Lane V) → Answer V × List (Lane V) → Type ℓ
  IsListing bs (listed row, ls) = (m : Moves bs ls) × (0 < moved_count m) × (row ≡ lasts ls)
  IsListing bs (_, ls) = Unit

  IsListing-of : (bs : List (Lane V)) (r : Answer V × List (Lane V)) → IsRest bs r → IsListing bs r
  IsListing-of bs (listed row, ls) h = h
  IsListing-of bs (_, ls) h = tt

  unlisted-IsListing : (bs ls : List (Lane V)) (a : Answer V) → IsUnlisted a → IsListing bs (a, ls)
  unlisted-IsListing bs ls _ at_end = tt
  unlisted-IsListing bs ls _ at_interrupt = tt
  unlisted-IsListing bs ls _ at_wait = tt

  after_fill-IsListing :
      (es : List Event) (bs : List (Lane V)) (r : Filled V)
      → IsFilled bs r
      → IsListing bs (after_fill es r)
  after_fill-IsListing es bs (filled true ls) (m, e) = (m, ltb→lt 0 (moved_count m) (sym e), refl)
  after_fill-IsListing es bs (filled false ls) (m, e) =
      subst (λ old. IsListing old (select_loop es (start_loop ls)))
        (unmoved m (ground (arith, sym e))) (IsListing-of ls _ (started es ls (moves-IsGiven m)))
  after_fill-IsListing es bs (halted a ls) h = unlisted-IsListing bs ls a h

  next-IsListing :
      (cancelled : List Bool) (es : List Event) (bs : List (Lane V))
      → IsListing bs (next cancelled es bs)
  unfolding next
  next-IsListing cancelled es [] = tt
  next-IsListing cancelled es (l ∷ bs) =
      after_fill-IsListing es (l ∷ bs) _ (fill_lem cancelled (l ∷ bs))

  -- A call of `Next` that gives a list moves every source on by one value at most, moves one of them
  -- at least, and lists the last value of each.
  pub next-listed :
      (cancelled : List Bool) (es : List Event) (bs ls : List (Lane V)) (row : List (Option V))
      → next cancelled es bs ≡ (listed row, ls)
      → (m : Moves bs ls) × (0 < moved_count m) × (row ≡ lasts ls)
  next-listed cancelled es bs ls row e = subst (IsListing bs) e (next-IsListing cancelled es bs)

  next_rest :
      (cancelled : List Bool) (es : List Event) (bs : List (Lane V))
      → IsGiven bs
      → IsRest bs (next cancelled es bs)
  unfolding next
  next_rest cancelled es [] g = (tt, refl)
  next_rest cancelled es (l ∷ bs) g = rw (fill_given cancelled (l ∷ bs) g) (started es (l ∷ bs) g)

  -- Once every source has given a value, a call of `Next` says that they have ended only if none has
  -- a value left, and it changes nothing.
  pub next-ended :
      (cancelled : List Bool) (es : List Event) (bs ls : List (Lane V))
      → IsGiven bs
      → next cancelled es bs ≡ (ended, ls)
      → IsDry bs × (ls ≡ bs)
  next-ended cancelled es bs ls g e = subst (IsRest bs) e (next_rest cancelled es bs g)
