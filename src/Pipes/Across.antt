-- ===== src/Pipes/Across.antt =====
-- `CrossSource` of pkg/bass/across.go, with the builtin `across`. What the goroutines and the runtime
-- decide is a schedule: which case a select takes each time.
use bass.Prelude.{
  ℕ, suc, Bool, true, false, ◌==◌, Option, none, some, List, [], ◌∷◌, map, length, get_elem?, set,
  replicate, if◌then◌else◌,
}

-- A source: the values that its channel is still to give before it is closed, and the last one that
-- was received, where `none` is nil.
pub data Lane {ℓ} (V : Type ℓ) : Type ℓ where
  lane : List V → Option V → Lane V

-- A case that a select takes: the context is done, the default, or the channel of a source.
pub data Event : Type 0 where
  done default_case : Event
  ready : ℕ → Event

-- `blocked` is a call that still waits when the schedule is over, and `impossible` a case that the
-- select did not have.
pub data Answer {ℓ} (V : Type ℓ) : Type ℓ where
  listed : List (Option V) → Answer V
  ended interrupted blocked impossible : Answer V

module _ {ℓ} {V : Type ℓ} where
  -- `Across`.
  abbrev pub across : List (List V) → List (Lane V)
  across sources = map (λ vals. lane vals none) sources

  -- The values of the list that `Next` makes.
  abbrev pub last_of : Lane V → Option V
  last_of (lane vals last) = last

  abbrev pub lasts : List (Lane V) → List (Option V)
  lasts lanes = map last_of lanes

-- The loop of `Next` over the sources that have given no value yet.
pub data Filled {ℓ} (V : Type ℓ) : Type ℓ where
  filled : Bool → List (Lane V) → Filled V
  halted : Answer V → List (Lane V) → Filled V

module _ {ℓ} {V : Type ℓ} where
  abbrev pub and_lane : Bool → Lane V → Filled V → Filled V
  and_lane true l (filled updated ls) = filled true (l ∷ ls)
  and_lane false l (filled updated ls) = filled updated (l ∷ ls)
  and_lane b l (halted a ls) = halted a (l ∷ ls)

  -- The schedule says of each receive whether the context is done instead.
  unfoldable pub fill : List Bool → List (Lane V) → Filled V
  fill cancelled [] = filled false []
  fill cancelled (lane vals (some v) ∷ ls) = and_lane false (lane vals (some v)) (fill cancelled ls)
  fill [] (lane vals none ∷ ls) = halted blocked (lane vals none ∷ ls)
  fill (true ∷ cancelled) (lane vals none ∷ ls) = halted interrupted (lane vals none ∷ ls)
  fill (false ∷ cancelled) (lane [] none ∷ ls) = halted ended (lane [] none ∷ ls)
  fill (false ∷ cancelled) (lane (v ∷ vals) none ∷ ls) =
      and_lane true (lane vals (some v)) (fill cancelled ls)

-- The variables of the loop of `Next` over `reflect.Select`. A source whose case has no channel is not
-- listened to.
pub record Loop {ℓ} (V : Type ℓ) : Type ℓ where
  pub lanes : List (Lane V)
  pub listening : List Bool
  pub has_new : Bool
  pub has_default : Bool
  pub exhausted : ℕ

pub data Turn {ℓ} (V : Type ℓ) : Type ℓ where
  again : Loop V → Turn V
  stop : Answer V → List (Lane V) → Turn V

module _ {ℓ} {V : Type ℓ} where
  -- A receive from the channel of a source that is listened to.
  unfoldable pub receive : ℕ → List V → Option V → Loop V → Turn V
  receive i [] last loop =
      if suc loop.exhausted == length loop.lanes
      then stop ended loop.lanes
      else again
          (record loop { listening = set loop.listening i false; exhausted = suc loop.exhausted })
  receive i (v ∷ vals) last loop =
      let lanes = set loop.lanes i (lane vals (some v)) in
      if loop.has_default
      then again
          (record loop { lanes = lanes; listening = set loop.listening i false; has_new = true })
      else stop (listed (lasts lanes)) lanes

  -- The body of the loop, with the case that the select took.
  unfoldable pub select_case : Event → Loop V → Turn V
  unfolding receive
  select_case done loop = stop interrupted loop.lanes
  select_case default_case loop =
      if loop.has_default
      then (if loop.has_new
          then stop (listed (lasts loop.lanes)) loop.lanes
          else again (record loop { has_default = false }))
      else stop impossible loop.lanes
  select_case (ready i) loop = elim (get_elem? loop.listening i) [
    | some true ↦ elim (get_elem? loop.lanes i) [
      | some (lane vals last) ↦ receive i vals last loop
      | none ↦ stop impossible loop.lanes
    ]
    | _ ↦ stop impossible loop.lanes
  ]

  unfoldable pub select_loop : List Event → Loop V → Answer V × List (Lane V)
  unfolding select_case
  select_loop [] loop = (blocked, loop.lanes)
  select_loop (e ∷ es) loop = elim (select_case e loop) [
    | again after ↦ select_loop es after
    | stop a ls ↦ (a, ls)
  ]

  abbrev pub start_loop : List (Lane V) → Loop V
  start_loop lanes = record {
    lanes = lanes;
    listening = replicate (length lanes) true;
    has_new = false;
    has_default = true;
    exhausted = 0;
  }

  abbrev pub after_fill : List Event → Filled V → Answer V × List (Lane V)
  after_fill es (filled true ls) = (listed (lasts ls), ls)
  after_fill es (filled false ls) = select_loop es (start_loop ls)
  after_fill es (halted a ls) = (a, ls)

  -- `Next`.
  unfoldable pub next : List Bool → List Event → List (Lane V) → Answer V × List (Lane V)
  unfolding fill select_loop
  next cancelled es [] = (ended, [])
  next cancelled es (l ∷ ls) = after_fill es (fill cancelled (l ∷ ls))
