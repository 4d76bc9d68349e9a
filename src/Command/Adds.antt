-- ===== src/Command/Adds.antt =====
-- The mounts of a command (pkg/runtimes/command.go): what a step adds to them, and steps in sequence.
use mathlib.Core.Path.{subst}
use mathlib.Core.List.{append-nil}
use bass.Prelude.{
  Text, Option, none, some, List, [], ◌∷◌, ◌++◌, ◌≡◌, refl, sym, append_assoc, ap, ◌∙◌, Result, ok,
  err, ◌>>=◌, Bool-cases, inl, inr,
}
use bass.Scope.Each.{contains}
use bass.Thunk.Types.{Failure, Datum, ThunkMountSource}
use bass.Command.Needed.{targets, firsts, targets-append, firsts-append}
use bass.Command.Resolve.{CommandMount, Command, Failed, lifted, as_string, add_mount}

-- A step adds what is needed and was not mounted yet, and records it.
abbrev pub Adds : List CommandMount → Command → Command → Type 0
Adds needed cmd cmd' =
    (cmd'.mounts ≡ cmd.mounts ++ firsts cmd.mounted needed)
    × (cmd'.mounted ≡ cmd.mounted ++ targets (firsts cmd.mounted needed))

pub Adds-none : (cmd : Command) → Adds [] cmd cmd
unfolding firsts
Adds-none cmd = (sym (append-nil cmd.mounts), sym (append-nil cmd.mounted))

pub Adds-trans :
    (xs ys : List CommandMount) (a b c : Command) → Adds xs a b → Adds ys b c → Adds (xs ++ ys) a c
Adds-trans xs ys a b c (h, g) (h', g') =
    let new = firsts a.mounted xs in
    let later = firsts (a.mounted ++ targets new) ys in
    let same : firsts b.mounted ys ≡ later = ap (λ seen. firsts seen ys) g in
    let split_up = firsts-append a.mounted xs ys in
    (
      h'
          ∙ ap (λ ms. ms ++ firsts b.mounted ys) h
          ∙ ap (λ ms. (a.mounts ++ new) ++ ms) same
          ∙ append_assoc a.mounts new later
          ∙ ap (λ ms. a.mounts ++ ms) (sym split_up),
      g'
          ∙ ap (λ ts. ts ++ targets (firsts b.mounted ys)) g
          ∙ ap (λ ms. (a.mounted ++ targets new) ++ targets ms) same
          ∙ append_assoc a.mounted (targets new) (targets later)
          ∙ ap (λ ts. a.mounted ++ ts) (sym (targets-append new later) ∙ ap targets (sym split_up)),
    )

pub Adds-add_mount :
    (source : ThunkMountSource) (target : Text) (cmd : Command)
    → Adds (record { source = source; target = target } ∷ []) cmd (add_mount source target cmd)
unfolding add_mount firsts
Adds-add_mount source target cmd = elim (Bool-cases (contains target cmd.mounted)) [
  | inl e ↦ rw (e, firsts, add_mount) (Adds-none cmd)
  | inr e ↦ rw (e, firsts, add_mount) (refl, refl)
]

-- If a step does not fail, it adds what is needed.
abbrev pub Ends : {A : Type 0} → List CommandMount → Command → Result Failed (A × Command) → Type 0
Ends needed cmd (ok (x, cmd')) = Adds needed cmd cmd'
Ends needed cmd (err e) = Unit

pub after :
    {A : Type 0} (xs ys : List CommandMount) (a b : Command) (r : Result Failed (A × Command))
    → Adds xs a b
    → Ends ys b r
    → Ends (xs ++ ys) a r
after xs ys a b (err e) h g = tt
after xs ys a b (ok (x, c)) h g = Adds-trans xs ys a b c h g

pub Ends-chain :
    {A B : Type 0} (xs ys : List CommandMount) (cmd : Command) (r : Result Failed (A × Command))
    (f : A × Command → Result Failed (B × Command))
    → Ends xs cmd r
    → ((x : A) (cmd' : Command) → Ends ys cmd' (f (x, cmd')))
    → Ends (xs ++ ys) cmd (r >>= f)
Ends-chain xs ys cmd (err e) f h g = tt
Ends-chain xs ys cmd (ok (x, cmd')) f h g = after xs ys cmd cmd' (f (x, cmd')) h (g x cmd')

pub Ends-last :
    {A B : Type 0} (xs : List CommandMount) (cmd : Command) (r : Result Failed (A × Command))
    (f : A × Command → Result Failed (B × Command))
    → Ends xs cmd r
    → ((x : A) (cmd' : Command) → Ends [] cmd' (f (x, cmd')))
    → Ends xs cmd (r >>= f)
Ends-last xs cmd r f h g =
    subst (λ zs. Ends zs cmd (r >>= f)) (append-nil xs) (Ends-chain xs [] cmd r f h g)

-- What may fail before anything is mounted, and needs nothing if it does.
abbrev pub mounts_if : {A : Type 0} → Result Failure A → (A → List CommandMount) → List CommandMount
mounts_if r f = elim r [ ok x ↦ f x | err e ↦ [] ]

pub Ends-lifted :
    {A B : Type 0} (needed : A → List CommandMount) (cmd : Command) (r : Result Failure A)
    (f : A → Result Failed (B × Command))
    → ((x : A) → Ends (needed x) cmd (f x))
    → Ends (mounts_if r needed) cmd (lifted r >>= f)
Ends-lifted needed cmd (err e) f g = tt
Ends-lifted needed cmd (ok x) f g = g x

pub Ends-lifted_none :
    {A B : Type 0} (r : Result Failure A) (f : A → Result Failed (B × Command)) (cmd : Command)
    → ((x : A) → Ends [] cmd (f x))
    → Ends [] cmd (lifted r >>= f)
Ends-lifted_none (err e) f cmd g = tt
Ends-lifted_none (ok x) f cmd g = g x

pub Ends-option :
    {A B : Type 0} (needed : List CommandMount) (cmd : Command) (o : Option A) (e : Failed)
    (f : A → Result Failed (B × Command))
    → ((x : A) → Ends needed cmd (f x))
    → Ends needed cmd (elim o [ none ↦ err e | some x ↦ f x ])
Ends-option needed cmd none e f g = tt
Ends-option needed cmd (some x) e f g = g x

-- What is no place needs nothing.
abbrev pub MayEnd : List CommandMount → Command → Option (Result Failed (Text × Command)) → Type 0
MayEnd needed cmd none = needed ≡ []
MayEnd needed cmd (some r) = Ends needed cmd r

pub Ends-or_else :
    (needed : List CommandMount) (cmd : Command) (o : Option (Result Failed (Text × Command)))
    (r : Result Failed (Text × Command))
    → MayEnd needed cmd o
    → Ends [] cmd r
    → Ends needed cmd (elim o [ none ↦ r | some r' ↦ r' ])
Ends-or_else needed cmd none r h g = subst (λ ms. Ends ms cmd r) (sym h) g
Ends-or_else needed cmd (some r') r h g = h

pub Ends-as_string :
    (needed : List CommandMount) (cmd : Command) (r : Result Failed (Text × Command))
    → Ends needed cmd r
    → Ends needed cmd (as_string r)
Ends-as_string needed cmd (ok (s, cmd')) h = h
Ends-as_string needed cmd (err e) h = tt

pub Ends-string_or :
    (needed : List CommandMount) (cmd : Command) (o : Option (Result Failed (Text × Command)))
    (r : Result Failed (Datum × Command))
    → MayEnd needed cmd o
    → Ends [] cmd r
    → Ends needed cmd (elim o [ none ↦ r | some r' ↦ as_string r' ])
Ends-string_or needed cmd none r h g = subst (λ ms. Ends ms cmd r) (sym h) g
Ends-string_or needed cmd (some r') r h g = Ends-as_string needed cmd r' h

pub Ends-pure :
    {A : Type 0} (r : Result Failed A) (cmd : Command) → Ends [] cmd (r >>= λ x. ok (x, cmd))
Ends-pure (ok x) cmd = Adds-none cmd
Ends-pure (err e) cmd = tt
