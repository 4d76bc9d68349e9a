-- ===== src/Thunk/Sharing.antt =====
-- What the slices of a thunk read after an operation on it, and what those of the thunk that it was
-- made from read (pkg/bass/thunk.go).
use bass.Prelude.{
  Bool, ℕ, suc, ◌+◌, ◌≤◌, ◌<◌, ltb, leb, List, [], ◌∷◌, ◌++◌, ◌≡◌, refl, ap, sym, ◌∙◌, length,
  replicate, arith, Bool-cases, inl, inr, if◌then◌else◌, true, false, leb→le, lt→ltb, ltb→lt, zero,
}
use bass.Thunk.Slices.{
  keep_command, append_into, with_args, array_at-set, array_at-end, array_at-append, take-write,
  take-write_end, take_all, length-take, write, take, Slice, array_at, read, IsSlice, append,
}

command_kept :
    {A : Type 0} (n : ℕ) (old xs : List A)
    → 0 < n
    → n ≤ length old
    → take 1 old ++ xs ≡ keep_command (take n old) xs
command_kept zero old xs h g = absurd (omega (arith, h))
command_kept (suc n) [] xs h g = absurd (omega (arith, g))
command_kept (suc n) (a ∷ old) xs h g = refl

no_command :
    {A : Type 0} (n : ℕ) (old xs : List A) → ltb 0 n ≡ false → keep_command (take n old) xs ≡ xs
no_command zero old xs h = refl
no_command (suc n) old xs h = absurd (ground (arith, h))

module _ {A : Type 0} (blank : A) (spare : ℕ → ℕ → ℕ) where
  read-append_into :
      (room : Bool) (s : Slice) (xs : List A) (st : List (List A))
      → leb (s.len + length xs) (length (array_at st s.array)) ≡ room
      → IsSlice st s
      → let (after, result) = append_into blank spare room s xs st in
        read after result ≡ read st s ++ xs
  unfolding append_into
  read-append_into true s xs st e h =
      rw (array_at-set st s.array (write s.len xs (array_at st s.array)) h.0)
        (take-write_end s.len xs (array_at st s.array) (leb→le _ _ e))
  read-append_into false s xs st e h =
      let old = array_at st s.array in
      let rest = replicate (spare (length old) (s.len + length xs)) blank in
      rw (array_at-end st (take s.len old ++ xs ++ rest)) (take_all s.len old xs rest h.1)

  -- After an `append` its result reads what the slice read, and then the new elements.
  pub read-append :
      (s : Slice) (xs : List A) (st : List (List A))
      → IsSlice st s
      → let (after, result) = append blank spare s xs st in read after result ≡ read st s ++ xs
  unfolding append
  read-append s xs st h = read-append_into _ s xs st refl h

  -- What the slice that is appended to reads itself afterwards, and any other slice that starts with
  -- `kept` of its elements: the same elements, unless they are behind the slice's end in its array.
  read_old :
      (room : Bool) (s : Slice) (n : ℕ) (xs : List A) (st : List (List A))
      → IsSlice st (record s { len = n })
      → let (after, result) = append_into blank spare room s xs st in
        read after (record s { len = n }) ≡ (
          if room
          then write s.len xs (read st (record s { len = n }))
          else read st (record s { len = n }))
  unfolding append_into
  read_old true s n xs st h =
      rw (array_at-set st s.array (write s.len xs (array_at st s.array)) h.0)
        (take-write n s.len xs (array_at st s.array))
  read_old false s n xs st h = ap (take n) (array_at-append st _ s.array h.0)

  with_args_into :
      (s given : Slice) (st : List (List A))
      → 0 < s.len
      → with_args blank spare s given st
        ≡ append_into blank spare
            (leb (1 + length (read st given)) (length (array_at st s.array)))
            (record s { len = 1 })
            (read st given)
            st
  unfolding with_args append
  with_args_into s given st p = rw (lt→ltb 0 s.len p) refl

  -- `WithArgs` puts the given arguments behind the command, or takes them all if there is none.
  pub read-with_args :
      (s given : Slice) (st : List (List A))
      → IsSlice st s
      → IsSlice st given
      → let (after, result) = with_args blank spare s given st in
        read after result ≡ keep_command (read st s) (read st given)
  unfolding with_args
  read-with_args s given st h g = elim (Bool-cases (ltb 0 s.len)) [
    | inl e ↦ rw (with_args_into s given st (ltb→lt 0 s.len e)) (
        read-append_into _ (record s { len = 1 }) (read st given) st refl
          (h.0, omega (arith, h.1, ltb→lt 0 s.len e))
        ∙ command_kept s.len (array_at st s.array) (read st given) (ltb→lt 0 s.len e) h.1)
    | inr e ↦ rw e (sym (no_command s.len (array_at st s.array) (read st given) e))
  ]

  -- After `WithArgs` on a thunk that has arguments, the thunk itself reads, where the array of its
  -- arguments has room for the command and the given arguments, the given ones in place of its own from
  -- the second one on, as far as its own go; where the array has no room, it reads what it read before.
  pub read-with_args_receiver :
      (s given : Slice) (st : List (List A))
      → IsSlice st s
      → IsSlice st given
      → 0 < s.len
      → let (after, result) = with_args blank spare s given st in
        read after s ≡ (
          if leb (1 + given.len) (length (array_at st s.array))
          then write 1 (read st given) (read st s)
          else read st s)
  unfolding with_args append
  read-with_args_receiver s given st h g p =
      rw (with_args_into s given st p, length-take given.len (array_at st given.array) g.1)
        (read_old _ (record s { len = 1 }) s.len (read st given) st h)
