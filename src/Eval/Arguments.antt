-- ===== src/Eval/Arguments.antt =====
-- The arguments of a builtin: `Builtin.Call` against a description of the calls that a signature admits.
use bass.Prelude.{
  ℕ, ◌+◌, ◌≤◌, ◌≡◌, refl, ◌≢◌, sym, ◌∙◌, ◌⊎◌, true, false, Bool-cases, ltb, ◌==◌, inl, inr, Option,
  none, some, List, [], ◌∷◌, length, Result, ok, err, Option-cases, arith,
}
use bass.Value.{Value, Addr, Builtin}
use bass.Value.Decode.{Dest, to_list, decode}
use bass.Value.Lists.{new_list}
use bass.Value.Laws.{to_slice-new_list}
use bass.Eval.Task.{Err, arity, cannot_decode, bad_arg, bad_variadic_arg, Store, raise}
use bass.Eval.Builtins.{
  Signature, signature, check_arity, decode_rest, decode_args, run_builtin, call_builtin,
}

-- The values that a function gets for the given arguments: one for each parameter, decoded into its
-- type, and one for each argument after them, decoded into the type of the variadic rest.
pub data Fits : List Dest → Option Dest → List Value → List Value → Type 0 where
  all_taken : (rest : Option Dest) → Fits [] rest [] []
  in_rest :
      (d : Dest) (arg v : Value) (args vs : List Value)
      → decode d arg ≡ some v
      → Fits [] (some d) args vs
      → Fits [] (some d) (arg ∷ args) (v ∷ vs)
  for_param :
      (d : Dest) (ds : List Dest) (rest : Option Dest) (arg v : Value) (args vs : List Value)
      → decode d arg ≡ some v
      → Fits ds rest args vs
      → Fits (d ∷ ds) rest (arg ∷ args) (v ∷ vs)

-- Some values fit.
abbrev pub IsCall : List Dest → Option Dest → List Value → Type 0
IsCall ds rest args = (vs : List Value) × Fits ds rest args vs

-- The number of arguments is right.
abbrev Counts : List Dest → Option Dest → List Value → Type 0
Counts ds none args = length args ≡ length ds
Counts ds (some d) args = length ds ≤ length args

decoded_head :
    (d : Dest) (ds : List Dest) (rest : Option Dest) (arg : Value) (args vs : List Value)
    → Fits (d ∷ ds) rest (arg ∷ args) vs
    → (v : Value) × (decode d arg ≡ some v) × IsCall ds rest args
decoded_head d ds rest arg args vs (for_param _ _ _ _ v _ ws e f) = (v, e, (ws, f))

decoded_rest :
    (d : Dest) (arg : Value) (args vs : List Value)
    → Fits [] (some d) (arg ∷ args) vs
    → (v : Value) × (decode d arg ≡ some v) × IsCall [] (some d) args
decoded_rest d arg args vs (in_rest _ _ v _ ws e f) = (v, e, (ws, f))

none_ne_some {ℓ} : {A : Type ℓ} {a : A} → none ≢ some a
none_ne_some h = cc

Counts-tail :
    (d : Dest) (ds : List Dest) (rest : Option Dest) (arg : Value) (args : List Value)
    → Counts (d ∷ ds) rest (arg ∷ args)
    → Counts ds rest args
Counts-tail d ds none arg args c = omega arith
Counts-tail d ds (some r) arg args c = omega arith

Fits-Counts :
    (ds : List Dest) (rest : Option Dest) (args vs : List Value)
    → Fits ds rest args vs
    → Counts ds rest args
Fits-Counts _ none _ _ (all_taken _) = refl
Fits-Counts _ (some d) _ _ (all_taken _) = omega arith
Fits-Counts _ _ _ _ (in_rest _ _ _ _ _ e f) = omega arith
Fits-Counts _ none _ _ (for_param _ ds _ _ _ args vs e f) =
    omega (arith, Fits-Counts ds none args vs f)
Fits-Counts _ (some r) _ _ (for_param _ ds _ _ _ args vs e f) =
    omega (arith, Fits-Counts ds (some r) args vs f)

module _ (b : Builtin) where
  -- The arguments fit and are decoded, or do not fit and are refused.
  abbrev Parsed : List Dest → Option Dest → List Value → Result Err (List Value) → Type 0
  Parsed ds rest args r =
      ((vs : List Value) × Fits ds rest args vs × (r ≡ ok vs))
      ⊎ ((¬ IsCall ds rest args) × (e : Err) × (r ≡ err e))

  rest_outcome :
      (d : Dest) (args : List Value) → Parsed [] (some d) args (decode_rest b (some d) args)
  unfolding decode_rest
  rest_outcome d [] = inl ([], all_taken (some d), refl)
  rest_outcome d (arg ∷ args) = elim (Option-cases (decode d arg)) [
    | inl e ↦ inr (
      λ p. none_ne_some (sym e ∙ (decoded_rest d arg args p.0 p.1).1),
      bad_variadic_arg b (cannot_decode d),
      ground (arith, e),
    )
    | inr (v, e) ↦ elim (rest_outcome d args) [
      | inl (vs, f, r) ↦ inl (v ∷ vs, in_rest d arg v args vs e f, ground (arith, e, r))
      | inr (never, e', r) ↦
          inr (λ p. never (decoded_rest d arg args p.0 p.1).2, e', ground (arith, e, r))
    ]
  ]

  args_outcome :
      (i : ℕ) (ds : List Dest) (rest : Option Dest) (args : List Value)
      → Counts ds rest args
      → Parsed ds rest args (decode_args b i ds rest args)
  unfolding decode_args
  args_outcome i [] none [] c = inl ([], all_taken none, unfold decode_rest in refl)
  args_outcome i [] none (arg ∷ args) c = absurd (omega arith)
  args_outcome i [] (some d) args c = rest_outcome d args
  args_outcome i (d ∷ ds) none [] c = absurd (omega arith)
  args_outcome i (d ∷ ds) (some r) [] c = absurd (omega arith)
  args_outcome i (d ∷ ds) rest (arg ∷ args) c = elim (Option-cases (decode d arg)) [
    | inl e ↦ inr (
      λ p. none_ne_some (sym e ∙ (decoded_head d ds rest arg args p.0 p.1).1),
      bad_arg b i (cannot_decode d),
      ground (arith, e),
    )
    | inr (v, e) ↦ elim (args_outcome (i + 1) ds rest args (Counts-tail d ds rest arg args c)) [
      | inl (vs, f, r) ↦ inl (v ∷ vs, for_param d ds rest arg v args vs e f, ground (arith, e, r))
      | inr (never, e', r) ↦
          inr (λ p. never (decoded_head d ds rest arg args p.0 p.1).2, e', ground (arith, e, r))
    ]
  ]

  checked :
      (sig : Signature) (args : List Value)
      → (Counts sig.params sig.variadic args × (check_arity b sig (length args) ≡ none))
        ⊎ ((¬ Counts sig.params sig.variadic args)
            × (e : Err) × (check_arity b sig (length args) ≡ some e))
  unfolding check_arity
  checked sig args = elim (Option-cases sig.variadic) [
    | inl e ↦
        rw (e, check_arity)
          (elim (Bool-cases (sig.auto_args + length args == sig.auto_args + length sig.params)) [
            | inl t ↦ inl (ground arith, ground (arith, t))
            | inr f ↦ inr (
              ground arith,
              arity (some b) (sig.auto_args + length sig.params) (sig.auto_args + length args)
                  false,
              ground (arith, f),
            )
          ])
    | inr (d, e) ↦
        rw (e, check_arity)
          (elim (Bool-cases
            (ltb (sig.auto_args + length args) (sig.auto_args + length sig.params))) [
              | inl t ↦ inr (
                ground arith,
                arity (some b) (sig.auto_args + length sig.params) (sig.auto_args + length args)
                    true,
                ground (arith, t),
              )
              | inr f ↦ inl (ground arith, ground (arith, f))
            ])
  ]

decode-new_list : (vs : List Value) → decode to_list (new_list vs) ≡ some (new_list vs)
unfolding decode new_list
decode-new_list [] = refl
decode-new_list (v ∷ vs) = refl

-- A builtin that is called with a list either runs on values that fit its signature (one for each of its
-- parameters, decoded into the parameter's type, and then, if it is variadic, one for each further
-- argument, decoded into the type of the rest), or no values fit and the call fails and changes nothing.
pub call_builtin-Fits :
    (b : Builtin) (args : List Value) (s : Addr) (st : Store)
    → ((vs : List Value) × Fits (signature b).params (signature b).variadic args vs
        × (call_builtin b (new_list args) s st ≡ run_builtin b vs s st))
      ⊎ ((¬ IsCall (signature b).params (signature b).variadic args)
          × (e : Err) × (call_builtin b (new_list args) s st ≡ raise e st))
unfolding call_builtin
call_builtin-Fits b args s st = elim (checked b (signature b) args) [
  | inl (c, ok_count) ↦ elim (args_outcome b 0 (signature b).params (signature b).variadic args c) [
    | inl (vs, f, r) ↦
        inl (vs, f, ground (arith, decode-new_list args, (to_slice-new_list args).0, ok_count, r))
    | inr (never, e, r) ↦
        inr
          (never, e, ground (arith, decode-new_list args, (to_slice-new_list args).0, ok_count, r))
  ]
  | inr (never, e, wrong) ↦ inr (
    λ p. never (Fits-Counts (signature b).params (signature b).variadic args p.0 p.1),
    e,
    ground (arith, decode-new_list args, (to_slice-new_list args).0, wrong),
  )
]
