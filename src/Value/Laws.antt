-- ===== src/Value/Laws.antt =====
-- Lists and slices: round trips, and `IsList` against `ToSlice`.
use bass.Prelude.{Bool, true, false, ◌≡◌, refl, sym, ap, ◌∙◌, List, [], ◌∷◌, Result, ok, err}
use bass.Value.{Value, empty, pair, cons, annotate, annotated, annotate_binding}
use bass.Value.Lists.{new_list, new_cons_list, prepend, to_slice, is_list, to_cons, to_cons_or}

-- A list or a cons list made of a slice gives the slice back.
pub to_slice-new_list :
    (vs : List Value) → (to_slice (new_list vs) ≡ ok vs) × (to_slice (new_cons_list vs) ≡ ok vs)
unfolding to_slice new_list new_cons_list
to_slice-new_list [] = (refl, refl)
to_slice-new_list (v ∷ vs) =
    let h = to_slice-new_list vs in (ap (prepend v) h.0, ap (prepend v) h.1)

abbrev pub is_ok : Result Value (List Value) → Bool
is_ok (ok vs) = true
is_ok (err e) = false

is_ok-prepend : (v : Value) (r : Result Value (List Value)) → is_ok (prepend v r) ≡ is_ok r
is_ok-prepend v (ok vs) = refl
is_ok-prepend v (err e) = refl

-- `IsList` holds exactly where `ToSlice` succeeds.
pub is_list-eq-is_ok : (v : Value) → is_list v ≡ is_ok (to_slice v)
unfolding is_list to_slice
is_list-eq-is_ok empty = refl
is_list-eq-is_ok (pair a d) = is_list-eq-is_ok d ∙ sym (is_ok-prepend a (to_slice d))
is_list-eq-is_ok (cons a d) = is_list-eq-is_ok d ∙ sym (is_ok-prepend a (to_slice d))
is_list-eq-is_ok (annotate v r c m) = is_list-eq-is_ok v
is_list-eq-is_ok (annotated v m) = is_list-eq-is_ok v
is_list-eq-is_ok (annotate_binding b r m) = is_list-eq-is_ok b
is_list-eq-is_ok _ = refl

to_slice-to_cons_or :
    (whole v : Value) → to_slice whole ≡ to_slice v → to_slice (to_cons_or whole v) ≡ to_slice v
unfolding to_slice to_cons_or
to_slice-to_cons_or whole empty h = refl
to_slice-to_cons_or whole (pair a d) h = ap (prepend a) (to_slice-to_cons_or d d refl)
to_slice-to_cons_or whole (cons a d) h = ap (prepend a) (to_slice-to_cons_or d d refl)
to_slice-to_cons_or whole (annotate v r c m) h = to_slice-to_cons_or whole v h
to_slice-to_cons_or whole (annotated v m) h = to_slice-to_cons_or whole v h
to_slice-to_cons_or whole (annotate_binding b r m) h = to_slice-to_cons_or whole b h
to_slice-to_cons_or whole _ h = h

-- `ToCons` keeps the elements, and the error of a value that is no list.
pub to_slice-to_cons : (v : Value) → to_slice (to_cons v) ≡ to_slice v
unfolding to_cons
to_slice-to_cons v = to_slice-to_cons_or v v refl
