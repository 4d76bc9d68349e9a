-- ===== src/Value/Lists.antt =====
-- pkg/bass/list.go and cons.go: lists as chains of pairs, and the slices that they stand for.
use bass.Prelude.{Bool, true, false, List, [], ◌∷◌, Result, ok, err}
use bass.Value.{Value, empty, pair, cons, annotate, annotated, annotate_binding}

-- `NewList`.
unfoldable pub new_list : List Value → Value
new_list [] = empty
new_list (v ∷ vs) = pair v (new_list vs)

-- `NewConsList`.
unfoldable pub new_cons_list : List Value → Value
new_cons_list [] = empty
new_cons_list (v ∷ vs) = cons v (new_cons_list vs)

abbrev pub prepend : Value → Result Value (List Value) → Result Value (List Value)
prepend v (ok vs) = ok (v ∷ vs)
prepend v (err e) = err e

-- A value decoded into a `List` and given to `ToSlice`: the elements, or the value that is no list.
-- Decoding looks through annotations at every tail.
unfoldable pub to_slice : Value → Result Value (List Value)
to_slice empty = ok []
to_slice (pair a d) = prepend a (to_slice d)
to_slice (cons a d) = prepend a (to_slice d)
to_slice (annotate v r c m) = to_slice v
to_slice (annotated v m) = to_slice v
to_slice (annotate_binding b r m) = to_slice b
to_slice v = err v

-- `IsList`.
unfoldable pub is_list : Value → Bool
is_list empty = true
is_list (pair a d) = is_list d
is_list (cons a d) = is_list d
is_list (annotate v r c m) = is_list v
is_list (annotated v m) = is_list v
is_list (annotate_binding b r m) = is_list b
is_list v = false

-- `ToCons` of what the second argument decodes into; the first stays where that is no list.
unfoldable pub to_cons_or : Value → Value → Value
to_cons_or whole empty = empty
to_cons_or whole (pair a d) = cons a (to_cons_or d d)
to_cons_or whole (cons a d) = cons a (to_cons_or d d)
to_cons_or whole (annotate v r c m) = to_cons_or whole v
to_cons_or whole (annotated v m) = to_cons_or whole v
to_cons_or whole (annotate_binding b r m) = to_cons_or whole b
to_cons_or whole v = whole

unfoldable pub to_cons : Value → Value
unfolding to_cons_or
to_cons v = to_cons_or v v
