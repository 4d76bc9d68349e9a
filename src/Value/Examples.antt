-- ===== src/Value/Examples.antt =====
-- Lists and slices of a few values.
use bass.Prelude.{List, [], ◌∷◌}
use bass.Value.{Value, null, ignore}

abbrev two_values : List Value
two_values = null ∷ ignore ∷ []
