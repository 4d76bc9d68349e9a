-- ===== src/Lsp/Examples.antt =====
-- A parameter of a function, seen from inside and from outside.
use bass.Prelude.{Text, text_eq, has_prefix, ◌≡◌, refl, true, [], ◌∷◌}
use bass.Value.{Position, Range}
use bass.Scope.Each.{contains}
use bass.Lsp.Ranges.{is_within}
use bass.Lsp.Analyzer.{LexicalAnalyzer, contain, locate_bound, locate_contained, locate, complete}
use bass.Lsp.Contain.{is_located, complete-eq-locate, locate-contain_inside}

abbrev range : Position → Position → Range
range p q = record { file = 0; start = p; end = q }

abbrev at_line : Position → Range
at_line p = range p p

abbrev function_bounds : Range
function_bounds = range (record { ln = 1; col = 0 }) (record { ln = 3; col = 5 })

abbrev inside : Range
inside = at_line (record { ln = 2; col = 9 })

abbrev outside : Range
outside = at_line (record { ln = 3; col = 6 })

abbrev x_name : Text
x_name = 120 ∷ []

abbrev parsed : LexicalAnalyzer
parsed = record {
  bindings = [];
  contained = record { binding = x_name; location = at_line (record { ln = 1; col = 4 }) } ∷ [];
}

complete-eq-locate_example :
    contains x_name (complete [] inside parsed) ≡ is_located (locate x_name inside parsed)
unfolding has_prefix
complete-eq-locate_example = complete-eq-locate x_name [] inside parsed refl

locate-contain_inside_example :
    is_located (locate x_name inside (contain function_bounds parsed)) ≡ true
unfolding is_within locate locate_bound locate_contained text_eq
locate-contain_inside_example = locate-contain_inside x_name inside function_bounds parsed refl
