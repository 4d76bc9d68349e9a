-- ===== src/Lsp/Analyzer.antt =====
-- `LexicalAnalyzer` of pkg/lsp/analyzer.go: its two lists, `contain`, `Locate` and `Complete`.
use bass.Prelude.{
  Text, text_eq, has_prefix, ◌&&◌, Option, none, some, List, [], ◌∷◌, ◌++◌, if◌then◌else◌,
}
use bass.Value.{Range}
use bass.Lsp.Ranges.{is_within}

pub record ContainedBinding : Type 0 where
  pub binding : Text
  pub location : Range

pub record LexicalBinding : Type 0 where
  pub binding : Text
  pub location : Range
  pub bounds : Range

pub record LexicalAnalyzer : Type 0 where
  pub bindings : List LexicalBinding
  pub contained : List ContainedBinding

-- The loop of `contain`: the bindings that get their bounds, and those that wait on.
unfoldable pub bounded : Range → List ContainedBinding → List LexicalBinding
bounded bounds [] = []
bounded bounds (c ∷ cs) =
    let rest = bounded bounds cs in
    if is_within c.location bounds
    then record { binding = c.binding; location = c.location; bounds = bounds } ∷ rest
    else rest

unfoldable pub still_contained : Range → List ContainedBinding → List ContainedBinding
still_contained bounds [] = []
still_contained bounds (c ∷ cs) =
    let rest = still_contained bounds cs in if is_within c.location bounds then rest else c ∷ rest

unfoldable pub contain : Range → LexicalAnalyzer → LexicalAnalyzer
unfolding bounded still_contained
contain bounds a = record {
  bindings = a.bindings ++ bounded bounds a.contained;
  contained = still_contained bounds a.contained;
}

-- The two loops of `Locate`.
unfoldable pub locate_bound : Text → Range → List LexicalBinding → Option Range
locate_bound k cursor [] = none
locate_bound k cursor (b ∷ bs) =
    let rest = locate_bound k cursor bs in
    if text_eq b.binding k && is_within cursor b.bounds then some b.location else rest

unfoldable pub locate_contained : Text → List ContainedBinding → Option Range
locate_contained k [] = none
locate_contained k (c ∷ cs) =
    let rest = locate_contained k cs in if text_eq c.binding k then some c.location else rest

unfoldable pub locate : Text → Range → LexicalAnalyzer → Option Range
unfolding locate_bound locate_contained
locate k cursor a = elim (locate_bound k cursor a.bindings) [
  | some r ↦ some r
  | none ↦ locate_contained k a.contained
]

-- The two loops of `Complete`.
unfoldable pub complete_bound : Text → Range → List LexicalBinding → List Text
complete_bound prefix cursor [] = []
complete_bound prefix cursor (b ∷ bs) =
    let rest = complete_bound prefix cursor bs in
    if has_prefix b.binding prefix && is_within cursor b.bounds then b.binding ∷ rest else rest

unfoldable pub complete_contained : Text → List ContainedBinding → List Text
complete_contained prefix [] = []
complete_contained prefix (c ∷ cs) =
    let rest = complete_contained prefix cs in
    if has_prefix c.binding prefix then c.binding ∷ rest else rest

unfoldable pub complete : Text → Range → LexicalAnalyzer → List Text
unfolding complete_bound complete_contained
complete prefix cursor a =
    complete_bound prefix cursor a.bindings ++ complete_contained prefix a.contained
