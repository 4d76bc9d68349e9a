-- ===== src/Lsp/Contain.antt =====
-- `Locate` against `Complete`, and what `contain` changes for each.
use bass.Prelude.{
  Text, text_eq_iff, has_prefix, ◌≡◌, refl, Bool, true, false, ◌||◌, Option, none, some, List, [],
  ◌∷◌, ◌++◌, arith,
}
use bass.Value.{Range}
use bass.Scope.Each.{contains}
use bass.Scope.Visit.{contains-append}
use bass.Lsp.Ranges.{is_within}
use bass.Lsp.Analyzer.{
  ContainedBinding, LexicalBinding, LexicalAnalyzer, bounded, still_contained, contain,
  locate_bound, locate_contained, locate, complete_bound, complete_contained, complete,
}

abbrev pub is_located : Option Range → Bool
is_located none = false
is_located (some r) = true

module _ (k prefix : Text) (cursor : Range) where
  located_bound :
      (bs : List LexicalBinding)
      → has_prefix k prefix ≡ true
      → contains k (complete_bound prefix cursor bs) ≡ is_located (locate_bound k cursor bs)
  unfolding contains complete_bound locate_bound
  located_bound [] h = refl
  located_bound (b ∷ bs) h = ground (arith, located_bound bs h, text_eq_iff b.binding k)

  located_contained :
      (cs : List ContainedBinding)
      → has_prefix k prefix ≡ true
      → contains k (complete_contained prefix cs) ≡ is_located (locate_contained k cs)
  unfolding contains complete_contained locate_contained
  located_contained [] h = refl
  located_contained (c ∷ cs) h = ground (arith, located_contained cs h, text_eq_iff c.binding k)

-- `Complete` offers a symbol for a prefix of it exactly where `Locate` finds the symbol.
pub complete-eq-locate :
    (k prefix : Text) (cursor : Range) (a : LexicalAnalyzer)
    → has_prefix k prefix ≡ true
    → contains k (complete prefix cursor a) ≡ is_located (locate k cursor a)
unfolding complete locate
complete-eq-locate k prefix cursor a h = ground (
  arith,
  contains-append k (complete_bound prefix cursor a.bindings)
      (complete_contained prefix a.contained),
  located_bound k prefix cursor a.bindings h,
  located_contained k prefix cursor a.contained h,
)

locate_bound-append :
    (k : Text) (cursor : Range) (bs bs' : List LexicalBinding)
    → locate_bound k cursor (bs ++ bs')
      ≡ (elim (locate_bound k cursor bs) [ some r ↦ some r | none ↦ locate_bound k cursor bs' ])
unfolding locate_bound
locate_bound-append k cursor [] bs' = refl
locate_bound-append k cursor (b ∷ bs) bs' = ground (arith, locate_bound-append k cursor bs bs')

bounded_inside :
    (k : Text) (cursor bounds : Range) (cs : List ContainedBinding)
    → is_within cursor bounds ≡ true
    → (is_located (locate_bound k cursor (bounded bounds cs))
        || is_located (locate_contained k (still_contained bounds cs)))
      ≡ is_located (locate_contained k cs)
unfolding bounded still_contained locate_bound locate_contained
bounded_inside k cursor bounds [] h = refl
bounded_inside k cursor bounds (c ∷ cs) h = ground (arith, bounded_inside k cursor bounds cs h)

bounded_outside :
    (k : Text) (cursor bounds : Range) (cs : List ContainedBinding)
    → is_within cursor bounds ≡ false
    → locate_bound k cursor (bounded bounds cs) ≡ none
unfolding bounded locate_bound
bounded_outside k cursor bounds [] h = refl
bounded_outside k cursor bounds (c ∷ cs) h = ground (arith, bounded_outside k cursor bounds cs h)

-- Giving the contained bindings their bounds changes nothing, for a cursor within the bounds, in
-- which symbols `Locate` finds.
pub locate-contain_inside :
    (k : Text) (cursor bounds : Range) (a : LexicalAnalyzer)
    → is_within cursor bounds ≡ true
    → is_located (locate k cursor (contain bounds a)) ≡ is_located (locate k cursor a)
unfolding locate contain
locate-contain_inside k cursor bounds a h = ground (
  arith,
  locate_bound-append k cursor a.bindings (bounded bounds a.contained),
  bounded_inside k cursor bounds a.contained h,
)

-- For a cursor outside the bounds, `Locate` finds from then on only what it found in the bindings
-- before, or else in those contained bindings that are not within the bounds.
pub locate-contain_outside :
    (k : Text) (cursor bounds : Range) (a : LexicalAnalyzer)
    → is_within cursor bounds ≡ false
    → locate k cursor (contain bounds a)
      ≡ locate k cursor (record a { contained = still_contained bounds a.contained })
unfolding locate contain
locate-contain_outside k cursor bounds a h = ground (
  arith,
  locate_bound-append k cursor a.bindings (bounded bounds a.contained),
  bounded_outside k cursor bounds a.contained h,
)
