-- ===== src/Lsp/Ranges.antt =====
-- `Range.IsWithin` of pkg/bass/range.go.
use bass.Prelude.{◌<◌, ◌≤◌, ◌≡◌, ◌↔◌, ◌⊎◌, Bool, true, false, ◌&&◌, ltb, ◌==◌, if◌then◌else◌, arith}
use bass.Value.{Position, Range}

unfoldable pub is_within : Range → Range → Bool
is_within inner outer =
    if ltb inner.start.ln outer.start.ln
    then false
    else if ltb outer.end.ln inner.end.ln
    then false
    else if (inner.start.ln == outer.start.ln) && ltb inner.start.col outer.start.col
    then false
    else if (inner.end.ln == outer.end.ln) && ltb outer.end.col inner.end.col
    then false
    else true

-- One position is not after another: by lines, then by columns.
abbrev pub NotAfter : Position → Position → Type 0
NotAfter p q = (p.ln < q.ln) ⊎ ((p.ln ≡ q.ln) × (p.col ≤ q.col))

-- `IsWithin` holds exactly if the inner range starts no earlier and ends no later, where positions
-- are ordered by line and then by column.
pub is_within_iff :
    (inner outer : Range)
    → (is_within inner outer ≡ true)
      ↔ (NotAfter outer.start inner.start × NotAfter inner.end outer.end)
unfolding is_within
is_within_iff inner outer = (λ h. (ground arith, ground arith), λ h. ground arith)

-- A range within a second one that is within a third is within the third.
pub is_within_trans :
    (a b c : Range) → is_within a b ≡ true → is_within b c ≡ true → is_within a c ≡ true
unfolding is_within
is_within_trans a b c h k = ground arith
