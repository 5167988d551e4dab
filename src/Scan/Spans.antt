-- ===== src/Scan/Spans.antt =====
-- The loop over spans in `ScanDeposits` of go/rail/status.go.
use mathlib.Core.Option
use juice_rail.Base.{
  ℕ, zero, suc, ◌+◌, ◌≤◌, ◌<◌, ◌%◌, ◌≡◌, refl, ◌⊎◌, inl, inr, true, false, Option, some, List, [],
  ◌∷◌, arith, ltb,
}
use juice_rail.Scan.{max_scan_span, span_end, spans}
use juice_rail.Sql.Word.{word}

-- The spans start at `from` and reach `to`: each starts where the one before it ended, and none is
-- empty, longer than `maxScanSpan` blocks, or past `to`.
abbrev pub Covers : ℕ → ℕ → List (ℕ × ℕ) → Type 0
Covers from to [] = to < from
Covers from to ((first, last) ∷ later) =
    (first ≡ from)
    × (first ≤ last)
    × (last ≤ to)
    × (last < first + max_scan_span)
    × Covers (last + 1) to later

-- The end of a span, where the addition does not go round.
span_end-bounds :
    (from to : ℕ)
    → from ≤ to
    → to + max_scan_span ≤ word
    → (from ≤ span_end from to)
      × (span_end from to ≤ to)
      × (span_end from to < from + max_scan_span)
unfolding span_end
span_end-bounds from to h small = ground arith

ltb_cases : (a b : ℕ) → (a < b) ⊎ (b ≤ a)
ltb_cases a b = ground arith

one_more :
    (fuel from to : ℕ) (o : Option (List (ℕ × ℕ)))
    → spans fuel (span_end from to + 1) to ≡ o
    → from ≤ to
    → to + max_scan_span ≤ word
    → spans (suc fuel) from to ≡ Option.map (λ l. (from, span_end from to) ∷ l) o
unfolding spans
one_more fuel from to o e h small =
    let (low, high, short) = span_end-bounds from to h small in
    let next : (span_end from to + 1) % word ≡ span_end from to + 1 = omega arith in
    let goes_on : ltb to from ≡ false = ground arith in rw (goes_on, next, e) refl

at_end : (fuel from to : ℕ) → to < from → spans (suc fuel) from to ≡ some []
unfolding spans
at_end fuel from to h = let done : ltb to from ≡ true = ground arith in rw done refl

-- For a head below 2 ^ 64 - 10_000, whatever block the scan starts from, the loop over spans ends
-- within one round for each block and one more, and its spans are consecutive, cover all blocks from the
-- start to the head and no other, and hold at most `maxScanSpan` blocks each.
pub spans_cover :
    (fuel from to : ℕ)
    → to + max_scan_span ≤ word
    → to + 1 ≤ fuel + from
    → (l : List (ℕ × ℕ)) × (spans (suc fuel) from to ≡ some l) × Covers from to l
spans_cover zero from to small enough = ([], at_end 0 from to (omega arith), omega arith)
spans_cover (suc fuel) from to small enough = elim (ltb_cases to from) [
  | inl past ↦ ([], at_end (suc fuel) from to past, past)
  | inr h ↦
      let (low, high, short) = span_end-bounds from to h small in
      let (later, e, c) = spans_cover fuel (span_end from to + 1) to small (omega arith) in
      (
        (from, span_end from to) ∷ later,
        one_more (suc fuel) from to (some later) e h small,
        (refl, low, high, short, c),
      )
]
