-- ===== src/Export/Ranges.antt =====
-- internal/export/export.go: which ranges of the source an export selection stands for, and how each
-- is cut.
use videocutlist.Prelude.{Bool, false, ◌&&◌, List, [], ◌∷◌, if◌then◌else◌, any, select}
use videocutlist.Prelude.Int.{ℤ, pos, ltb_ℤ, leb_ℤ}
use videocutlist.Prelude.Text.{Text, codes, text_eq}
use videocutlist.Projects.Segments.{Segment, is_included, sort_by_start}

-- `model.Segment{StartMS: a, EndMS: b}`
unfoldable pub range : ℤ → ℤ → Segment
range a b = record {
  id = [];
  start_ms = a;
  end_ms = b;
  label = [];
  included = false;
  included_set = false;
}

-- The loop over the ordered segments, and the gap after the last.
unfoldable pub gaps_from : ℤ → ℤ → List Segment → List Segment
unfolding range
gaps_from cursor duration [] = if ltb_ℤ cursor duration then range cursor duration ∷ [] else []
gaps_from cursor duration (s ∷ ss) =
    let rest = gaps_from (if ltb_ℤ cursor s.end_ms then s.end_ms else cursor) duration ss in
    if ltb_ℤ cursor s.start_ms then range cursor s.start_ms ∷ rest else rest

unfoldable pub resolve_ranges : List Segment → Text → ℤ → List Segment
unfolding gaps_from
resolve_ranges segments selection duration =
    let included = select is_included segments in
    if text_eq selection (codes "segments")
    then included
    else gaps_from (pos 0) duration (sort_by_start included)

-- Whether a moment lies in one of the ranges; for what is proved of them.
abbrev pub within : ℤ → List Segment → Bool
within t = any (λ s. leb_ℤ s.start_ms t && ltb_ℤ t s.end_ms)
