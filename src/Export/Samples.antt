-- ===== src/Export/Samples.antt =====
-- Export ranges and cuts at concrete segments.
use videocutlist.Prelude.{
  ◌<◌, ◌≤◌, ◌*◌, all, count, ◌≡◌, ◌↔◌, ◌&&◌, not, any, refl, List, [], ◌∷◌, true, none, some,
}
use videocutlist.Prelude.Int.{ℤ, pos, ltb_ℤ, eqb_ℤ}
use videocutlist.Prelude.Text.{codes, text_eq, is_empty}
use videocutlist.Prelude.Utf8.{rune_count, runes}
use videocutlist.Projects.Segments.{
  Segment, validate_segments, check_ordered, is_outside, is_included, sort_by_start,
  insert_by_start,
}
use videocutlist.Export.Ranges.{range, resolve_ranges, gaps_from, within}
use videocutlist.Export.Coverage.{resolve_ranges-within, resolve_ranges_valid}
use videocutlist.Export.Verify.{
  Stream, validate_streams, match_streams, is_implausible, is_exportable, stream_at, same_identity,
  use_up, shortfall, excess, selected_like, validate_streams_complete,
}
use videocutlist.Export.Strategies.{
  hybrid_boundary, has_interior_keyframe, strategy_of, is_hybrid, hybrid_boundary_iff,
  hybrid_report_iff,
}

abbrev cut : ℤ → ℤ → Segment
cut a b = record {
  id = [];
  start_ms = a;
  end_ms = b;
  label = [];
  included = true;
  included_set = true;
}

abbrev cuts : List Segment
cuts = cut (pos 5000) (pos 8000) ∷ cut (pos 1000) (pos 5000) ∷ []

cuts_valid : validate_segments cuts (pos 10000) ≡ none
unfolding validate_segments check_ordered is_outside sort_by_start insert_by_start rune_count runes
    text_eq is_empty
cuts_valid = refl

cuts_gaps :
    resolve_ranges cuts (codes "gaps") (pos 10000)
    ≡ range (pos 0) (pos 1000) ∷ range (pos 8000) (pos 10000) ∷ []
unfolding resolve_ranges gaps_from range is_included sort_by_start insert_by_start text_eq
cuts_gaps = refl

resolve_ranges-within_example :
    within (pos 500) (resolve_ranges cuts (codes "gaps") (pos 10000)) ≡ true
unfolding text_eq is_included
resolve_ranges-within_example =
    resolve_ranges-within cuts (codes "gaps") (pos 10000) refl cuts_valid (pos 500)

resolve_ranges_valid_example :
    validate_segments (resolve_ranges cuts (codes "gaps") (pos 10000)) (pos 10000) ≡ none
resolve_ranges_valid_example = resolve_ranges_valid cuts (codes "gaps") (pos 10000) refl cuts_valid

abbrev frames : List ℤ
frames = pos 0 ∷ pos 1000 ∷ pos 3000 ∷ pos 6000 ∷ []

hybrid_boundary_iff_example :
    (((b : ℤ) × (hybrid_boundary (cut (pos 500) (pos 5000)) frames ≡ some b)) ↔ (
      (has_interior_keyframe (cut (pos 500) (pos 5000)) frames
        && not (any (eqb_ℤ (pos 500)) frames))
      ≡ true))
    × ((b : ℤ)
        → hybrid_boundary (cut (pos 500) (pos 5000)) frames ≡ some b
        → (ltb_ℤ (pos 500) b && ltb_ℤ b (pos 5000)) ≡ true)
hybrid_boundary_iff_example = hybrid_boundary_iff (cut (pos 500) (pos 5000)) frames refl

-- A range that starts at a key frame is copied, and reported as a hybrid cut.
hybrid_report_iff_example :
    (text_eq
        (strategy_of (codes "hybrid_smart_cut") (cut (pos 1000) (pos 5000)) frames)
        (codes "hybrid_smart_cut")
      && not (is_hybrid (hybrid_boundary (cut (pos 1000) (pos 5000)) frames)))
    ≡ true
unfolding has_interior_keyframe
hybrid_report_iff_example = hybrid_report_iff (cut (pos 1000) (pos 5000)) frames refl

abbrev video : Stream
video = record { index = 0; kind = codes "video"; language = []; channels = 0 }

abbrev audio : Stream
audio = record { index = 1; kind = codes "audio"; language = codes "und"; channels = 2 }

complete_output :
    validate_streams 900 (audio ∷ video ∷ []) (video ∷ audio ∷ []) (0 ∷ 1 ∷ []) 1000 ≡ none
unfolding validate_streams match_streams is_implausible is_exportable stream_at same_identity use_up
    shortfall excess text_eq
complete_output = refl

validate_streams_complete_example :
    (0 < 900)
    × (1000 ≤ 2 * 900)
    × (all is_exportable (audio ∷ video ∷ []) ≡ true)
    × ((x : Stream)
        → selected_like x (video ∷ audio ∷ []) (0 ∷ 1 ∷ [])
          ≤ count (same_identity x) (audio ∷ video ∷ []))
validate_streams_complete_example =
    validate_streams_complete 900 (audio ∷ video ∷ []) (video ∷ audio ∷ []) (0 ∷ 1 ∷ []) 1000
      complete_output
