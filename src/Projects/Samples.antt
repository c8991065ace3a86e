-- ===== src/Projects/Samples.antt =====
-- Segments at concrete values.
use videocutlist.Prelude.{◌≡◌, ◌↔◌, ◌&&◌, refl, List, [], ◌∷◌, true, none, some, all, arith}
use videocutlist.Prelude.Int.{ℤ, pos}
use videocutlist.Prelude.Text.{Text, codes, text_eq, is_empty}
use videocutlist.Prelude.Utf8.{rune_count, runes}
use videocutlist.Projects.Segments.{
  Segment, overlaps, validate_segments, check_ordered, is_outside, sort_by_start, insert_by_start,
  fits, all_apart,
}
use videocutlist.Projects.Timestamps.{
  format_timestamp, padded, width, digits_onto, parse_timestamp, parse_parts, trim_space, trim_left,
  trim_right, space_bytes, split_by, parse_seconds_millis, parse_fraction, parse_unsigned,
  parse_digits, seconds_millis, total_millis, checked_mul, checked_add,
}
use videocutlist.Projects.RoundTrip.{parse_timestamp-format_timestamp}
use videocutlist.Projects.Interchange.{
  accepts_interchange, check_ranges, is_bad_range, interchange-valid,
}
use videocutlist.Projects.Validation.{validate_segments_iff}

abbrev named : Text → ℤ → ℤ → Segment
named id a b = record {
  id = id;
  start_ms = a;
  end_ms = b;
  label = codes "cut";
  included = true;
  included_set = true;
}

abbrev two_cuts : List Segment
two_cuts = named (codes "s2") (pos 5000) (pos 8000) ∷ named (codes "s1") (pos 1000) (pos 5000) ∷ []

two_cuts_valid : validate_segments two_cuts (pos 10000) ≡ none
unfolding validate_segments check_ordered is_outside sort_by_start insert_by_start rune_count runes
    text_eq is_empty
two_cuts_valid = refl

overlapping :
    validate_segments (named [] (pos 4999) (pos 6000) ∷ two_cuts) (pos 10000) ≡ some (overlaps 1)
unfolding validate_segments check_ordered is_outside sort_by_start insert_by_start rune_count runes
    text_eq is_empty
overlapping = refl

validate_segments_iff_example :
    (validate_segments two_cuts (pos 10000) ≡ none)
    ↔ ((all (fits (pos 10000)) two_cuts && all_apart two_cuts) ≡ true)
validate_segments_iff_example = validate_segments_iff two_cuts (pos 10000)

written : format_timestamp 3723045 ≡ codes "01:02:03.045"
unfolding format_timestamp padded width digits_onto
written = refl

parse_short : parse_timestamp (codes " 1:02.5") ≡ some 62500
unfolding parse_timestamp parse_parts trim_space trim_left trim_right space_bytes split_by
    parse_seconds_millis parse_fraction parse_unsigned parse_digits seconds_millis total_millis
    checked_mul checked_add is_empty
parse_short = refl

parse_timestamp-format_timestamp_example : parse_timestamp (format_timestamp 3723045) ≡ some 3723045
parse_timestamp-format_timestamp_example = parse_timestamp-format_timestamp 3723045 (omega arith)

abbrev imported : List Segment
imported = named [] (pos 0) (pos 1000) ∷ named [] (pos 1000) (pos 2500) ∷ []

interchange-valid_example : validate_segments imported (pos 3000) ≡ none
unfolding accepts_interchange check_ranges is_bad_range rune_count runes is_empty
interchange-valid_example = interchange-valid (pos 3000) imported refl refl refl
