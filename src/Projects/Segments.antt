-- ===== src/Projects/Segments.antt =====
-- internal/projects/model/projects.go: the segments of a project item and their validation.
use videocutlist.Prelude.{
  ℕ, suc, Bool, true, not, ◌&&◌, ◌||◌, Option, none, some, List, [], ◌∷◌, ltb, if◌then◌else◌, any,
  all,
}
use videocutlist.Prelude.Int.{ℤ, pos, ltb_ℤ, leb_ℤ}
use videocutlist.Prelude.Text.{Text, text_eq, is_empty}
use videocutlist.Prelude.Utf8.{rune_count}

pub record Segment : Type 0 where
  pub id : Text
  pub start_ms : ℤ
  pub end_ms : ℤ
  pub label : Text
  pub included : Bool
  pub included_set : Bool

unfoldable pub is_included : Segment → Bool
is_included s = not s.included_set || s.included

-- `slices.SortStableFunc` by `StartMS`.
unfoldable pub insert_by_start : Segment → List Segment → List Segment
insert_by_start s [] = s ∷ []
insert_by_start s (t ∷ ts) =
    if leb_ℤ s.start_ms t.start_ms then s ∷ t ∷ ts else t ∷ insert_by_start s ts

unfoldable pub sort_by_start : List Segment → List Segment
unfolding insert_by_start
sort_by_start [] = []
sort_by_start (s ∷ ss) = insert_by_start s (sort_by_start ss)

-- The errors, each with the position of the segment in the order of starts.
pub data SegmentError : Type 0 where
  outside_duration id_too_long duplicate_id overlaps label_too_long : ℕ → SegmentError

abbrev pub has_id : Text → List Text → Bool
has_id id seen = any (text_eq id) seen

unfoldable pub is_outside : ℤ → Segment → Bool
is_outside duration s =
    ltb_ℤ s.start_ms (pos 0)
    || leb_ℤ s.end_ms s.start_ms
    || leb_ℤ (pos 0) duration && ltb_ℤ duration s.end_ms

-- The loop of `validateSegments`, with its index, `seenIDs` and `previousEnd`.
unfoldable pub check_ordered : ℤ → ℕ → List Text → ℤ → List Segment → Option SegmentError
unfolding is_outside
check_ordered duration i seen previous [] = none
check_ordered duration i seen previous (s ∷ ss) =
    let rest =
      check_ordered duration (suc i) (if is_empty s.id then seen else s.id ∷ seen) s.end_ms ss in
    if is_outside duration s
    then some (outside_duration i)
    else if not (is_empty s.id) && ltb 128 (rune_count s.id)
    then some (id_too_long i)
    else if not (is_empty s.id) && has_id s.id seen
    then some (duplicate_id i)
    else if ltb 0 i && ltb_ℤ s.start_ms previous
    then some (overlaps i)
    else if ltb 200 (rune_count s.label)
    then some (label_too_long i)
    else rest

-- A negative duration skips the bound by the duration.
unfoldable pub validate_segments : List Segment → ℤ → Option SegmentError
unfolding sort_by_start check_ordered
validate_segments ss duration = check_ordered duration 0 [] (pos 0) (sort_by_start ss)

-- What a valid segment is, and when two of them are compatible; for what is proved of the validation.
abbrev pub fits : ℤ → Segment → Bool
fits duration s =
    not (is_outside duration s)
    && (is_empty s.id || not (ltb 128 (rune_count s.id)))
    && not (ltb 200 (rune_count s.label))

abbrev pub apart : Segment → Segment → Bool
apart s t =
    (leb_ℤ s.end_ms t.start_ms || leb_ℤ t.end_ms s.start_ms)
    && (is_empty s.id || not (text_eq s.id t.id))

abbrev pub all_apart : List Segment → Bool
all_apart [] = true
all_apart (s ∷ ss) = all (apart s) ss && all_apart ss
