-- ===== src/Projects/Interchange.antt =====
-- internal/projects/interchange/interchange.go: the check of imported and exported segments, and how
-- it compares with the validation of a project item.
use videocutlist.Prelude.{
  ◌≡◌, refl, Bool, true, false, not, ◌&&◌, ◌||◌, none, List, [], ◌∷◌, if◌then◌else◌, ltb, length,
  all, arith,
}
use videocutlist.Prelude.Int.{ℤ, pos, negsuc, ltb_ℤ, leb_ℤ}
use videocutlist.Prelude.Text.{is_empty}
use videocutlist.Prelude.Utf8.{rune_count}
use videocutlist.Projects.Segments.{Segment, is_outside, validate_segments, fits, apart, all_apart}
use videocutlist.Projects.Validation.{validate_segments_iff}

unfoldable pub is_bad_range : ℤ → ℤ → ℤ → Segment → Bool
is_bad_range duration previous_start previous_end s =
    ltb_ℤ s.start_ms (pos 0)
    || leb_ℤ s.end_ms s.start_ms
    || ltb_ℤ (pos 0) duration && ltb_ℤ duration s.end_ms
    || leb_ℤ s.start_ms previous_start
    || ltb_ℤ s.start_ms previous_end
    || ltb 200 (rune_count s.label)

-- The loop of `validate`, with `prevStart` and `prevEnd`.
unfoldable pub check_ranges : ℤ → ℤ → ℤ → List Segment → Bool
unfolding is_bad_range
check_ranges duration previous_start previous_end [] = true
check_ranges duration previous_start previous_end (s ∷ ss) =
    let rest = check_ranges duration s.start_ms s.end_ms ss in
    if is_bad_range duration previous_start previous_end s then false else rest

-- Whether `validate` accepts the segments; it returns them unchanged.
unfoldable pub accepts_interchange : ℤ → List Segment → Bool
unfolding check_ranges
accepts_interchange duration ss =
    if ltb 10000 (length ss) then false else check_ranges duration (negsuc 0) (negsuc 0) ss

abbrev without_ids : List Segment → Bool
without_ids = all (λ s. is_empty s.id)

all_false :
    (p q z r t u v : Bool)
    → z ≡ true
    → (p || q || z && r || t || u || v) ≡ false
    → (p ≡ false) × (q ≡ false) × (r ≡ false) × (u ≡ false) × (v ≡ false)
all_false p q z r t u v y h = ground arith

not_less : (a b : ℤ) → ltb_ℤ a b ≡ false → leb_ℤ b a ≡ true
not_less a b h = ground arith

inside_of_tests :
    (d : ℤ) (s : Segment)
    → ltb_ℤ s.start_ms (pos 0) ≡ false
    → leb_ℤ s.end_ms s.start_ms ≡ false
    → ltb_ℤ d s.end_ms ≡ false
    → is_outside d s ≡ false
unfolding is_outside
inside_of_tests d s p q r = rw (p, q, r) (no_more (leb_ℤ (pos 0) d))
  where
    no_more : (b : Bool) → (b && false) ≡ false
    no_more b = ground arith

-- A range that is accepted and has no id fits, and starts where the one before has ended.
range-fits :
    (d a b : ℤ) (s : Segment)
    → ltb_ℤ (pos 0) d ≡ true
    → is_empty s.id ≡ true
    → is_bad_range d a b s ≡ false
    → (fits d s ≡ true) × (leb_ℤ b s.start_ms ≡ true)
unfolding is_bad_range
range-fits d a b s z i h =
    let (p, q, r, u, v) =
      all_false (ltb_ℤ s.start_ms (pos 0)) (leb_ℤ s.end_ms s.start_ms) (ltb_ℤ (pos 0) d)
        (ltb_ℤ d s.end_ms) (leb_ℤ s.start_ms a) (ltb_ℤ s.start_ms b) (ltb 200 (rune_count s.label))
        z h in
    (rw (inside_of_tests d s p q r, i, v) refl, not_less s.start_ms b u)

starts_after : ℤ → List Segment → Bool
starts_after b = all (λ t. leb_ℤ b t.start_ms)

starts_later :
    (a b : ℤ) (ss : List Segment)
    → leb_ℤ a b ≡ true
    → starts_after b ss ≡ true
    → starts_after a ss ≡ true
unfolding starts_after
starts_later a b [] h k = refl
starts_later a b (s ∷ ss) h k = ground (arith, starts_later a b ss)

apart_from :
    (s : Segment) (ss : List Segment)
    → is_empty s.id ≡ true
    → starts_after s.end_ms ss ≡ true
    → all (apart s) ss ≡ true
unfolding starts_after
apart_from s [] i h = refl
apart_from s (t ∷ ts) i h =
    let (now, later) = and_split (leb_ℤ s.end_ms t.start_ms) _ h in
    rw (now, i, apart_from s ts i later) refl
  where
    and_split : (a b : Bool) → (a && b) ≡ true → (a ≡ true) × (b ≡ true)
    and_split a b h = ground arith

fits-longer : (d : ℤ) (s : Segment) → fits d s ≡ true → leb_ℤ s.start_ms s.end_ms ≡ true
fits-longer d s h = longer s (not_out (is_outside d s) _ _ h)
  where
    not_out : (o r q : Bool) → (not o && r && q) ≡ true → o ≡ false
    not_out o r q h = ground arith

    longer : (s : Segment) → is_outside d s ≡ false → leb_ℤ s.start_ms s.end_ms ≡ true
    longer s h = unfold is_outside in ground (arith, h)

checked :
    (d a b : ℤ) (ss : List Segment)
    → ltb_ℤ (pos 0) d ≡ true
    → without_ids ss ≡ true
    → check_ranges d a b ss ≡ true
    → (all (fits d) ss ≡ true) × (all_apart ss ≡ true) × (starts_after b ss ≡ true)
unfolding check_ranges starts_after
checked d a b [] z i h = (refl, refl, refl)
checked d a b (s ∷ ss) z i h =
    let (i1, i2) = and_split (is_empty s.id) (without_ids ss) i in
    let (good, rest) = passed (is_bad_range d a b s) (check_ranges d s.start_ms s.end_ms ss) h in
    let (f, first) = range-fits d a b s z i1 good in
    let (fs, as_, later) = checked d s.start_ms s.end_ms ss z i2 rest in
    let from_start = starts_later s.start_ms s.end_ms ss (fits-longer d s f) later in
    (
      both f fs,
      both (apart_from s ss i1 later) as_,
      both first (starts_later b s.start_ms ss first from_start),
    )
  where
    and_split : (a b : Bool) → (a && b) ≡ true → (a ≡ true) × (b ≡ true)
    and_split a b h = ground arith

    passed : (b r : Bool) → (if b then false else r) ≡ true → (b ≡ false) × (r ≡ true)
    passed b r h = ground arith

    both : {a b : Bool} → a ≡ true → b ≡ true → (a && b) ≡ true
    both h k = rw (h, k) refl

-- Imported segments, which have no id, that the interchange check accepts for a media duration that is
-- positive are accepted by the validation of a project item with that duration.
pub interchange-valid :
    (d : ℤ) (ss : List Segment)
    → ltb_ℤ (pos 0) d ≡ true
    → all (λ s. is_empty s.id) ss ≡ true
    → accepts_interchange d ss ≡ true
    → validate_segments ss d ≡ none
unfolding accepts_interchange
interchange-valid d ss z i h =
    let (f, a, _) =
      checked d (negsuc 0) (negsuc 0) ss z i (within_count (ltb 10000 (length ss)) _ h) in
    (validate_segments_iff ss d).1 (rw (f, a) refl)
  where
    within_count : (b r : Bool) → (if b then false else r) ≡ true → r ≡ true
    within_count b r h = ground arith
