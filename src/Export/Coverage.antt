-- ===== src/Export/Coverage.antt =====
-- What the ranges of `ResolveRanges` (internal/export/export.go) cover.
use videocutlist.Prelude.{
  ◌≡◌, ◌≤◌, ◌<◌, ◌+◌, refl, Bool, true, false, not, ◌&&◌, ◌||◌, none, List, [], ◌∷◌, if◌then◌else◌,
  any, all, select, arith, Bool-cases, inl, inr, ◌∙◌, ap, sym,
}
use videocutlist.Prelude.Int.{ℤ, pos, ltb_ℤ, leb_ℤ}
use videocutlist.Prelude.Text.{Text, codes, text_eq, is_empty}
use videocutlist.Prelude.Utf8.{rune_count}
use videocutlist.Projects.Segments.{
  Segment, is_outside, is_included, sort_by_start, insert_by_start, validate_segments, fits, apart,
  all_apart,
}
use videocutlist.Projects.Validation.{all-fits-inside, validate_segments_iff}
use videocutlist.Projects.Apart.{starts_ordered, sort-starts_ordered, all-sort}
use videocutlist.Export.Ranges.{range, gaps_from, resolve_ranges, within}

insert-within :
    (t : ℤ) (s : Segment) (ss : List Segment)
    → within t (insert_by_start s ss) ≡ (leb_ℤ s.start_ms t && ltb_ℤ t s.end_ms || within t ss)
unfolding insert_by_start
insert-within t s [] = refl
insert-within t s (u ∷ us) = ground (arith, insert-within t s us)

sort-within : (t : ℤ) (ss : List Segment) → within t (sort_by_start ss) ≡ within t ss
unfolding sort_by_start
sort-within t [] = refl
sort-within t (s ∷ ss) = ground (arith, insert-within t s (sort_by_start ss), sort-within t ss)

-- Every range starts at or after a moment.
abbrev from : ℤ → List Segment → Bool
from c = all (λ s. leb_ℤ c s.start_ms)

from_outside :
    (t c : ℤ) (ss : List Segment) → from c ss ≡ true → ltb_ℤ t c ≡ true → within t ss ≡ false
from_outside t c [] h k = refl
from_outside t c (s ∷ ss) h k = ground (arith, from_outside t c ss)

-- Within the duration and with a positive length, as validation makes every segment.
abbrev inside : ℤ → Segment → Bool
inside d s = ltb_ℤ s.start_ms s.end_ms && leb_ℤ s.end_ms d

gaps-from : (c c' d : ℤ) (ss : List Segment) → leb_ℤ c c' ≡ true → from c (gaps_from c' d ss) ≡ true
unfolding gaps_from range
gaps-from c c' d [] h = ground arith
gaps-from c c' d (s ∷ ss) h =
    ground (arith, gaps-from c (if ltb_ℤ c' s.end_ms then s.end_ms else c') d ss)

-- One segment of the loop, by whether a gap comes before it; `w` says whether `t` is in a later one.
with_gap :
    (t c d a e : ℤ) (w : Bool)
    → ltb_ℤ c a ≡ true
    → ltb_ℤ a e ≡ true
    → leb_ℤ e d ≡ true
    → (ltb_ℤ t a ≡ true → w ≡ false)
    → (leb_ℤ c t && ltb_ℤ t a || leb_ℤ e t && ltb_ℤ t d && not w)
      ≡ (leb_ℤ c t && ltb_ℤ t d && not (leb_ℤ a t && ltb_ℤ t e || w))
with_gap t c d a e w g i j f = elim (Bool-cases (ltb_ℤ t a)) [
  | inl before ↦ rw (f before, before) (ground arith)
  | inr after ↦ rw after (ground arith)
]

without_gap :
    (t c d a e : ℤ) (w : Bool)
    → ltb_ℤ c a ≡ false
    → (leb_ℤ (if ltb_ℤ c e then e else c) t && ltb_ℤ t d && not w)
      ≡ (leb_ℤ c t && ltb_ℤ t d && not (leb_ℤ a t && ltb_ℤ t e || w))
without_gap t c d a e w g = elim (Bool-cases (ltb_ℤ c e)) [
  | inl inside ↦ rw inside (ground arith)
  | inr past ↦ rw past (ground arith)
]

reaches_end : (c a e : ℤ) → ltb_ℤ c a ≡ true → ltb_ℤ a e ≡ true → ltb_ℤ c e ≡ true
reaches_end c a e h k = ground arith

cursor_bound :
    (c e d : ℤ) → leb_ℤ c d ≡ true → leb_ℤ e d ≡ true → leb_ℤ (if ltb_ℤ c e then e else c) d ≡ true
cursor_bound c e d h k = ground arith

gaps_from-within :
    (t c d : ℤ) (ss : List Segment)
    → starts_ordered ss ≡ true
    → all (inside d) ss ≡ true
    → leb_ℤ c d ≡ true
    → within t (gaps_from c d ss) ≡ (leb_ℤ c t && ltb_ℤ t d && not (within t ss))
unfolding gaps_from range
gaps_from-within t c d [] o i h = ground arith
gaps_from-within t c d (s ∷ ss) o i h =
    let (first, ordered) = and_split (from s.start_ms ss) (starts_ordered ss) o in
    let (i1, i2) = and_split (inside d s) (all (inside d) ss) i in
    let (long, ends) = and_split (ltb_ℤ s.start_ms s.end_ms) (leb_ℤ s.end_ms d) i1 in
    let c' = if ltb_ℤ c s.end_ms then s.end_ms else c in
    let rest = gaps_from-within t c' d ss ordered i2 (cursor_bound c s.end_ms d h ends) in
    elim (Bool-cases (ltb_ℤ c s.start_ms)) [
      | inl e ↦
          rw (e, rest, reaches_end c s.start_ms s.end_ms e long)
            (with_gap t c d s.start_ms s.end_ms (within t ss) e long ends
              (from_outside t s.start_ms ss first))
      | inr e ↦ rw (e, rest) (without_gap t c d s.start_ms s.end_ms (within t ss) e)
    ]
  where
    and_split : (a b : Bool) → (a && b) ≡ true → (a ≡ true) × (b ≡ true)
    and_split a b h = ground arith

from-apart : (a b : ℤ) (ss : List Segment) → from b ss ≡ true → all (apart (range a b)) ss ≡ true
unfolding range is_empty
from-apart a b [] h = refl
from-apart a b (s ∷ ss) h = ground (arith, from-apart a b ss)

range-fits :
    (a b d : ℤ)
    → leb_ℤ (pos 0) a ≡ true
    → ltb_ℤ a b ≡ true
    → leb_ℤ b d ≡ true
    → fits d (range a b) ≡ true
unfolding range is_outside is_empty rune_count videocutlist.Prelude.Utf8.runes
range-fits a b d h k l = ground arith

gaps_from-fits :
    (c d : ℤ) (ss : List Segment)
    → all (inside d) ss ≡ true
    → leb_ℤ (pos 0) c ≡ true
    → leb_ℤ c d ≡ true
    → (all (fits d) (gaps_from c d ss) && all_apart (gaps_from c d ss)) ≡ true
unfolding gaps_from
gaps_from-fits c d [] i z h = elim (Bool-cases (ltb_ℤ c d)) [
  | inl e ↦ rw (e, range-fits c d d z e (ground arith)) refl
  | inr e ↦ rw e refl
]
gaps_from-fits c d (s ∷ ss) i z h =
    let c' = if ltb_ℤ c s.end_ms then s.end_ms else c in
    let rest = gaps_from-fits c' d ss in
    let far = gaps-from s.start_ms c' d ss in
    elim (Bool-cases (ltb_ℤ c s.start_ms)) [
      | inl e ↦
          rw (e, range-fits c s.start_ms d z e (ground arith))
            (ground (arith, rest, from-apart c s.start_ms (gaps_from c' d ss), far))
      | inr e ↦ rw e (ground (arith, rest))
    ]

select-all :
    (p q : Segment → Bool) (ss : List Segment) → all p ss ≡ true → all p (select q ss) ≡ true
select-all p q [] h = refl
select-all p q (s ∷ ss) h = ground (arith, select-all p q ss)

select-all_apart :
    (q : Segment → Bool) (ss : List Segment) → all_apart ss ≡ true → all_apart (select q ss) ≡ true
select-all_apart q [] h = refl
select-all_apart q (s ∷ ss) h = ground (arith, select-all_apart q ss, select-all (apart s) q ss)

inside_of :
    (d : ℤ) (s : Segment) → leb_ℤ (pos 0) d ≡ true → is_outside d s ≡ false → inside d s ≡ true
unfolding is_outside
inside_of d s z h = ground arith

not_outside :
    (d : ℤ)
    → leb_ℤ (pos 0) d ≡ true
    → (ss : List Segment) → all (λ s. not (is_outside d s)) ss ≡ true
    → all (inside d) ss ≡ true
not_outside d z [] h = refl
not_outside d z (s ∷ ss) h =
    both (is_outside d s) (inside d s) (all (λ u. not (is_outside d u)) ss) (all (inside d) ss)
      (inside_of d s z) (not_outside d z ss) h
  where
    both :
        (o i p q : Bool)
        → (o ≡ false → i ≡ true)
        → (p ≡ true → q ≡ true)
        → (not o && p) ≡ true
        → (i && q) ≡ true
    both o i p q f g h = ground arith

fits-inside :
    (d : ℤ)
    → leb_ℤ (pos 0) d ≡ true
    → (ss : List Segment) → all (fits d) ss ≡ true
    → all (inside d) ss ≡ true
fits-inside d z ss h = not_outside d z ss (all-fits-inside d ss h)

valid_parts :
    (ss : List Segment) (d : ℤ)
    → validate_segments ss d ≡ none
    → (all (fits d) ss ≡ true) × (all_apart ss ≡ true)
valid_parts ss d h = and_split (all (fits d) ss) (all_apart ss) ((validate_segments_iff ss d).0 h)
  where
    and_split : (a b : Bool) → (a && b) ≡ true → (a ≡ true) × (b ≡ true)
    and_split a b h = ground arith

-- For segments that validation accepts within a duration that is not negative: the selection
-- `segments` covers exactly the moments of the included segments, and any other selection exactly the
-- moments from 0 up to the duration that no included segment covers.
pub resolve_ranges-within :
    (ss : List Segment) (selection : Text) (d : ℤ)
    → leb_ℤ (pos 0) d ≡ true
    → validate_segments ss d ≡ none
    → (t : ℤ)
    → within t (resolve_ranges ss selection d) ≡ (
        if text_eq selection (codes "segments")
        then within t (select is_included ss)
        else leb_ℤ (pos 0) t && ltb_ℤ t d && not (within t (select is_included ss)))
unfolding resolve_ranges
resolve_ranges-within ss selection d z v t =
    let included = select is_included ss in
    let sorted = sort_by_start included in
    let ok_all =
      fits-inside d z included (select-all (fits d) is_included ss (valid_parts ss d v).0) in
    elim (Bool-cases (text_eq selection (codes "segments"))) [
      | inl e ↦ rw e refl
      | inr e ↦ rw e (
          gaps_from-within t (pos 0) d sorted (sort-starts_ordered included)
            (all-sort (inside d) included ∙ ok_all) z
          ∙ ap (λ w. leb_ℤ (pos 0) t && ltb_ℤ t d && not w) (sort-within t included))
    ]

-- The ranges that an export freezes, from segments that validation accepts within a duration that is
-- not negative, are again accepted, whatever the selection: none is empty or outside the source, and
-- no two overlap.
pub resolve_ranges_valid :
    (ss : List Segment) (selection : Text) (d : ℤ)
    → leb_ℤ (pos 0) d ≡ true
    → validate_segments ss d ≡ none
    → validate_segments (resolve_ranges ss selection d) d ≡ none
unfolding resolve_ranges
resolve_ranges_valid ss selection d z v =
    let (f, a) = valid_parts ss d v in
    let included = select is_included ss in
    let f' = select-all (fits d) is_included ss f in
    (validate_segments_iff (resolve_ranges ss selection d) d).1
      (elim (Bool-cases (text_eq selection (codes "segments"))) [
        | inl e ↦ rw (e, f', select-all_apart is_included ss a) refl
        | inr e ↦ rw e (
            gaps_from-fits (pos 0) d (sort_by_start included)
              (all-sort (inside d) included ∙ fits-inside d z included f') refl z)
      ])
