-- ===== src/Projects/Validation.antt =====
-- What `validateSegments` (internal/projects/model/projects.go) accepts.
use videocutlist.Prelude.{
  ℕ, zero, suc, ◌≡◌, refl, Bool, true, false, not, ◌&&◌, ◌||◌, Option, none, some, List, [], ◌∷◌,
  if◌then◌else◌, all, arith, ◌↔◌, ◌∙◌, sym, ap, ltb,
}
use videocutlist.Prelude.Int.{ℤ, pos, ltb_ℤ, leb_ℤ}
use videocutlist.Prelude.Text.{Text, text_eq_comm, is_empty}
use videocutlist.Prelude.Utf8.{rune_count}
use videocutlist.Projects.Segments.{
  Segment, is_outside, sort_by_start, check_ordered, validate_segments, fits, apart, all_apart,
  has_id, SegmentError,
}
use videocutlist.Projects.Apart.{
  starts_ordered, all-sort, all_trans, sort-starts_ordered, text_eq-is_empty, sort-all_apart,
  new_id, after_all, accepts, other_id, apart_rest,
}

pub all-fits-inside :
    (d : ℤ) (ss : List Segment) → all (fits d) ss ≡ true → all (λ t. not (is_outside d t)) ss ≡ true
all-fits-inside d [] h = refl
all-fits-inside d (s ∷ ss) h =
    split (is_outside d s) _ _ (all (fits d) ss) (all (λ t. not (is_outside d t)) ss)
      (all-fits-inside d ss) h
  where
    split :
        (o a b f r : Bool)
        → (f ≡ true → r ≡ true)
        → ((not o && a && b) && f) ≡ true
        → (not o && r) ≡ true
    split o a b f r g h = ground arith

new_ids_after :
    (s : Segment) (seen : List Text) (ss : List Segment)
    → all (new_id (if is_empty s.id then seen else s.id ∷ seen)) ss
      ≡ (all (new_id seen) ss && all (other_id s) ss)
new_ids_after s seen [] = refl
new_ids_after s seen (t ∷ ts) =
    ground (arith, new_ids_after s seen ts, text_eq_comm s.id t.id, text_eq-is_empty s.id t.id)

accepts_step :
    (b1 b2 b3 b4 b5 : Bool) (e1 e2 e3 e4 e5 : SegmentError) (rest : Option SegmentError)
    → accepts (
        if b1
        then some e1
        else if b2
        then some e2
        else if b3
        then some e3
        else if b4
        then some e4
        else if b5
        then some e5
        else rest)
      ≡ (not b1 && not b2 && not b3 && not b4 && not b5 && accepts rest)
accepts_step b1 b2 b3 b4 b5 e1 e2 e3 e4 e5 rest = ground arith

combine :
    (o e l h v p b a ae ap n oi aa apt : Bool)
    → (o ≡ false → not v ≡ p)
    → (p ≡ true → ae ≡ true → ap ≡ true)
    → (a ≡ true → apt ≡ (ae && oi))
    → (not o
        && not (not e && l)
        && not (not e && h)
        && not v
        && not b
        && (a && ae && (n && oi) && aa))
      ≡ ((not o && (e || not l) && not b) && a && (p && ap) && ((e || not h) && n) && (apt && aa))
combine o e l h v p b a ae ap n oi aa apt x y z = ground arith

-- Before any segment the loop compares with nothing; a start is then not before 0.
not_before :
    (d : ℤ) (i : ℕ) (previous : ℤ) (s : Segment)
    → (i ≡ 0 → previous ≡ pos 0)
    → is_outside d s ≡ false
    → not (ltb 0 i && ltb_ℤ s.start_ms previous) ≡ leb_ℤ previous s.start_ms
unfolding is_outside
not_before d zero previous s z o = ground (arith, z refl)
not_before d (suc i) previous s z o = ground arith

check-accepts :
    (d : ℤ) (i : ℕ) (seen : List Text) (previous : ℤ) (ss : List Segment)
    → (i ≡ 0 → previous ≡ pos 0)
    → starts_ordered ss ≡ true
    → accepts (check_ordered d i seen previous ss)
      ≡ (all (fits d) ss && after_all previous ss && all (new_id seen) ss && all_apart ss)
unfolding check_ordered
check-accepts d i seen previous [] z o = refl
check-accepts d i seen previous (s ∷ ss) z o =
    let seen' = if is_empty s.id then seen else s.id ∷ seen in
    let (later, ordered) =
      and_split (all (λ t. leb_ℤ s.start_ms t.start_ms) ss) (starts_ordered ss) o in
    accepts_step (is_outside d s) (not (is_empty s.id) && ltb 128 (rune_count s.id))
      (not (is_empty s.id) && has_id s.id seen) (ltb 0 i && ltb_ℤ s.start_ms previous)
      (ltb 200 (rune_count s.label)) _ _ _ _ _ (check_ordered d (suc i) seen' s.end_ms ss)
    ∙ ap
        (λ r.
          not (is_outside d s)
          && not (not (is_empty s.id) && ltb 128 (rune_count s.id))
          && not (not (is_empty s.id) && has_id s.id seen)
          && not (ltb 0 i && ltb_ℤ s.start_ms previous)
          && not (ltb 200 (rune_count s.label))
          && r)
        (check-accepts d (suc i) seen' s.end_ms ss (λ e. absurd (omega (arith, e))) ordered
          ∙ ap (λ n. all (fits d) ss && after_all s.end_ms ss && n && all_apart ss)
              (new_ids_after s seen ss))
    ∙ combine (is_outside d s) (is_empty s.id) (ltb 128 (rune_count s.id)) (has_id s.id seen)
        (ltb 0 i && ltb_ℤ s.start_ms previous) (leb_ℤ previous s.start_ms)
        (ltb 200 (rune_count s.label)) (all (fits d) ss) (after_all s.end_ms ss)
        (after_all previous ss) (all (new_id seen) ss) (all (other_id s) ss) (all_apart ss)
        (all (apart s) ss) (not_before d i previous s z)
        (λ p _. all_trans previous s.start_ms ss p later)
        (λ a. apart_rest d s ss later (all-fits-inside d ss a))
  where
    and_split : (a b : Bool) → (a && b) ≡ true → (a ≡ true) × (b ≡ true)
    and_split a b h = ground arith

new_first : (ss : List Segment) → all (new_id []) ss ≡ true
new_first [] = refl
new_first (s ∷ ss) = ground (arith, new_first ss)

after_zero :
    (d : ℤ) (ss : List Segment)
    → all (λ t. not (is_outside d t)) ss ≡ true
    → after_all (pos 0) ss ≡ true
unfolding is_outside
after_zero d [] h = refl
after_zero d (s ∷ ss) h = ground (arith, after_zero d ss)

validate_accepts :
    (ss : List Segment) (d : ℤ)
    → accepts (validate_segments ss d) ≡ (all (fits d) ss && all_apart ss)
unfolding validate_segments
validate_accepts ss d =
    let sorted = sort_by_start ss in
    check-accepts d 0 [] (pos 0) sorted (λ _. refl) (sort-starts_ordered ss)
    ∙ ap (λ n. all (fits d) sorted && after_all (pos 0) sorted && n && all_apart sorted)
        (new_first sorted)
    ∙ tidy (all (fits d) sorted) (after_all (pos 0) sorted) (all_apart sorted)
        (λ h. after_zero d sorted (all-fits-inside d sorted h))
    ∙ rw (all-sort (fits d) ss, sort-all_apart ss) refl
  where
    tidy : (f z a : Bool) → (f ≡ true → z ≡ true) → (f && z && true && a) ≡ (f && a)
    tidy f z a h = ground arith

-- The validation accepts segments, in whatever order they stand, exactly if each of them fits (its
-- start is not negative and before its end, its end within the duration unless that is negative, its
-- id and label within 128 and 200 characters) and any two of them do not overlap and do not share an
-- id that is not empty.
pub validate_segments_iff :
    (ss : List Segment) (d : ℤ)
    → (validate_segments ss d ≡ none) ↔ ((all (fits d) ss && all_apart ss) ≡ true)
validate_segments_iff ss d = (
  λ h. sym (validate_accepts ss d) ∙ ap accepts h,
  λ h. accepted (validate_segments ss d) (validate_accepts ss d ∙ h),
)
  where
    accepted : (r : Option SegmentError) → accepts r ≡ true → r ≡ none
    accepted none h = refl
    accepted (some e) h = cc
