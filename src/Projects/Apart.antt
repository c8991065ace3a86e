-- ===== src/Projects/Apart.antt =====
-- Segments in the order of their starts (internal/projects/model/projects.go), and when they are apart.
use videocutlist.Prelude.{
  ◌≡◌, refl, Bool, true, false, not, ◌&&◌, ◌||◌, Option, none, some, List, [], ◌∷◌, all, arith, ap,
}
use videocutlist.Prelude.Int.{ℤ, leb_ℤ}
use videocutlist.Prelude.Text.{Text, text_eq, text_eq_comm, is_empty}
use videocutlist.Projects.Segments.{
  Segment, is_outside, insert_by_start, sort_by_start, apart, all_apart, has_id, SegmentError,
}

-- Ordered by start.
abbrev pub starts_ordered : List Segment → Bool
starts_ordered [] = true
starts_ordered (s ∷ ss) = all (λ t. leb_ℤ s.start_ms t.start_ms) ss && starts_ordered ss

pub all-insert :
    (p : Segment → Bool) (s : Segment) (ss : List Segment)
    → all p (insert_by_start s ss) ≡ (p s && all p ss)
unfolding insert_by_start
all-insert p s [] = refl
all-insert p s (t ∷ ts) = ground (arith, all-insert p s ts)

pub all-sort : (p : Segment → Bool) (ss : List Segment) → all p (sort_by_start ss) ≡ all p ss
unfolding sort_by_start
all-sort p [] = refl
all-sort p (s ∷ ss) = ground (arith, all-insert p s (sort_by_start ss), all-sort p ss)

pub all_trans :
    (a b : ℤ) (ss : List Segment)
    → leb_ℤ a b ≡ true
    → all (λ t. leb_ℤ b t.start_ms) ss ≡ true
    → all (λ t. leb_ℤ a t.start_ms) ss ≡ true
all_trans a b [] h k = refl
all_trans a b (s ∷ ss) h k = ground (arith, all_trans a b ss h)

insert-starts_ordered :
    (s : Segment) (ss : List Segment)
    → starts_ordered ss ≡ true
    → starts_ordered (insert_by_start s ss) ≡ true
unfolding insert_by_start
insert-starts_ordered s [] h = refl
insert-starts_ordered s (t ∷ ts) h = ground (
  arith,
  insert-starts_ordered s ts,
  all-insert (λ (u : Segment). leb_ℤ t.start_ms u.start_ms) s ts,
  all_trans s.start_ms t.start_ms ts,
)

pub sort-starts_ordered : (ss : List Segment) → starts_ordered (sort_by_start ss) ≡ true
unfolding sort_by_start
sort-starts_ordered [] = refl
sort-starts_ordered (s ∷ ss) = insert-starts_ordered s (sort_by_start ss) (sort-starts_ordered ss)

pub text_eq-is_empty : (s t : Text) → text_eq s t ≡ true → is_empty s ≡ is_empty t
unfolding text_eq is_empty
text_eq-is_empty [] [] h = refl
text_eq-is_empty (a ∷ s) (b ∷ t) h = refl
text_eq-is_empty [] (b ∷ t) h = cc
text_eq-is_empty (a ∷ s) [] h = cc

apart_comm : (s t : Segment) → apart s t ≡ apart t s
apart_comm s t = ground (arith, text_eq_comm s.id t.id, text_eq-is_empty s.id t.id)

all_both :
    (p q : Segment → Bool) (ss : List Segment) → all (λ s. p s && q s) ss ≡ (all p ss && all q ss)
all_both p q [] = refl
all_both p q (s ∷ ss) = ground (arith, all_both p q ss)

insert-all_apart :
    (s : Segment) (ss : List Segment)
    → all_apart (insert_by_start s ss) ≡ (all (apart s) ss && all_apart ss)
unfolding insert_by_start
insert-all_apart s [] = refl
insert-all_apart s (t ∷ ts) =
    ground (arith, insert-all_apart s ts, all-insert (apart t) s ts, apart_comm s t)

pub sort-all_apart : (ss : List Segment) → all_apart (sort_by_start ss) ≡ all_apart ss
unfolding sort_by_start
sort-all_apart [] = refl
sort-all_apart (s ∷ ss) =
    ground (arith, insert-all_apart s (sort_by_start ss), all-sort (apart s) ss, sort-all_apart ss)

-- What the loop asks of the segments before it, by their ids and the end of the last of them.
abbrev pub new_id : List Text → Segment → Bool
new_id seen s = is_empty s.id || not (has_id s.id seen)

abbrev pub after_all : ℤ → List Segment → Bool
after_all previous = all (λ s. leb_ℤ previous s.start_ms)

abbrev pub accepts : Option SegmentError → Bool
accepts none = true
accepts (some _) = false

abbrev pub other_id : Segment → Segment → Bool
other_id s t = is_empty s.id || not (text_eq s.id t.id)

-- A segment with a positive length that starts no earlier is apart exactly if it starts after the end.
apart_later :
    (d : ℤ) (s t : Segment)
    → leb_ℤ s.start_ms t.start_ms ≡ true
    → is_outside d t ≡ false
    → apart s t ≡ (leb_ℤ s.end_ms t.start_ms && other_id s t)
unfolding is_outside
apart_later d s t o f =
    let later : leb_ℤ s.end_ms t.start_ms ≡ false → leb_ℤ t.end_ms s.start_ms ≡ false =
      λ h. ground arith in
    ap (λ b. b && other_id s t)
      (or_of (leb_ℤ s.end_ms t.start_ms) (leb_ℤ t.end_ms s.start_ms) later)
  where
    or_of : (a b : Bool) → (a ≡ false → b ≡ false) → (a || b) ≡ a
    or_of true b h = refl
    or_of false b h = h refl

pub apart_rest :
    (d : ℤ) (s : Segment) (ss : List Segment)
    → all (λ t. leb_ℤ s.start_ms t.start_ms) ss ≡ true
    → all (λ t. not (is_outside d t)) ss ≡ true
    → all (apart s) ss ≡ (after_all s.end_ms ss && all (other_id s) ss)
apart_rest d s [] o a = refl
apart_rest d s (t ∷ ts) o a =
    let (o1, o2) = and_true (leb_ℤ s.start_ms t.start_ms) _ o in
    let (a1, a2) = and_true (not (is_outside d t)) _ a in
    rw (apart_later d s t o1 (not_true _ a1), apart_rest d s ts o2 a2)
      (shuffle (leb_ℤ s.end_ms t.start_ms) (other_id s t) (after_all s.end_ms ts)
        (all (other_id s) ts))
  where
    shuffle : (a b c d : Bool) → ((a && b) && (c && d)) ≡ ((a && c) && (b && d))
    shuffle a b c d = ground arith

    not_true : (b : Bool) → not b ≡ true → b ≡ false
    not_true b h = ground arith

    and_true : (a b : Bool) → (a && b) ≡ true → (a ≡ true) × (b ≡ true)
    and_true a b h = ground arith
