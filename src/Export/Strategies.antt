-- ===== src/Export/Strategies.antt =====
-- internal/export/export.go: how each range is cut, what is reported of it, and the checks of stream
-- indexes and frame times. The FFmpeg runs are not modelled.
use videocutlist.Prelude.{
  ◌≡◌, ◌↔◌, ℕ, suc, refl, Bool, true, false, not, ◌&&◌, ◌||◌, Option, none, some, List, [], ◌∷◌,
  if◌then◌else◌, any, all, arith, Bool-cases, Option-cases, inl, inr, sym, ap, ◌∙◌,
}
use videocutlist.Prelude.Int.{ℤ, pos, ltb_ℤ, leb_ℤ, eqb_ℤ, ◌-ℤ◌}
use videocutlist.Prelude.Text.{Text, codes, text_eq}
use videocutlist.Projects.Segments.{Segment}

unfoldable pub has_interior_keyframe : Segment → List ℤ → Bool
has_interior_keyframe s keyframes = any (λ k. ltb_ℤ s.start_ms k && ltb_ℤ k s.end_ms) keyframes

pub record AppliedStrategy : Type 0 where
  pub segment : ℕ
  pub strategy : Text

unfoldable pub strategy_of : Text → Segment → List ℤ → Text
unfolding has_interior_keyframe
strategy_of requested s keyframes =
    if text_eq requested (codes "hybrid_smart_cut") && not (has_interior_keyframe s keyframes)
    then codes "stream_copy"
    else requested

-- The loop of `segmentStrategies`, from the 1-based position of its first segment.
unfoldable pub strategies_from : ℕ → Text → List Segment → List ℤ → List AppliedStrategy
unfolding strategy_of
strategies_from n requested [] keyframes = []
strategies_from n requested (s ∷ ss) keyframes =
    record { segment = n; strategy = strategy_of requested s keyframes }
    ∷ strategies_from (suc n) requested ss keyframes

unfoldable pub segment_strategies : Text → List Segment → List ℤ → List AppliedStrategy
unfolding strategies_from
segment_strategies = strategies_from 1

unfoldable pub uniform_strategy : List AppliedStrategy → Text
uniform_strategy [] = []
uniform_strategy (a ∷ as_) = if all (λ b. text_eq b.strategy a.strategy) as_ then a.strategy else []

unfoldable pub has_potentially_inexact_cut : List Segment → List ℤ → Bool
has_potentially_inexact_cut ss keyframes = any (λ s. not (any (eqb_ℤ s.start_ms) keyframes)) ss

-- The loop of `hybridSegment` that looks for the boundary: the first key frame at or after the start.
unfoldable pub first_boundary : Segment → List ℤ → Option ℤ
first_boundary s [] = none
first_boundary s (k ∷ ks) = if leb_ℤ s.start_ms k then some k else first_boundary s ks

-- `hybridSegment`: the boundary up to which it encodes; `none` where it copies the whole segment.
unfoldable pub hybrid_boundary : Segment → List ℤ → Option ℤ
unfolding first_boundary
hybrid_boundary s keyframes = elim (first_boundary s keyframes) [
  | none ↦ none
  | some k ↦ if leb_ℤ k s.start_ms || leb_ℤ s.end_ms k then none else some k
]

unfoldable pub abs64 : ℤ → ℤ
abs64 v = if ltb_ℤ v (pos 0) then pos 0 -ℤ v else v

unfoldable pub steady : ℤ → List ℤ → Bool
unfolding abs64
steady delta (a ∷ b ∷ times) =
    let rest = steady delta (b ∷ times) in
    if leb_ℤ (b -ℤ a) (pos 0) || ltb_ℤ (pos 1) (abs64 ((b -ℤ a) -ℤ delta)) then false else rest
steady delta _ = true

unfoldable pub constant_frame_times : List ℤ → Bool
unfolding steady
constant_frame_times (a ∷ b ∷ times) =
    if leb_ℤ (b -ℤ a) (pos 0) then false else steady (b -ℤ a) (b ∷ times)
constant_frame_times _ = false

-- The key frames are in the order of time.
abbrev pub in_order : List ℤ → Bool
in_order [] = true
in_order (k ∷ ks) = all (leb_ℤ k) ks && in_order ks

abbrev pub is_hybrid : Option ℤ → Bool
is_hybrid none = false
is_hybrid (some _) = true

ordered_interior :
    (s : Segment) (k : ℤ) (ks : List ℤ)
    → leb_ℤ s.end_ms k ≡ true
    → all (leb_ℤ k) ks ≡ true
    → has_interior_keyframe s ks ≡ false
unfolding has_interior_keyframe
ordered_interior s k [] h o = refl
ordered_interior s k (j ∷ ks) h o = ground (arith, ordered_interior s k ks)

ordered_start :
    (s : Segment) (k : ℤ) (ks : List ℤ)
    → ltb_ℤ s.start_ms k ≡ true
    → all (leb_ℤ k) ks ≡ true
    → any (eqb_ℤ s.start_ms) ks ≡ false
ordered_start s k [] h o = refl
ordered_start s k (j ∷ ks) h o = ground (arith, ordered_start s k ks)

hybrid-interior :
    (s : Segment) (ks : List ℤ)
    → in_order ks ≡ true
    → is_hybrid (hybrid_boundary s ks)
      ≡ (has_interior_keyframe s ks && not (any (eqb_ℤ s.start_ms) ks))
unfolding hybrid_boundary has_interior_keyframe
hybrid-interior s [] o = refl
hybrid-interior s (k ∷ ks) o =
    ground (arith, hybrid-interior s ks, ordered_interior s k ks, ordered_start s k ks)

boundary_inside :
    (s : Segment) (ks : List ℤ) (b : ℤ)
    → hybrid_boundary s ks ≡ some b
    → (ltb_ℤ s.start_ms b && ltb_ℤ b s.end_ms) ≡ true
unfolding hybrid_boundary
boundary_inside s ks b h = ground (arith, h)

-- For key frames in the order of time: the hybrid cut of a range encodes up to a boundary exactly if a
-- key frame lies strictly inside the range and none lies at its start, and that boundary is itself
-- strictly inside.
pub hybrid_boundary_iff :
    (s : Segment) (ks : List ℤ)
    → in_order ks ≡ true
    → (((b : ℤ) × (hybrid_boundary s ks ≡ some b))
        ↔ ((has_interior_keyframe s ks && not (any (eqb_ℤ s.start_ms) ks)) ≡ true))
      × ((b : ℤ) → hybrid_boundary s ks ≡ some b → (ltb_ℤ s.start_ms b && ltb_ℤ b s.end_ms) ≡ true)
hybrid_boundary_iff s ks o =
    let h = hybrid-interior s ks o in
    (
      (
        λ (b, e). sym h ∙ ap is_hybrid e,
        λ e. elim (Option-cases (hybrid_boundary s ks)) [
          | inl n ↦ absurd (cc (h, n, e))
          | inr (b, q) ↦ (b, q)
        ],
      ),
      boundary_inside s ks,
    )

-- For key frames in the order of time and the hybrid strategy: the strategy reported of a range is the
-- hybrid one although the whole range is copied exactly if a key frame lies at the start of the range
-- and another strictly inside.
pub hybrid_report_iff :
    (s : Segment) (ks : List ℤ)
    → in_order ks ≡ true
    → (text_eq (strategy_of (codes "hybrid_smart_cut") s ks) (codes "hybrid_smart_cut")
        && not (is_hybrid (hybrid_boundary s ks)))
      ≡ (has_interior_keyframe s ks && any (eqb_ℤ s.start_ms) ks)
unfolding strategy_of text_eq
hybrid_report_iff s ks o =
    rw (hybrid-interior s ks o) (elim (Bool-cases (has_interior_keyframe s ks)) [
      | inl e ↦ rw e (ground arith)
      | inr e ↦ rw e refl
    ])
