-- ===== src/Proposals/Limits.antt =====
-- What the limits of a proposal mean for its snapshots (internal/mcp/proposals.go).
use videocutlist.Prelude.{
  ◌≡◌, refl, sym, ap, subst, ◌∙◌, ◌≤◌, Bool, true, false, ◌||◌, none, some, List, [], ◌∷◌, ◌==◌,
  ltb, length, All, arith, Bool-cases, Option-cases, inl, inr,
}
use videocutlist.Prelude.Int.{
  ℤ, pos, ◌≤ℤ◌, ◌<ℤ◌, ◌+ℤ◌, ◌-ℤ◌, ltb_ℤ, leb_ℤ, +ℤ_parts, -ℤ_parts, eq_of_parts,
}
use videocutlist.Projects.Segments.{Segment}
use videocutlist.Proposals.Snapshots.{
  ExportSnapshot, clip_limit_ms, total_limit_ms, add_segments, add_snapshots,
  valid_proposal_snapshots,
}

-- The range is inside the source and no longer than ten minutes.
abbrev pub Clip : ℤ → Segment → Type 0
Clip duration s =
    (pos 0 ≤ℤ s.start_ms)
    × (s.start_ms <ℤ s.end_ms)
    × (s.end_ms ≤ℤ duration)
    × ((s.end_ms -ℤ s.start_ms) ≤ℤ clip_limit_ms)

abbrev pub Clips : ExportSnapshot → Type 0
Clips s =
    (1 ≤ length s.item.segments)
    × (length s.item.segments ≤ 100)
    × All (Clip s.source.duration_ms) s.item.segments

abbrev pub clips_ms : List Segment → ℤ
clips_ms [] = pos 0
clips_ms (s ∷ ss) = (s.end_ms -ℤ s.start_ms) +ℤ clips_ms ss

-- How long the exports are together.
abbrev pub total_ms : List ExportSnapshot → ℤ
total_ms [] = pos 0
total_ms (s ∷ ss) = clips_ms s.item.segments +ℤ total_ms ss

plus_zero : (a : ℤ) → a +ℤ pos 0 ≡ a
plus_zero a = eq_of_parts (a +ℤ pos 0) a (omega (arith, +ℤ_parts a (pos 0)))

plus_assoc : (a b c : ℤ) → (a +ℤ b) +ℤ c ≡ a +ℤ (b +ℤ c)
plus_assoc a b c =
    eq_of_parts ((a +ℤ b) +ℤ c) (a +ℤ (b +ℤ c))
      (omega (arith, +ℤ_parts (a +ℤ b) c, +ℤ_parts a b, +ℤ_parts a (b +ℤ c), +ℤ_parts b c))

ltb_ℤ→le : (a b : ℤ) → ltb_ℤ a b ≡ false → b ≤ℤ a
ltb_ℤ→le a b h = ground (arith, h)

leb_ℤ→lt : (a b : ℤ) → leb_ℤ a b ≡ false → b <ℤ a
leb_ℤ→lt a b h = ground (arith, h)

-- The running total stays within what is left of the limit.
room_left :
    (total d : ℤ) → ltb_ℤ (total_limit_ms -ℤ total) d ≡ false → (total +ℤ d) ≤ℤ total_limit_ms
room_left total d h =
    omega (
      arith,
      ltb_ℤ→le (total_limit_ms -ℤ total) d h,
      -ℤ_parts total_limit_ms total,
      +ℤ_parts total d,
    )

add_segments-Clip :
    (duration total total' : ℤ) (ss : List Segment)
    → total ≤ℤ total_limit_ms
    → add_segments duration total ss ≡ some total'
    → All (Clip duration) ss × (total' ≡ total +ℤ clips_ms ss) × (total' ≤ℤ total_limit_ms)
unfolding add_segments
add_segments-Clip duration total total' [] l h =
    let same : total ≡ total' = ground (arith, h) in
    (tt, sym same ∙ sym (plus_zero total), subst (λ x. x ≤ℤ total_limit_ms) same l)
add_segments-Clip duration total total' (s ∷ ss) l h =
    elim (Bool-cases
      (ltb_ℤ s.start_ms (pos 0) || leb_ℤ s.end_ms s.start_ms || ltb_ℤ duration s.end_ms)) [
        | inl outside ↦
            let nothing : add_segments duration total (s ∷ ss) ≡ none =
              rw (add_segments, outside) refl in
            absurd (cc (h, nothing))
        | inr inside ↦
            elim (Bool-cases (ltb_ℤ clip_limit_ms d || ltb_ℤ (total_limit_ms -ℤ total) d)) [
              | inl long ↦
                  let nothing : add_segments duration total (s ∷ ss) ≡ none =
                    rw (add_segments, inside, long) refl in
                  absurd (cc (h, nothing))
              | inr short ↦
                  let further : add_segments duration total (s ∷ ss)
                      ≡ add_segments duration (total +ℤ d) ss =
                    rw (add_segments, inside, short) refl in
                  let more = sym further ∙ h in
                  let (clips, sum, bound) =
                    add_segments-Clip duration (total +ℤ d) total' ss
                      (room_left total d
                        (both_r (ltb_ℤ clip_limit_ms d) (ltb_ℤ (total_limit_ms -ℤ total) d) short))
                      more in
                  (
                    (
                      (
                        ltb_ℤ→le s.start_ms (pos 0) (
                            first3 (ltb_ℤ s.start_ms (pos 0)) (leb_ℤ s.end_ms s.start_ms)
                              (ltb_ℤ duration s.end_ms) inside),
                        leb_ℤ→lt s.end_ms s.start_ms (
                            second3 (ltb_ℤ s.start_ms (pos 0)) (leb_ℤ s.end_ms s.start_ms)
                              (ltb_ℤ duration s.end_ms) inside),
                        ltb_ℤ→le duration s.end_ms (
                            third3 (ltb_ℤ s.start_ms (pos 0)) (leb_ℤ s.end_ms s.start_ms)
                              (ltb_ℤ duration s.end_ms) inside),
                        ltb_ℤ→le clip_limit_ms d (
                            both_l (ltb_ℤ clip_limit_ms d) (ltb_ℤ (total_limit_ms -ℤ total) d)
                              short),
                      ),
                      clips,
                    ),
                    sum ∙ plus_assoc total d (clips_ms ss),
                    bound,
                  )
            ]
      ]
  where
    d : ℤ
    d = s.end_ms -ℤ s.start_ms

    first3 : (a b c : Bool) → (a || b || c) ≡ false → a ≡ false
    first3 a b c h = ground (arith, h)

    second3 : (a b c : Bool) → (a || b || c) ≡ false → b ≡ false
    second3 a b c h = ground (arith, h)

    third3 : (a b c : Bool) → (a || b || c) ≡ false → c ≡ false
    third3 a b c h = ground (arith, h)

    both_l : (a b : Bool) → (a || b) ≡ false → a ≡ false
    both_l a b h = ground (arith, h)

    both_r : (a b : Bool) → (a || b) ≡ false → b ≡ false
    both_r a b h = ground (arith, h)

add_snapshots-Clips :
    (total total' : ℤ) (ss : List ExportSnapshot)
    → total ≤ℤ total_limit_ms
    → add_snapshots total ss ≡ some total'
    → All Clips ss × (total' ≡ total +ℤ total_ms ss) × (total' ≤ℤ total_limit_ms)
unfolding add_snapshots
add_snapshots-Clips total total' [] l h =
    let same : total ≡ total' = ground (arith, h) in
    (tt, sym same ∙ sym (plus_zero total), subst (λ x. x ≤ℤ total_limit_ms) same l)
add_snapshots-Clips total total' (s ∷ ss) l h =
    elim (Bool-cases (length s.item.segments == 0 || ltb 100 (length s.item.segments))) [
      | inl bad ↦ absurd (ground (arith, h, bad))
      | inr good ↦ elim (Option-cases (add_segments s.source.duration_ms total s.item.segments)) [
        | inl nothing ↦ absurd (ground (arith, h, good, nothing))
        | inr (next, added) ↦
            let (clips, sum, bound) =
              add_segments-Clip s.source.duration_ms total next s.item.segments l added in
            let more : add_snapshots next ss ≡ some total' = ground (arith, h, good, added) in
            let (rest, whole, within) = add_snapshots-Clips next total' ss bound more in
            (
              ((ground (arith, good), ground (arith, good), clips), rest),
              whole
                  ∙ ap (λ x. x +ℤ total_ms ss) sum
                  ∙ plus_assoc total (clips_ms s.item.segments) (total_ms ss),
              within,
            )
      ]
    ]

-- From one to twenty snapshots, each with its clips, half an hour long together.
abbrev pub WithinLimits : List ExportSnapshot → Type 0
WithinLimits ss =
    (1 ≤ length ss) × (length ss ≤ 20) × All Clips ss × (total_ms ss ≤ℤ total_limit_ms)

pub valid_proposal_snapshots-WithinLimits :
    (ss : List ExportSnapshot) → valid_proposal_snapshots ss ≡ true → WithinLimits ss
unfolding valid_proposal_snapshots
valid_proposal_snapshots-WithinLimits ss h =
    elim (Bool-cases (length ss == 0 || ltb 20 (length ss))) [
      | inl bad ↦ absurd (ground (arith, h, bad))
      | inr good ↦ elim (Option-cases (add_snapshots (pos 0) ss)) [
        | inl nothing ↦ absurd (ground (arith, h, good, nothing))
        | inr (total, added) ↦
            let (clips, sum, bound) = add_snapshots-Clips (pos 0) total ss (omega arith) added in
            (
              ground (arith, good),
              ground (arith, good),
              clips,
              omega (
                arith,
                subst (λ x. x ≤ℤ total_limit_ms) sum bound,
                +ℤ_parts (pos 0) (total_ms ss),
              ),
            )
      ]
    ]
