-- ===== src/Preview/Bounds.antt =====
-- The window that `Normalize` returns lies in the media and holds the selection.
use videocutlist.Prelude.{◌+◌, ◌≤◌, ◌<◌, ◌≡◌, false, arith, inl, inr}
use native.Mathlib.Nat.{div-add-mod, mod-lt}
use videocutlist.Prelude.{ℕ, ◌/◌, ◌*◌, ◌↔◌, ◌⊎◌, ap}
use videocutlist.Prelude.Int.{
  pos_part, neg_part, ℤ, pos, negsuc, mul_ℤ, quot_ℤ, ◌+ℤ◌, ◌-ℤ◌, ◌≤ℤ◌, ◌<ℤ◌, +ℤ_parts, -ℤ_parts,
  eq_of_parts,
}
use videocutlist.Prelude.Outcome.{ok, err}
use videocutlist.Preview.Window.{
  WindowConfig, Window, clamp_center, window_duration, window_start, keep_selection, bad_config,
  negative_duration, grid_center, normalize,
}

clamp_center_bounds : (c m : ℤ) → pos 0 ≤ℤ m → (pos 0 ≤ℤ clamp_center c m) × (clamp_center c m ≤ℤ m)
unfolding clamp_center
clamp_center_bounds c m h = ground arith

keep_selection_bounds :
    (c s d : ℤ)
    → pos 0 ≤ℤ d
    → let w = keep_selection c s d in
      (pos 0 ≤ℤ w.offset_ms) × (w.offset_ms ≤ℤ w.duration_ms) × (w.start_ms +ℤ w.offset_ms ≡ c)
unfolding keep_selection
keep_selection_bounds c s d h = ground (
  arith,
  -ℤ_parts c s,
  -ℤ_parts c d,
  +ℤ_parts (c -ℤ d) d,
  +ℤ_parts c (pos 0),
  +ℤ_parts s (c -ℤ s),
  eq_of_parts ((c -ℤ d) +ℤ d) c,
  eq_of_parts (c +ℤ pos 0) c,
  eq_of_parts (s +ℤ (c -ℤ s)) c,
)

-- Where the grid's start does not pass the selection, the window stays in the media.
keep_selection_inside :
    (c s d m : ℤ)
    → c ≤ℤ m
    → pos 0 ≤ℤ d
    → pos 0 ≤ℤ s
    → s ≤ℤ c
    → s +ℤ d ≤ℤ m
    → let w = keep_selection c s d in
      (pos 0 ≤ℤ w.start_ms) × (w.start_ms +ℤ w.duration_ms ≤ℤ m) × (w.duration_ms ≡ d)
unfolding keep_selection
keep_selection_inside c s d m hc hd hs hsc hsm = ground (
  arith,
  -ℤ_parts c s,
  -ℤ_parts c d,
  +ℤ_parts s d,
  +ℤ_parts (c -ℤ d) d,
  eq_of_parts ((c -ℤ d) +ℤ d) c,
)

div_mul_le : (a g : ℕ) → a / g * g ≤ a
div_mul_le a g = omega (arith, div-add-mod a g)

lt_div_mul : (a g : ℕ) → 0 < g → a < a / g * g + g
lt_div_mul a g h = omega (arith, div-add-mod a g, mod-lt a h)

grid_bounds :
    (c g : ℤ)
    → pos 0 ≤ℤ c
    → pos 1 ≤ℤ g
    → let x = mul_ℤ (quot_ℤ c g) g in (pos 0 ≤ℤ x) × (x ≤ℤ c) × (c <ℤ x +ℤ g)
unfolding ◌+ℤ◌
grid_bounds (pos a) (pos g) hc hg = ground (arith, div_mul_le a g, lt_div_mul a g)
grid_bounds (pos a) (negsuc g) hc hg = absurd (omega arith)
grid_bounds (negsuc a) g hc hg = absurd (omega arith)

window_start_bounds :
    (g before m d c : ℤ)
    → pos 0 ≤ℤ before
    → pos 0 ≤ℤ d
    → d ≤ℤ m
    → pos 0 ≤ℤ g
    → g ≤ℤ c
    → let s = window_start g before m d in (pos 0 ≤ℤ s) × (s ≤ℤ c) × (s +ℤ d ≤ℤ m)
unfolding window_start
window_start_bounds g before m d c hb hd hdm hg hgc = ground (
  arith,
  -ℤ_parts g before,
  -ℤ_parts m d,
  +ℤ_parts (m -ℤ d) d,
  +ℤ_parts (g -ℤ before) d,
  +ℤ_parts (pos 0) d,
)

window_duration_bounds :
    (m : ℤ) (cfg : WindowConfig)
    → pos 0 <ℤ m
    → bad_config cfg ≡ false
    → let d = window_duration m cfg in
      (pos 0 <ℤ d) × (d ≤ℤ m) × (d ≤ℤ cfg.max_ms) × (d ≤ℤ cfg.before_ms +ℤ cfg.after_ms)
unfolding window_duration bad_config
window_duration_bounds m cfg hm good =
    ground (arith, +ℤ_parts cfg.before_ms cfg.after_ms, -ℤ_parts cfg.max_ms cfg.after_ms)

config_positive :
    (cfg : WindowConfig)
    → bad_config cfg ≡ false
    → (pos 0 ≤ℤ cfg.before_ms) × (pos 1 ≤ℤ cfg.grid_ms)
unfolding bad_config
config_positive cfg good = ground arith

-- What a returned window promises of a selection `center` in a media of `media` milliseconds.
pub record Covers (center media : ℤ) (cfg : WindowConfig) (w : Window) : Type 0 where
  pub start_in_media : pos 0 ≤ℤ w.start_ms
  pub end_in_media : w.start_ms +ℤ w.duration_ms ≤ℤ media
  pub not_empty : pos 0 <ℤ w.duration_ms
  pub within_max : w.duration_ms ≤ℤ cfg.max_ms
  pub offset_nonneg : pos 0 ≤ℤ w.offset_ms
  pub offset_in_window : w.offset_ms ≤ℤ w.duration_ms
  pub selects : w.start_ms +ℤ w.offset_ms ≡ clamp_center center media

normalize_ok :
    (center media : ℤ) (cfg : WindowConfig)
    → pos 0 <ℤ media
    → bad_config cfg ≡ false
    → let c = clamp_center center media in
      let d = window_duration media cfg in
      normalize center media cfg
      ≡ ok (keep_selection c (window_start (grid_center c cfg) cfg.before_ms media d) d)
unfolding normalize
normalize_ok center media cfg hm good = ground arith

-- For a media with a positive duration and a configuration that passes the checks, `Normalize`
-- succeeds, and the window lies in the media, is not empty nor longer than the maximum, and its
-- offset points, from inside the window, at exactly the selection cut to the media.
pub normalize-Covers :
    (center media : ℤ) (cfg : WindowConfig)
    → pos 0 <ℤ media
    → bad_config cfg ≡ false
    → (w : Window) × (normalize center media cfg ≡ ok w) × Covers center media cfg w
unfolding grid_center
normalize-Covers center media cfg hm good =
    let c = clamp_center center media in
    let d = window_duration media cfg in
    let g = grid_center c cfg in
    let s = window_start g cfg.before_ms media d in
    let (cfg_before, cfg_grid) = config_positive cfg good in
    let (c0, c1) = clamp_center_bounds center media (omega arith) in
    let (d0, d1, d2, d3) = window_duration_bounds media cfg hm good in
    let (g0, g1, g2) = grid_bounds c cfg.grid_ms c0 cfg_grid in
    let (s0, s1, s2) =
      window_start_bounds g cfg.before_ms media d c cfg_before (omega arith) d1 g0 g1 in
    let (w0, w1, w2) = keep_selection_inside c s d media c1 (omega arith) s0 s1 s2 in
    let (o0, o1, o2) = keep_selection_bounds c s d (omega arith) in
    (
      keep_selection c s d,
      normalize_ok center media cfg hm good,
      record {
        start_in_media = w0;
        end_in_media = w1;
        not_empty = rw w2 d0;
        within_max = rw w2 d2;
        offset_nonneg = o0;
        offset_in_window = o1;
        selects = o2;
      },
    )

normalize_ok_iff :
    (center media : ℤ) (cfg : WindowConfig)
    → (((w : Window) × (normalize center media cfg ≡ ok w))
        ↔ ((pos 0 <ℤ media) × (bad_config cfg ≡ false)))
      × (media <ℤ pos 0 → normalize center media cfg ≡ err negative_duration)
unfolding normalize
normalize_ok_iff center media cfg = (
  (
    (λ r.
        let e : normalize center media cfg ≡ ok r.0 = r.1 in
        (ground (arith, e), ground (arith, e))),
    λ h. (_, normalize_ok center media cfg h.0 h.1),
  ),
  λ h. ground arith,
)

window_duration-cases :
    (m : ℤ) (cfg : WindowConfig)
    → (window_duration m cfg ≡ m) ⊎ (window_duration m cfg ≡ cfg.before_ms +ℤ cfg.after_ms)
unfolding window_duration
window_duration-cases m cfg = ground arith

window_start-cases :
    (g before m d : ℤ)
    → (m -ℤ d ≤ℤ window_start g before m d) ⊎ (g -ℤ before ≤ℤ window_start g before m d)
unfolding window_start
window_start-cases g before m d = ground arith

window_start_reach :
    (c m d g before after grid : ℤ)
    → c ≤ℤ m
    → c <ℤ g +ℤ grid
    → grid ≤ℤ after +ℤ pos 1
    → d ≡ before +ℤ after
    → c ≤ℤ window_start g before m d +ℤ d
window_start_reach c m d g before after grid hcm hcg hga hd =
    let s = window_start g before m d in
    elim (window_start-cases g before m d) [
      | inl late ↦ omega (arith, -ℤ_parts m d, +ℤ_parts s d)
      | inr early ↦ omega (
        arith,
        ap pos_part hd,
        ap neg_part hd,
        +ℤ_parts g grid,
        +ℤ_parts after (pos 1),
        +ℤ_parts before after,
        -ℤ_parts g before,
        +ℤ_parts s d,
      )
    ]

keep_selection_plain :
    (c s d : ℤ)
    → s ≤ℤ c
    → c ≤ℤ s +ℤ d
    → ((keep_selection c s d).start_ms ≡ s) × ((keep_selection c s d).duration_ms ≡ d)
unfolding keep_selection
keep_selection_plain c s d h k = ground (arith, -ℤ_parts c s, +ℤ_parts s d)

-- The clip of a selection is the grid's own clip, whatever the selection's place in its cell.
clip_of_cell :
    (center media : ℤ) (cfg : WindowConfig)
    → pos 0 <ℤ media
    → bad_config cfg ≡ false
    → cfg.grid_ms ≤ℤ cfg.after_ms +ℤ pos 1
    → let c = clamp_center center media in
      let d = window_duration media cfg in
      let s = window_start (grid_center c cfg) cfg.before_ms media d in
      ((keep_selection c s d).start_ms ≡ s) × ((keep_selection c s d).duration_ms ≡ d)
unfolding grid_center
clip_of_cell center media cfg hm good fine =
    let c = clamp_center center media in
    let d = window_duration media cfg in
    let g = grid_center c cfg in
    let s = window_start g cfg.before_ms media d in
    let (cfg_before, cfg_grid) = config_positive cfg good in
    let (c0, c1) = clamp_center_bounds center media (omega arith) in
    let (d0, d1, d2, d3) = window_duration_bounds media cfg hm good in
    let (g0, g1, g2) = grid_bounds c cfg.grid_ms c0 cfg_grid in
    let (s0, s1, s2) =
      window_start_bounds g cfg.before_ms media d c cfg_before (omega arith) d1 g0 g1 in
    elim (window_duration-cases media cfg) [
      | inl whole ↦
          keep_selection_plain c s d s1
            (omega (arith, +ℤ_parts s d, ap pos_part whole, ap neg_part whole))
      | inr full ↦
          keep_selection_plain c s d s1
            (window_start_reach c media d g cfg.before_ms cfg.after_ms cfg.grid_ms c1 g2 fine full)
    ]

-- Two selections in one cell of the grid get the same clip, and so the same cache entry, provided
-- the cell is not longer than the time kept after the selection (plus one millisecond).
pub same_cell_same_clip :
    (a b media : ℤ) (cfg : WindowConfig) {v w : Window}
    → cfg.grid_ms ≤ℤ cfg.after_ms +ℤ pos 1
    → grid_center (clamp_center a media) cfg ≡ grid_center (clamp_center b media) cfg
    → normalize a media cfg ≡ ok v
    → normalize b media cfg ≡ ok w
    → (v.start_ms ≡ w.start_ms) × (v.duration_ms ≡ w.duration_ms)
same_cell_same_clip a b media cfg {v} {w} fine cell hv hw =
    let (hm, good) = ((normalize_ok_iff a media cfg).0).0 (v, hv) in
    ground (
      arith,
      clip_of_cell a media cfg hm good fine,
      clip_of_cell b media cfg hm good fine,
      normalize_ok a media cfg hm good,
      normalize_ok b media cfg hm good,
    )
