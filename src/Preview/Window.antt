-- ===== src/Preview/Window.antt =====
-- internal/projects/model/preview_window.go: the source range of a preview clip.
-- Every sum and difference below is taken of checked values and stays within int64, so plain
-- integers model it: the configuration is tested before `before + after` is formed.
use videocutlist.Prelude.{Bool, ◌&&◌, ◌||◌, if◌then◌else◌}
use videocutlist.Prelude.Int.{ℤ, pos, ◌+ℤ◌, ◌-ℤ◌, ltb_ℤ, eqb_ℤ, quot_ℤ, mul_ℤ}
use videocutlist.Prelude.Outcome.{Outcome, ok, err}

pub record WindowConfig : Type 0 where
  pub before_ms : ℤ
  pub after_ms : ℤ
  pub max_ms : ℤ
  pub grid_ms : ℤ

unfoldable pub default_window_config : WindowConfig
default_window_config = record {
  before_ms = pos 2000;
  after_ms = pos 6000;
  max_ms = pos 15000;
  grid_ms = pos 500;
}

pub record Window : Type 0 where
  pub start_ms : ℤ
  pub duration_ms : ℤ
  pub offset_ms : ℤ

pub data WindowError : Type 0 where
  negative_duration invalid_config zero_duration : WindowError

-- `centerMS` cut to the media.
unfoldable pub clamp_center : ℤ → ℤ → ℤ
clamp_center center media =
    let c = if ltb_ℤ center (pos 0) then pos 0 else center in if ltb_ℤ media c then media else c

unfoldable pub window_duration : ℤ → WindowConfig → ℤ
window_duration media cfg =
    let d = cfg.before_ms +ℤ cfg.after_ms in if ltb_ℤ media d then media else d

-- The start of the window before the exact selection is looked at again.
unfoldable pub window_start : ℤ → ℤ → ℤ → ℤ → ℤ
window_start grid_center before media duration =
    let s = grid_center -ℤ before in
    let s' = if ltb_ℤ s (pos 0) then pos 0 else s in
    if ltb_ℤ (media -ℤ duration) s' then media -ℤ duration else s'

-- The exact selection is kept inside the window.
unfoldable pub keep_selection : ℤ → ℤ → ℤ → Window
keep_selection center start duration =
    let offset = center -ℤ start in
    let s = if ltb_ℤ offset (pos 0) then center else start in
    let o = if ltb_ℤ offset (pos 0) then pos 0 else offset in
    if ltb_ℤ duration o
    then record { start_ms = center -ℤ duration; duration_ms = duration; offset_ms = duration }
    else record { start_ms = s; duration_ms = duration; offset_ms = o }

unfoldable pub bad_config : WindowConfig → Bool
bad_config cfg =
    ltb_ℤ cfg.before_ms (pos 0)
    || ltb_ℤ cfg.after_ms (pos 0)
    || ltb_ℤ cfg.max_ms (pos 1)
    || ltb_ℤ cfg.grid_ms (pos 1)
    || ltb_ℤ (cfg.max_ms -ℤ cfg.after_ms) cfg.before_ms
    || eqb_ℤ cfg.before_ms (pos 0) && eqb_ℤ cfg.after_ms (pos 0)

unfoldable pub grid_center : ℤ → WindowConfig → ℤ
grid_center center cfg = mul_ℤ (quot_ℤ center cfg.grid_ms) cfg.grid_ms

unfoldable pub normalize : ℤ → ℤ → WindowConfig → Outcome WindowError Window
normalize center media cfg =
    if ltb_ℤ media (pos 0)
    then err negative_duration
    else if bad_config cfg
    then err invalid_config
    else if eqb_ℤ media (pos 0)
    then err zero_duration
    else let c = clamp_center center media in
      let d = window_duration media cfg in
      ok (keep_selection c (window_start (grid_center c cfg) cfg.before_ms media d) d)
