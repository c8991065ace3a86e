-- ===== src/Preview/Samples.antt =====
-- The preview window at concrete selections.
use videocutlist.Prelude.{Bool, [], ◌∷◌, none, some, ◌≡◌, refl, false, true, arith}
use videocutlist.Prelude.Int.{pos, negsuc, ◌+ℤ◌, ◌-ℤ◌}
use videocutlist.Prelude.Outcome.{ok}
use videocutlist.Preview.Window.{
  WindowConfig, Window, default_window_config, bad_config, clamp_center, grid_center, normalize,
  keep_selection, window_duration, window_start,
}
use videocutlist.Prelude.Text.{Text, codes, text_eq}
use videocutlist.Preview.Publication.{Committed, commit-Committed}
use videocutlist.Preview.Cache.{
  Commit, cache_changed, withdraw, Entry, Cache, commit_partial, evict_locked, evict_loop,
  oldest_first, insert_by_age,
}
use videocutlist.Preview.Eviction.{Evicted, evict-Evicted}
use videocutlist.Preview.Bounds.{Covers, normalize-Covers, same_cell_same_clip}

abbrev cfg : WindowConfig
cfg = record { before_ms = pos 2000; after_ms = pos 6000; max_ms = pos 15000; grid_ms = pos 500 }

cfg_is_default : default_window_config ≡ cfg
unfolding default_window_config
cfg_is_default = refl

cfg_good : bad_config cfg ≡ false
unfolding bad_config ◌-ℤ◌
cfg_good = refl

abbrev clip : Window
clip = record { start_ms = pos 8000; duration_ms = pos 8000; offset_ms = pos 2250 }

inside : normalize (pos 10250) (pos 60000) cfg ≡ ok clip
unfolding normalize bad_config ◌-ℤ◌ ◌+ℤ◌ clamp_center keep_selection window_duration window_start
    grid_center
inside = refl

neighbour :
    normalize (pos 10499) (pos 60000) cfg
    ≡ ok (record { start_ms = pos 8000; duration_ms = pos 8000; offset_ms = pos 2499 })
unfolding normalize bad_config ◌-ℤ◌ ◌+ℤ◌ clamp_center keep_selection window_duration window_start
    grid_center
neighbour = refl

before_start :
    normalize (negsuc 4) (pos 3000) cfg
    ≡ ok (record { start_ms = pos 0; duration_ms = pos 3000; offset_ms = pos 0 })
unfolding normalize bad_config ◌-ℤ◌ ◌+ℤ◌ clamp_center keep_selection window_duration window_start
    grid_center
before_start = refl

normalize-Covers_example :
    (w : Window) × (normalize (pos 10250) (pos 60000) cfg ≡ ok w)
    × Covers (pos 10250) (pos 60000) cfg w
normalize-Covers_example = normalize-Covers (pos 10250) (pos 60000) cfg (omega arith) cfg_good

same_cell :
    grid_center (clamp_center (pos 10250) (pos 60000)) cfg
    ≡ grid_center (clamp_center (pos 10499) (pos 60000)) cfg
unfolding grid_center clamp_center
same_cell = refl

same_cell_same_clip_example : (pos 8000 ≡ pos 8000) × (pos 8000 ≡ pos 8000)
unfolding ◌+ℤ◌
same_cell_same_clip_example =
    same_cell_same_clip (pos 10250) (pos 10499) (pos 60000) cfg (omega arith) same_cell inside
      neighbour

abbrev old_clip : Entry
old_clip = record { path = codes "previews/a.mp4"; size = 60; modified = 1; inode = 7 }

abbrev older_clip : Entry
older_clip = record { path = codes "previews/b.mp4"; size = 30; modified = 0; inode = 8 }

abbrev new_clip : Entry
new_clip = record { path = codes "previews/c.mp4"; size = 50; modified = 2; inode = 9 }

abbrev cache : Cache
cache = record {
  files = old_clip ∷ older_clip ∷ [];
  max = 100;
  leases = codes "previews/b.mp4" ∷ [];
}

abbrev never_fails : Text → Bool
never_fails _ = false

abbrev smooth : Commit
smooth = record {
  early = none;
  is_readable = true;
  landed = new_clip;
  fails = never_fails;
  withdraw_fails = false;
}

-- The oldest file is leased, so the next one goes.
evicts_unleased : commit_partial smooth new_clip cache ≡ (none, older_clip ∷ new_clip ∷ [])
unfolding commit_partial evict_locked evict_loop oldest_first insert_by_age withdraw text_eq
evicts_unleased = refl

-- Another file at the path is not withdrawn.
keeps_substitute :
    commit_partial
      (record smooth { landed = record old_clip { path = new_clip.path } })
      new_clip
      cache
    ≡ (some cache_changed, old_clip ∷ older_clip ∷ record old_clip { path = new_clip.path } ∷ [])
unfolding commit_partial evict_locked evict_loop oldest_first insert_by_age withdraw text_eq
keeps_substitute = refl

evict-Evicted_example :
    let (e, kept) = evict_locked 100 cache.leases never_fails (new_clip ∷ cache.files) in
    Evicted 100 cache.leases (new_clip ∷ cache.files) e kept
evict-Evicted_example = evict-Evicted 100 cache.leases never_fails (new_clip ∷ cache.files)

commit-Committed_example :
    let (e, kept) = commit_partial smooth new_clip cache in Committed smooth new_clip cache e kept
unfolding text_eq
commit-Committed_example = commit-Committed smooth new_clip cache refl
