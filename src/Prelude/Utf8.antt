-- ===== src/Prelude/Utf8.antt =====
-- How many code points a byte text has, as unicode/utf8 counts them: a byte that starts no valid
-- encoding counts as one.
use Prim.Native.Nat.{ℕ, zero, suc}
use mathlib.Core.Bool.{Bool, ◌&&◌}
use mathlib.Core.List.{[], ◌∷◌}
use videocutlist.Prelude.Tests.{leb, ◌==◌, if◌then◌else◌}
use videocutlist.Prelude.Text.{Text}

abbrev between : ℕ → ℕ → ℕ → Bool
between lo hi c = leb lo c && leb c hi

-- The least and the greatest second byte after a first byte.
abbrev second_low : ℕ → ℕ
second_low a = if a == 0xE0 then 0xA0 else if a == 0xF0 then 0x90 else 0x80

abbrev second_high : ℕ → ℕ
second_high a = if a == 0xED then 0x9F else if a == 0xF4 then 0x8F else 0xBF

abbrev is_second : ℕ → ℕ → Bool
is_second a b = between (second_low a) (second_high a) b

-- The bytes after the first that its code point takes.
unfoldable pub extra_bytes : Text → ℕ
extra_bytes (a ∷ b ∷ c ∷ d ∷ s) =
    if between 0xC2 0xDF a && is_second a b
    then 1
    else if between 0xE0 0xEF a && is_second a b && between 0x80 0xBF c
    then 2
    else if between 0xF0 0xF4 a && is_second a b && between 0x80 0xBF c && between 0x80 0xBF d
    then 3
    else 0
extra_bytes (a ∷ b ∷ c ∷ []) =
    if between 0xC2 0xDF a && is_second a b
    then 1
    else if between 0xE0 0xEF a && is_second a b && between 0x80 0xBF c
    then 2
    else 0
extra_bytes (a ∷ b ∷ []) = if between 0xC2 0xDF a && is_second a b then 1 else 0
extra_bytes _ = 0

unfoldable pub runes : ℕ → Text → ℕ
unfolding extra_bytes
runes k [] = 0
runes (suc k) (c ∷ s) = runes k s
runes zero (c ∷ s) = suc (runes (extra_bytes (c ∷ s)) s)

-- `utf8.RuneCountInString`
unfoldable pub rune_count : Text → ℕ
unfolding runes
rune_count = runes 0
