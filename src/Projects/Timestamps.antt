-- ===== src/Projects/Timestamps.antt =====
-- internal/projects/interchange/interchange.go: time stamps, and the check of imported segments.
-- Values are milliseconds; a parsed number is below 2^63, as `strconv.ParseUint(value, 10, 63)` bounds it.
use videocutlist.Prelude.{
  ℕ, zero, suc, ◌+◌, ◌-◌, ◌*◌, ◌/◌, ◌%◌, Bool, ◌&&◌, ◌||◌, Option, none, some, List, [], ◌∷◌, ◌++◌,
  if◌then◌else◌, ltb, leb, ◌==◌, length, any,
}
use videocutlist.Prelude.Int.{max_int64}
use videocutlist.Prelude.Text.{Text, is_empty}

abbrev pub is_digit : ℕ → Bool
is_digit c = leb b'0' c && leb c b'9'

-- `strconv.ParseUint(value, 10, 63)` after the tests of `parseUnsigned`; a sign is no digit.
unfoldable pub parse_digits : ℕ → Text → Option ℕ
parse_digits n [] = some n
parse_digits n (c ∷ s) =
    let m = n * 10 + (c - b'0') in
    let rest = parse_digits m s in if is_digit c && leb m max_int64 then rest else none

unfoldable pub parse_unsigned : Text → Option ℕ
unfolding parse_digits
parse_unsigned s = if is_empty s then none else parse_digits 0 s

-- `none` where the Go functions answer false; both arguments are never negative.
unfoldable pub checked_mul : ℕ → ℕ → Option ℕ
checked_mul a b = if ltb (max_int64 / b) a then none else some (a * b)

unfoldable pub checked_add : ℕ → ℕ → Option ℕ
checked_add a b = if ltb (max_int64 - b) a then none else some (a + b)

-- `strings.Split` by one byte.
abbrev pub add_head : ℕ → List Text → List Text
add_head c [] = (c ∷ []) ∷ []
add_head c (p ∷ ps) = (c ∷ p) ∷ ps

unfoldable pub split_by : ℕ → Text → List Text
split_by sep [] = [] ∷ []
split_by sep (c ∷ s) = if c == sep then [] ∷ split_by sep s else add_head c (split_by sep s)

-- How many bytes the space takes that a text begins with, 0 if it begins with none: the characters of
-- `unicode.IsSpace` in UTF-8.
unfoldable pub space_bytes : Text → ℕ
space_bytes [] = 0
space_bytes (a ∷ []) = if leb 9 a && leb a 13 || a == 32 then 1 else 0
space_bytes (a ∷ b ∷ []) =
    if leb 9 a && leb a 13 || a == 32
    then 1
    else if a == 0xC2 && (b == 0x85 || b == 0xA0)
    then 2
    else 0
space_bytes (a ∷ b ∷ c ∷ s) =
    if leb 9 a && leb a 13 || a == 32
    then 1
    else if a == 0xC2 && (b == 0x85 || b == 0xA0)
    then 2
    else if a == 0xE1 && b == 0x9A && c == 0x80
        || a == 0xE2
          && b == 0x80
          && (leb 0x80 c && leb c 0x8A || c == 0xA8 || c == 0xA9 || c == 0xAF)
        || a == 0xE2 && b == 0x81 && c == 0x9F
        || a == 0xE3 && b == 0x80 && c == 0x80
    then 3
    else 0

-- `strings.TrimSpace`; the number is what is left of a space already recognized.
unfoldable pub trim_left : ℕ → Text → Text
unfolding space_bytes
trim_left k [] = []
trim_left (suc k) (c ∷ s) = trim_left k s
trim_left zero (c ∷ s) =
    let rest = trim_left (space_bytes (c ∷ s) - 1) s in
    if space_bytes (c ∷ s) == 0 then c ∷ s else rest

unfoldable pub trim_right : Text → Text
unfolding trim_left
trim_right [] = []
trim_right (c ∷ s) =
    let rest = trim_right s in if is_empty (trim_left 0 (c ∷ s)) then [] else c ∷ rest

unfoldable pub trim_space : Text → Text
unfolding trim_left trim_right
trim_space s = trim_right (trim_left 0 s)

-- The digits after the point, in milliseconds.
unfoldable pub parse_fraction : Text → Option ℕ
unfolding parse_unsigned
parse_fraction s = if ltb 3 (length s) then none else elim (parse_unsigned s) [
  | none ↦ none
  | some n ↦ some (if length s == 1 then n * 100 else if length s == 2 then n * 10 else n)
]

unfoldable pub seconds_millis : ℕ → ℕ → Option ℕ
unfolding checked_mul checked_add
seconds_millis seconds fraction = elim (checked_mul seconds 1000) [
  | none ↦ none
  | some ms ↦ checked_add ms fraction
]

abbrev pub seconds_and : Option ℕ → Option ℕ → Option ℕ
seconds_and (some s) (some f) = seconds_millis s f
seconds_and _ _ = none

unfoldable pub parse_seconds_millis : Text → Option ℕ
unfolding parse_fraction seconds_millis split_by
parse_seconds_millis s = elim (split_by b'.' s) [
  | [] ↦ none
  | p ∷ ps ↦ elim ps [
    | [] ↦ seconds_and (parse_unsigned p) (some 0)
    | f ∷ more ↦ elim more [ [] ↦ seconds_and (parse_unsigned p) (parse_fraction f) | _ ∷ _ ↦ none ]
  ]
]

-- The sum of `ParseTimestamp`, with the bounds of its parts.
unfoldable pub total_millis : ℕ → ℕ → ℕ → Option ℕ
unfolding checked_mul checked_add
total_millis h m sec = if leb 60 m || leb 60000 sec then none else elim (checked_mul h 3600000) [
  | none ↦ none
  | some hours ↦ elim (checked_mul m 60000) [
    | none ↦ none
    | some minutes ↦ elim (checked_add hours minutes) [
      | none ↦ none
      | some base ↦ checked_add base sec
    ]
  ]
]

abbrev pub total_of : Option ℕ → Option ℕ → Option ℕ → Option ℕ
total_of (some h) (some m) (some sec) = total_millis h m sec
total_of _ _ _ = none

unfoldable pub parse_parts : List Text → Option ℕ
unfolding parse_unsigned parse_seconds_millis total_millis
parse_parts (s ∷ []) = parse_seconds_millis s
parse_parts (m ∷ s ∷ []) = total_of (some 0) (parse_unsigned m) (parse_seconds_millis s)
parse_parts (h ∷ m ∷ s ∷ []) =
    total_of (parse_unsigned h) (parse_unsigned m) (parse_seconds_millis s)
parse_parts _ = none

unfoldable pub parse_timestamp : Text → Option ℕ
unfolding trim_space parse_parts split_by
parse_timestamp value =
    let s = trim_space value in
    if is_empty s || any (λ c. c == b'/' || c == b'\\') s
    then none
    else parse_parts (split_by b':' s)

-- `%0wd`: the decimal digits, at least `w` of them; the first argument is fuel for the digits.
abbrev pub digit : ℕ → ℕ
digit n = b'0' + n % 10

unfoldable pub digits_onto : ℕ → ℕ → Text → Text
digits_onto zero n s = s
digits_onto (suc w) n s = digits_onto w (n / 10) (digit n ∷ s)

abbrev pub more_digits : ℕ → ℕ → ℕ → ℕ
more_digits zero n w = w
more_digits (suc k) n w = if n == 0 then w else suc (more_digits k (n / 10) w)

-- How many digits `%0wd` writes of a number below 10^19.
unfoldable pub width : ℕ → ℕ → ℕ
width w n = let k = more_digits 20 n 0 in if ltb k w then w else k

unfoldable pub padded : ℕ → ℕ → Text
unfolding digits_onto width
padded w n = digits_onto (width w n) n []

unfoldable pub format_timestamp : ℕ → Text
unfolding padded
format_timestamp ms =
    padded 2 (ms / 3600000)
    ++ (b':'
        ∷ (padded 2 (ms % 3600000 / 60000)
            ++ (b':' ∷ (padded 2 (ms % 60000 / 1000) ++ (b'.' ∷ padded 3 (ms % 1000))))))
