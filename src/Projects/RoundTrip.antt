-- ===== src/Projects/RoundTrip.antt =====
-- A time stamp that is written is read back (internal/projects/interchange/interchange.go).
use videocutlist.Prelude.{
  ℕ, ◌≡◌, ◌≤◌, ◌<◌, ◌+◌, ◌*◌, ◌/◌, ◌%◌, refl, ap, ◌∙◌, Bool, true, false, not, ◌&&◌, ◌||◌, some, [],
  ◌∷◌, ◌++◌, ◌==◌, all, any, arith,
}
use videocutlist.Prelude.Int.{max_int64}
use videocutlist.Prelude.Text.{Text, is_empty}
use videocutlist.Projects.Timestamps.{
  is_digit, parse_unsigned, padded, split_by, space_bytes, trim_left, trim_right, trim_space,
  parse_fraction, seconds_millis, seconds_and, parse_seconds_millis, total_millis, parse_parts,
  parse_timestamp, format_timestamp, checked_mul, checked_add,
}
use videocutlist.Projects.Digits.{
  padded-all_digits, padded-length, padded-not_empty, parse_unsigned-padded,
}

-- The bytes of a written time stamp.
abbrev is_plain : ℕ → Bool
is_plain c = is_digit c || c == b':' || c == b'.'

all-append : (p : ℕ → Bool) (s t : Text) → all p (s ++ t) ≡ (all p s && all p t)
all-append p [] t = refl
all-append p (c ∷ s) t = ground (arith, all-append p s t)

digits-plain : (s : Text) → all is_digit s ≡ true → all is_plain s ≡ true
digits-plain [] h = refl
digits-plain (c ∷ s) h = ground (arith, digits-plain s)

space_bytes-plain : (c : ℕ) (s : Text) → is_plain c ≡ true → space_bytes (c ∷ s) ≡ 0
unfolding space_bytes
space_bytes-plain c [] h = ground (arith, h)
space_bytes-plain c (d ∷ []) h = ground (arith, h)
space_bytes-plain c (d ∷ e ∷ s) h = ground (arith, h)

trim_left-plain : (s : Text) → all is_plain s ≡ true → trim_left 0 s ≡ s
unfolding trim_left
trim_left-plain [] h = refl
trim_left-plain (c ∷ s) h = rw (space_bytes-plain c s (ground (arith, h))) refl

trim_right-plain : (s : Text) → all is_plain s ≡ true → trim_right s ≡ s
unfolding trim_right
trim_right-plain [] h = refl
trim_right-plain (c ∷ s) h =
    rw (trim_left-plain (c ∷ s) h, trim_right-plain s (ground (arith, h))) (unfold is_empty in refl)

trim_space-plain : (s : Text) → all is_plain s ≡ true → trim_space s ≡ s
unfolding trim_space
trim_space-plain s h = rw (trim_left-plain s h) (trim_right-plain s h)

plain-no_slash : (s : Text) → all is_plain s ≡ true → any (λ c. c == b'/' || c == b'\\') s ≡ false
plain-no_slash [] h = refl
plain-no_slash (c ∷ s) h = ground (arith, plain-no_slash s)

abbrev lacks : ℕ → Text → Bool
lacks sep = all (λ c. not (c == sep))

digits-lack :
    (sep : ℕ) (s : Text) → is_digit sep ≡ false → all is_digit s ≡ true → lacks sep s ≡ true
digits-lack sep [] h d = refl
digits-lack sep (c ∷ s) h d = ground (arith, digits-lack sep s)

split_by-lacking : (sep : ℕ) (s : Text) → lacks sep s ≡ true → split_by sep s ≡ s ∷ []
unfolding split_by
split_by-lacking sep [] h = refl
split_by-lacking sep (c ∷ s) h = ground (arith, split_by-lacking sep s)

split_by-append :
    (sep : ℕ) (s t : Text) → lacks sep s ≡ true → split_by sep (s ++ (sep ∷ t)) ≡ s ∷ split_by sep t
unfolding split_by
split_by-append sep [] t h = ground arith
split_by-append sep (c ∷ s) t h = ground (arith, split_by-append sep s t)

padded-lacks : (sep w n : ℕ) → is_digit sep ≡ false → lacks sep (padded w n) ≡ true
padded-lacks sep w n h = digits-lack sep (padded w n) h (padded-all_digits w n)

padded-plain : (w n : ℕ) → all is_plain (padded w n) ≡ true
padded-plain w n = digits-plain (padded w n) (padded-all_digits w n)

seconds_text : ℕ → ℕ → Text
seconds_text s f = padded 2 s ++ (b'.' ∷ padded 3 f)

parse_fraction-padded : (f : ℕ) → f < 1000 → parse_fraction (padded 3 f) ≡ some f
unfolding parse_fraction
parse_fraction-padded f h =
    let long = padded-length 3 f (omega (arith, h)) in
    rw (long, parse_unsigned-padded 3 f (omega arith) (omega (arith, h)), long) refl

seconds_millis_lem : (s f : ℕ) → s < 60 → f < 1000 → seconds_millis s f ≡ some (s * 1000 + f)
unfolding seconds_millis checked_mul checked_add
seconds_millis_lem s f h k = ground arith

after_split :
    (t p f : Text)
    → split_by b'.' t ≡ p ∷ f ∷ []
    → parse_seconds_millis t ≡ seconds_and (parse_unsigned p) (parse_fraction f)
unfolding parse_seconds_millis
after_split t p f e = rw (e, parse_seconds_millis) refl

seconds-split : (s f : ℕ) → split_by b'.' (seconds_text s f) ≡ padded 2 s ∷ padded 3 f ∷ []
unfolding seconds_text
seconds-split s f =
    rw
      (
        split_by-append b'.' (padded 2 s) (padded 3 f) (padded-lacks b'.' 2 s refl),
        split_by-lacking b'.' (padded 3 f) (padded-lacks b'.' 3 f refl),
      )
      refl

parse_seconds-text :
    (s f : ℕ) → s < 60 → f < 1000 → parse_seconds_millis (seconds_text s f) ≡ some (s * 1000 + f)
parse_seconds-text s f h k =
    after_split (seconds_text s f) (padded 2 s) (padded 3 f) (seconds-split s f)
    ∙ rw (parse_unsigned-padded 2 s (omega arith) (omega (arith, h)), parse_fraction-padded f k)
        (seconds_millis_lem s f h k)

total_millis_lem :
    (h m sec : ℕ)
    → m < 60
    → sec < 60000
    → h * 3600000 + m * 60000 + sec ≤ max_int64
    → total_millis h m sec ≡ some (h * 3600000 + m * 60000 + sec)
unfolding total_millis checked_mul checked_add
total_millis_lem h m sec a b c = ground arith

clock_text : ℕ → ℕ → ℕ → ℕ → Text
clock_text h m s f = padded 2 h ++ (b':' ∷ (padded 2 m ++ (b':' ∷ seconds_text s f)))

seconds-lacks : (s f : ℕ) → lacks b':' (seconds_text s f) ≡ true
unfolding seconds_text
seconds-lacks s f =
    all-append (λ c. not (c == b':')) (padded 2 s) (b'.' ∷ padded 3 f)
    ∙ rw (padded-lacks b':' 2 s refl, padded-lacks b':' 3 f refl) refl

seconds-plain : (s f : ℕ) → all is_plain (seconds_text s f) ≡ true
unfolding seconds_text
seconds-plain s f =
    all-append is_plain (padded 2 s) (b'.' ∷ padded 3 f)
    ∙ rw (padded-plain 2 s, padded-plain 3 f) refl

clock-plain : (h m s f : ℕ) → all is_plain (clock_text h m s f) ≡ true
unfolding clock_text
clock-plain h m s f =
    all-append is_plain (padded 2 h) _
    ∙ rw (padded-plain 2 h)
        (all-append is_plain (padded 2 m) _ ∙ rw (padded-plain 2 m, seconds-plain s f) refl)

clock-not_empty : (h m s f : ℕ) → is_empty (clock_text h m s f) ≡ false
unfolding clock_text
clock-not_empty h m s f = long (padded 2 h) _ (padded-not_empty 2 h (omega arith))
  where
    long : (a b : Text) → is_empty a ≡ false → is_empty (a ++ b) ≡ false
    long [] b e = unfold is_empty in absurd (cc e)
    long (c ∷ a) b e = unfold is_empty in refl

clock-split :
    (h m s f : ℕ)
    → split_by b':' (clock_text h m s f) ≡ padded 2 h ∷ padded 2 m ∷ seconds_text s f ∷ []
unfolding clock_text
clock-split h m s f =
    rw
      (
        split_by-append b':' (padded 2 h) (padded 2 m ++ (b':' ∷ seconds_text s f))
            (padded-lacks b':' 2 h refl),
        split_by-append b':' (padded 2 m) (seconds_text s f) (padded-lacks b':' 2 m refl),
        split_by-lacking b':' (seconds_text s f) (seconds-lacks s f),
      )
      refl

parse-clock :
    (h m s f : ℕ)
    → m < 60
    → s < 60
    → f < 1000
    → h * 3600000 + m * 60000 + (s * 1000 + f) ≤ max_int64
    → parse_timestamp (clock_text h m s f) ≡ some (h * 3600000 + m * 60000 + (s * 1000 + f))
unfolding parse_timestamp parse_parts
parse-clock h m s f a b c d =
    rw
      (
        trim_space-plain (clock_text h m s f) (clock-plain h m s f),
        clock-not_empty h m s f,
        plain-no_slash (clock_text h m s f) (clock-plain h m s f),
        clock-split h m s f,
        parse_unsigned-padded 2 h (omega arith) (omega (arith, d)),
        parse_unsigned-padded 2 m (omega arith) (omega (arith, a)),
        parse_seconds-text s f b c,
      )
      (total_millis_lem h m (s * 1000 + f) a (omega (arith, b, c)) d)

-- Every time stamp that is written, of any number of milliseconds that an int64 holds, is read back as
-- that number.
pub parse_timestamp-format_timestamp :
    (ms : ℕ) → ms ≤ max_int64 → parse_timestamp (format_timestamp ms) ≡ some ms
unfolding format_timestamp seconds_text clock_text
parse_timestamp-format_timestamp ms b =
    let total : ms / 3600000 * 3600000
          + ms % 3600000 / 60000 * 60000
          + (ms % 60000 / 1000 * 1000 + ms % 1000)
        ≡ ms =
      omega arith in
    parse-clock (ms / 3600000) (ms % 3600000 / 60000) (ms % 60000 / 1000) (ms % 1000) (omega arith)
      (omega arith) (omega arith) (omega (arith, total, b))
    ∙ ap some total
