-- ===== src/Projects/Digits.antt =====
-- Decimal digits as time stamps write and read them (internal/projects/interchange/interchange.go).
use videocutlist.Prelude.{
  ℕ, zero, suc, ◌≡◌, ◌≤◌, ◌<◌, ◌+◌, ◌-◌, ◌*◌, ◌/◌, refl, sym, ◌∙◌, true, false, some, [], ◌∷◌,
  if◌then◌else◌, ltb, ◌==◌, length, all, arith, Bool-cases, inl, inr, subst, ==_iff, le→leb,
}
use videocutlist.Prelude.Int.{max_int64}
use videocutlist.Prelude.Text.{Text, is_empty}
use videocutlist.Projects.Timestamps.{
  is_digit, parse_digits, parse_unsigned, digit, digits_onto, more_digits, width, padded,
}

-- `n` has at most `w` digits.
abbrev pub HasWidth : ℕ → ℕ → Type 0
HasWidth zero n = n ≡ 0
HasWidth (suc w) n = HasWidth w (n / 10)

abbrev pub pow10 : ℕ → ℕ
pow10 zero = 1
pow10 (suc k) = 10 * pow10 k

below_pow10 : (k n : ℕ) → n < pow10 k → HasWidth k n
below_pow10 zero n h = omega (arith, h)
below_pow10 (suc k) n h = below_pow10 k (n / 10) (omega (arith, h))

zero-HasWidth : (w : ℕ) → HasWidth w 0
zero-HasWidth zero = refl
zero-HasWidth (suc w) = zero-HasWidth w

wider : (k w n : ℕ) → k ≤ w → HasWidth k n → HasWidth w n
wider zero w n l h = subst (HasWidth w) (sym h) (zero-HasWidth w)
wider (suc k) zero n l h = absurd (omega (arith, l))
wider (suc k) (suc w) n l h = wider k w (n / 10) (omega (arith, l)) h

more_digits-HasWidth : (k n : ℕ) → HasWidth k n → HasWidth (more_digits k n 0) n
more_digits-HasWidth zero n h = h
more_digits-HasWidth (suc k) n h = elim (Bool-cases (n == 0)) [
  | inl e ↦ rw e (omega (arith, (==_iff n 0).0 e))
  | inr e ↦ rw e (more_digits-HasWidth k (n / 10) h)
]

more_digits-bound : (k j n : ℕ) → n < pow10 j → more_digits k n 0 ≤ j
more_digits-bound zero j n h = omega arith
more_digits-bound (suc k) zero n h = ground arith
more_digits-bound (suc k) (suc j) n h = ground (arith, more_digits-bound k j (n / 10))

digit-is_digit : (n : ℕ) → is_digit (digit n) ≡ true
digit-is_digit n = ground arith

digits_onto-all : (w n : ℕ) (s : Text) → all is_digit (digits_onto w n s) ≡ all is_digit s
unfolding digits_onto
digits_onto-all zero n s = refl
digits_onto-all (suc w) n s = digits_onto-all w (n / 10) _ ∙ rw (digit-is_digit n) refl

digits_onto-length : (w n : ℕ) (s : Text) → length (digits_onto w n s) ≡ w + length s
unfolding digits_onto
digits_onto-length zero n s = omega arith
digits_onto-length (suc w) n s = digits_onto-length w (n / 10) _ ∙ omega arith

parse-digits_onto :
    (w n : ℕ) (s : Text)
    → HasWidth w n
    → n ≤ max_int64
    → parse_digits 0 (digits_onto w n s) ≡ parse_digits n s
unfolding digits_onto parse_digits
parse-digits_onto zero n s h b = rw h refl
parse-digits_onto (suc w) n s h b = parse-digits_onto w (n / 10) _ h (omega (arith, b)) ∙ step n s b
  where
    step :
        (n : ℕ) (s : Text) → n ≤ max_int64 → parse_digits (n / 10) (digit n ∷ s) ≡ parse_digits n s
    step n s b =
        unfold parse_digits in
        let same : n / 10 * 10 + (digit n - b'0') ≡ n = omega arith in
        rw (digit-is_digit n, same, le→leb n max_int64 b) refl

-- The number of digits that are written.
width-HasWidth : (w n : ℕ) → n ≤ max_int64 → HasWidth (width w n) n
unfolding width
width-HasWidth w n b =
    let enough : HasWidth 20 n = below_pow10 20 n (omega (arith, b)) in
    let k = more_digits-HasWidth 20 n enough in
    elim (Bool-cases (ltb (more_digits 20 n 0) w)) [
      | inl less ↦ rw less (wider (more_digits 20 n 0) w n (ground (arith, less)) k)
      | inr more ↦ rw more k
    ]

at_least : (k w : ℕ) → w ≤ (if ltb k w then w else k)
at_least k w = ground arith

long-not_empty : (s : Text) → 0 < length s → is_empty s ≡ false
unfolding is_empty
long-not_empty [] h = absurd (omega (arith, h))
long-not_empty (c ∷ s) h = refl

pub padded-not_empty : (w n : ℕ) → 0 < w → is_empty (padded w n) ≡ false
unfolding padded width
padded-not_empty w n p =
    long-not_empty (padded w n)
      (omega (arith, digits_onto-length (width w n) n [], at_least (more_digits 20 n 0) w, p))

pub padded-all_digits : (w n : ℕ) → all is_digit (padded w n) ≡ true
unfolding padded
padded-all_digits w n = digits_onto-all (width w n) n []

pub padded-length : (w n : ℕ) → n < pow10 w → length (padded w n) ≡ w
unfolding padded width
padded-length w n h =
    digits_onto-length (width w n) n [] ∙ (let m = more_digits-bound 20 w n h in ground (arith, m))

pub parse_unsigned-padded : (w n : ℕ) → 0 < w → n ≤ max_int64 → parse_unsigned (padded w n) ≡ some n
unfolding parse_unsigned padded
parse_unsigned-padded w n p b =
    rw (padded-not_empty w n p) (parse-digits_onto (width w n) n [] (width-HasWidth w n b) b)
