-- ===== src/Export/Verify.antt =====
-- internal/export/verify.go: the check of a produced file against what was selected, from the probed
-- metadata of the source and of the output. Durations and stream indexes are not negative, as the
-- probe makes them; an identity is the triple that `streamIdentity` prints.
use videocutlist.Prelude.{
  ℕ, suc, ◌≡◌, ◌≤◌, ◌<◌, ◌+◌, ◌-◌, ◌*◌, ◌/◌, Bool, true, false, ◌&&◌, ◌||◌, Option, none, some,
  List, [], ◌∷◌, if◌then◌else◌, ltb, ◌==◌, any, all, count, arith,
}
use videocutlist.Prelude.Text.{Text, codes, text_eq, text_eq_iff}

pub record Stream : Type 0 where
  pub index : ℕ
  pub kind : Text
  pub language : Text
  pub channels : ℕ

pub data VerifyError : Type 0 where
  bad_duration forbidden_stream absent_stream missing_stream : VerifyError

abbrev pub max_ℕ : ℕ → ℕ → ℕ
max_ℕ a b = if ltb a b then b else a

abbrev pub min_ℕ : ℕ → ℕ → ℕ
min_ℕ a b = if ltb a b then a else b

unfoldable pub shortfall : ℕ → ℕ
shortfall expected = min_ℕ (max_ℕ 1500 (expected / 5)) (expected / 2)

unfoldable pub excess : ℕ → ℕ
excess expected = max_ℕ 1500 (expected * 12 / 5)

unfoldable pub is_implausible : ℕ → ℕ → Bool
unfolding shortfall excess
is_implausible duration expected =
    ltb 0 expected
    && (ltb duration (expected - shortfall expected) || ltb (expected + excess expected) duration)

unfoldable pub is_exportable : Stream → Bool
is_exportable s =
    text_eq s.kind (codes "video")
    || text_eq s.kind (codes "audio")
    || text_eq s.kind (codes "subtitle")

abbrev plain_language : Text → Text
plain_language l = if text_eq l (codes "und") then [] else l

unfoldable pub same_identity : Stream → Stream → Bool
same_identity s t =
    text_eq s.kind t.kind
    && text_eq (plain_language s.language) (plain_language t.language)
    && s.channels == t.channels

-- `byIndex`: the last stream with an index.
unfoldable pub stream_at : ℕ → List Stream → Option Stream
stream_at i [] = none
stream_at i (s ∷ ss) = elim (stream_at i ss) [
  | some t ↦ some t
  | none ↦ if s.index == i then some s else none
]

-- `actual[identity]--`, with the output streams not used up yet for the counts.
unfoldable pub use_up : Stream → List Stream → List Stream
use_up s [] = []
use_up s (t ∷ ts) = if same_identity s t then ts else t ∷ use_up s ts

unfoldable pub match_streams : List Stream → List ℕ → List Stream → Option VerifyError
unfolding use_up
match_streams source [] actual = none
match_streams source (i ∷ is) actual = elim (stream_at i source) [
  | none ↦ some absent_stream
  | some s ↦
      let rest = match_streams source is (use_up s actual) in
      if any (same_identity s) actual then rest else some missing_stream
]

-- `validateOutput` after the check of the container.
unfoldable pub validate_streams : ℕ → List Stream → List Stream → List ℕ → ℕ → Option VerifyError
unfolding is_implausible match_streams is_exportable
validate_streams duration output source selected expected =
    if duration == 0 || is_implausible duration expected
    then some bad_duration
    else if all is_exportable output
    then match_streams source selected output
    else some forbidden_stream

-- How many of the selected streams have an identity.
abbrev pub selected_like : Stream → List Stream → List ℕ → ℕ
selected_like x source [] = 0
selected_like x source (i ∷ is) = elim (stream_at i source) [
  | none ↦ selected_like x source is
  | some s ↦
      if same_identity x s then suc (selected_like x source is) else selected_like x source is
]

same_identity_iff :
    (s t x : Stream) → same_identity s t ≡ true → same_identity x t ≡ same_identity x s
unfolding same_identity
same_identity_iff s t x h = ground (
  arith,
  text_eq_iff s.kind t.kind,
  text_eq_iff (plain_language s.language) (plain_language t.language),
)

count-use_up :
    (x s : Stream) (ts : List Stream)
    → any (same_identity s) ts ≡ true
    → count (same_identity x) ts
      ≡ (if same_identity x s then 1 else 0) + count (same_identity x) (use_up s ts)
unfolding use_up
count-use_up x s [] h = cc
count-use_up x s (t ∷ ts) h = ground (arith, count-use_up x s ts, same_identity_iff s t x)

match-counts :
    (x : Stream) (source : List Stream) (selected : List ℕ) (actual : List Stream)
    → match_streams source selected actual ≡ none
    → selected_like x source selected ≤ count (same_identity x) actual
unfolding match_streams
match-counts x source [] actual h = omega arith
match-counts x source (i ∷ is) actual h =
    by_stream (stream_at i source) (λ s. match-counts x source is (use_up s actual)) h
  where
    by_stream :
        (found : Option Stream)
        → ((s : Stream)
            → match_streams source is (use_up s actual) ≡ none
            → selected_like x source is ≤ count (same_identity x) (use_up s actual))
        → elim found [
          | none ↦ some absent_stream
          | some s ↦
              if any (same_identity s) actual
              then match_streams source is (use_up s actual)
              else some missing_stream
        ]
          ≡ none
        → elim found [
          | none ↦ selected_like x source is
          | some s ↦
              if same_identity x s
              then suc (selected_like x source is)
              else selected_like x source is
        ]
          ≤ count (same_identity x) actual
    by_stream none rest q = absurd (cc q)
    by_stream (some s) rest q = ground (arith, q, rest s, count-use_up x s actual)

half-plausible :
    (duration expected : ℕ) → is_implausible duration expected ≡ false → expected ≤ 2 * duration
unfolding is_implausible shortfall
half-plausible duration expected h = ground (arith, h)

-- An output that is accepted is not empty, has at least half of the expected duration and only video,
-- audio and subtitle streams, and it has, for every type, language and channel count, at least as many
-- such streams as were selected.
pub validate_streams_complete :
    (duration : ℕ) (output source : List Stream) (selected : List ℕ) (expected : ℕ)
    → validate_streams duration output source selected expected ≡ none
    → (0 < duration)
      × (expected ≤ 2 * duration)
      × (all is_exportable output ≡ true)
      × ((x : Stream) → selected_like x source selected ≤ count (same_identity x) output)
unfolding validate_streams
validate_streams_complete duration output source selected expected h =
    let (d, p, e, m) =
      parts (duration == 0) (is_implausible duration expected) (all is_exportable output)
        (match_streams source selected output) h in
    (
      ground (arith, d),
      half-plausible duration expected p,
      e,
      λ x. match-counts x source selected output m,
    )
  where
    parts :
        (a b c : Bool) (r : Option VerifyError)
        → (if a || b then some bad_duration else if c then r else some forbidden_stream) ≡ none
        → (a ≡ false) × (b ≡ false) × (c ≡ true) × (r ≡ none)
    parts a b c r h = ground (arith, h)
