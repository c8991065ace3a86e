-- ===== src/Prelude/Text.antt =====
-- Text as the list of its bytes, which is what a Go string is: equality, the order by bytes (that of
-- Go's `<` and of SQLite's binary collation) and the tests that the program makes of strings.
use Prim.Native.Nat.{ℕ, zero, suc}
use Prim.Native.Char.{code}
use Prim.Native.String.{String}
use mathlib.Core.Path.{◌≡◌, refl}
use mathlib.Core.Logic.{◌↔◌}
use mathlib.Core.Bool.{Bool, true, false, ◌&&◌, ◌||◌}
use mathlib.Core.List.{List, [], ◌∷◌}
use native.Mathlib.Omega.{arith}
use videocutlist.Prelude.Tests.{ltb, leb, ◌==◌}

abbrev pub Text : Type 0
Text = List ℕ

-- The bytes of an ASCII literal.
abbrev pub codes : String → Text
codes String.[] = []
codes (String.◌∷◌ c s) = code c ∷ codes s

unfoldable pub text_eq : Text → Text → Bool
text_eq [] [] = true
text_eq (a ∷ s) (b ∷ t) = a == b && text_eq s t
text_eq _ _ = false

pub text_eq_refl : (s : Text) → text_eq s s ≡ true
unfolding text_eq
text_eq_refl [] = refl
text_eq_refl (a ∷ s) = ground (arith, text_eq_refl s)

text_eq→eq : (s t : Text) → text_eq s t ≡ true → s ≡ t
unfolding text_eq
text_eq→eq [] [] h = refl
text_eq→eq (a ∷ s) (b ∷ t) h = ground (arith, text_eq→eq s t)
text_eq→eq [] (b ∷ t) h = cc
text_eq→eq (a ∷ s) [] h = cc

eq→text_eq : (s t : Text) → s ≡ t → text_eq s t ≡ true
eq→text_eq s t h = rw h (text_eq_refl t)

pub text_eq_iff : (s t : Text) → (text_eq s t ≡ true) ↔ (s ≡ t)
text_eq_iff s t = (text_eq→eq s t, eq→text_eq s t)

pub text_eq_comm : (s t : Text) → text_eq s t ≡ text_eq t s
text_eq_comm s t = ground (arith, text_eq_iff s t, text_eq_iff t s)

-- The order by bytes.
unfoldable pub text_ltb : Text → Text → Bool
text_ltb [] [] = false
text_ltb [] (b ∷ t) = true
text_ltb (a ∷ s) [] = false
text_ltb (a ∷ s) (b ∷ t) = ltb a b || (a == b && text_ltb s t)

pub text_ltb_irrefl : (s : Text) → text_ltb s s ≡ false
unfolding text_ltb
text_ltb_irrefl [] = refl
text_ltb_irrefl (a ∷ s) = ground (arith, text_ltb_irrefl s)

pub text_ltb_trans :
    (s t u : Text) → text_ltb s t ≡ true → text_ltb t u ≡ true → text_ltb s u ≡ true
unfolding text_ltb
text_ltb_trans [] [] u h k = cc
text_ltb_trans [] (b ∷ t) [] h k = cc
text_ltb_trans [] (b ∷ t) (c ∷ u) h k = refl
text_ltb_trans (a ∷ s) [] u h k = cc
text_ltb_trans (a ∷ s) (b ∷ t) [] h k = cc
text_ltb_trans (a ∷ s) (b ∷ t) (c ∷ u) h k = ground (arith, text_ltb_trans s t u)

pub text_ltb-total : (s t : Text) → text_ltb s t ≡ false → text_ltb t s ≡ false → s ≡ t
unfolding text_ltb
text_ltb-total [] [] h k = refl
text_ltb-total [] (b ∷ t) h k = cc
text_ltb-total (a ∷ s) [] h k = cc
text_ltb-total (a ∷ s) (b ∷ t) h k = ground (arith, text_ltb-total s t)

-- The set of bytes `[A-Za-z0-9_-]` of the identifier patterns.
unfoldable pub is_id_byte : ℕ → Bool
is_id_byte c =
    leb b'A' c && leb c b'Z'
    || leb b'a' c && leb c b'z'
    || leb b'0' c && leb c b'9'
    || c == b'_'
    || c == b'-'

-- `^[A-Za-z0-9_-]{lo,hi}$`
unfoldable pub matches_id : ℕ → ℕ → Text → Bool
unfolding is_id_byte
matches_id zero hi [] = true
matches_id (suc lo) hi [] = false
matches_id lo zero (c ∷ s) = false
matches_id zero (suc hi) (c ∷ s) = is_id_byte c && matches_id zero hi s
matches_id (suc lo) (suc hi) (c ∷ s) = is_id_byte c && matches_id lo hi s

-- `^x_[A-Za-z0-9_-]{lo,hi}$`, for the letter `x`
unfoldable pub matches_prefixed : ℕ → ℕ → ℕ → Text → Bool
unfolding matches_id
matches_prefixed x lo hi (a ∷ b ∷ s) = a == x && b == b'_' && matches_id lo hi s
matches_prefixed x lo hi _ = false

unfoldable pub is_empty : Text → Bool
is_empty [] = true
is_empty (_ ∷ _) = false
