-- ===== src/Utf/Lengths.antt =====
-- The steps of the loops of utf.cpp stay inside the string.
use trn_actions.Prelude.{
  ℕ, zero, suc, ◌≤◌, ◌<◌, ◌≡◌, refl, ◌≢◌, true, false, some, [], ◌∷◌, arith, Bytes, length, get_or,
  drop,
}
use trn_actions.Utf.Charset.{Charset, is_double_byte, GState, ascii, utf8}
use trn_actions.Utf.Decode.{ok_at, utf8_length, byte_length_at}

get_or-lt : (s : Bytes) (i : ℕ) → get_or s i 0 ≢ 0 → i < length s
get_or-lt [] i h = absurd (h refl)
get_or-lt (c ∷ s) zero h = omega arith
get_or-lt (c ∷ s) (suc i) h = omega (arith, get_or-lt s i h)

ok_at-lt : (s : Bytes) (i : ℕ) → ok_at s i ≡ true → i < length s
ok_at-lt s i h = get_or-lt s i (λ e. ground arith)

utf8_length_bounds : (s : Bytes) → 0 < length s → (1 ≤ utf8_length s) × (utf8_length s ≤ length s)
unfolding utf8_length
utf8_length_bounds s h =
    ground (arith, ok_at-lt s 1, ok_at-lt s 2, ok_at-lt s 3, ok_at-lt s 4, ok_at-lt s 5)

not_double : (cs : Charset) → is_double_byte cs ≡ false
not_double ascii = refl
not_double utf8 = refl
not_double _ = refl

-- At any character of a string the step is at least one byte and never goes past the terminator,
-- whatever the bytes are.
pub byte_length_at_bounds :
    (gs : GState) (c : ℕ) (s : Bytes)
    → (1 ≤ byte_length_at gs (some (c ∷ s))) × (byte_length_at gs (some (c ∷ s)) ≤ length (c ∷ s))
unfolding byte_length_at
byte_length_at_bounds gs c s =
    rw (not_double gs.in_set) (ground (arith, utf8_length_bounds (c ∷ s), not_double gs.in_set))

pub length-drop-lt :
    (gs : GState) (c : ℕ) (s : Bytes)
    → length (drop (byte_length_at gs (some (c ∷ s))) (c ∷ s)) < length (c ∷ s)
length-drop-lt gs c s = go (byte_length_at gs (some (c ∷ s))) (byte_length_at_bounds gs c s).0
  where
    shorter : (n : ℕ) (t : Bytes) → length (drop n t) ≤ length t
    shorter zero t = omega arith
    shorter (suc n) [] = omega arith
    shorter (suc n) (x ∷ t) = omega (arith, shorter n t)

    go : (n : ℕ) → 1 ≤ n → length (drop n (c ∷ s)) < length (c ∷ s)
    go zero h = absurd (omega arith)
    go (suc n) h = omega (arith, shorter n s)
