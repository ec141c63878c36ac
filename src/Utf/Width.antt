-- ===== src/Utf/Width.antt =====
-- Display widths of utf.cpp.
use trn_actions.Prelude.{ℕ, ◌≤◌, ◌≡◌, ◌⊎◌, inl, inr, false, ◌||◌, arith, ◌==◌, if◌then◌else◌}
use trn_actions.Utf.Charset.{GState, utf8}
use trn_actions.Utf.Decode.{width_of, zero_width, double_width}

-- No character takes more than two columns.
pub width_of-le : (gs : GState) (c : ℕ) → width_of gs c ≤ 2
unfolding width_of
width_of-le gs c = ground arith

abbrev pub IsFormat : ℕ → Type 0
IsFormat c =
    ((0x200b ≤ c) × (c ≤ 0x200f)) ⊎ ((0x202a ≤ c) × (c ≤ 0x202e)) ⊎ ((0x2060 ≤ c) × (c ≤ 0x2064))

zero_width_format :
    (c : ℕ) → IsFormat c → zero_width c ≡ (c == 0x200b || (c == 0x202a || c == 0x2060))
unfolding zero_width
zero_width_format c (inl h) = ground arith
zero_width_format c (inr (inl h)) = ground arith
zero_width_format c (inr (inr h)) = ground arith

double_width_format : (c : ℕ) → IsFormat c → double_width c ≡ false
unfolding double_width
double_width_format c (inl h) = ground arith
double_width_format c (inr (inl h)) = ground arith
double_width_format c (inr (inr h)) = ground arith

-- In UTF-8, of the format characters that the comments of visual_width_at list by their names only
-- U+200B, U+202A and U+2060 take no column; the others of the three ranges take one.
pub width_of_format :
    (gs : GState) (c : ℕ)
    → gs.in_set ≡ utf8
    → IsFormat c
    → width_of gs c ≡ (if c == 0x200b || (c == 0x202a || c == 0x2060) then 0 else 1)
unfolding width_of
width_of_format gs c known h =
    rw (known, zero_width_format c h, double_width_format c h) (ground arith)
