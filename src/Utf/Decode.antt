-- ===== src/Utf/Decode.antt =====
-- utf.cpp: the length of the character at a pointer, its code point, and its display width.
use trn_actions.Prelude.{
  ℕ, ◌+◌, ◌*◌, ◌/◌, ◌%◌, ◌^◌, Bool, ◌&&◌, ◌||◌, Option, none, some, Bytes, ltb, leb, ◌==◌,
  if◌then◌else◌, length, get_or, peek,
}
use trn_actions.Utf.Charset.{
  invalid_code_point, charset_id, is_utf8, is_single_byte, is_double_byte, GState, ascii,
}

-- OK(s + i): a continuation byte. Past the terminator no byte is asked for, since `&&` stops there.
abbrev pub ok_at : Bytes → ℕ → Bool
ok_at s i = get_or s i 0 / 64 == 2

-- The length in UTF-8, or 1 for what is no character.
unfoldable pub utf8_length : Bytes → ℕ
utf8_length s =
    if peek s / 128 == 0
    then 1
    else if peek s / 32 == 6 && ok_at s 1
    then 2
    else if peek s / 16 == 14 && (ok_at s 1 && ok_at s 2)
    then 3
    else if peek s / 8 == 30 && (ok_at s 1 && (ok_at s 2 && ok_at s 3))
    then 4
    else if peek s / 4 == 62 && (ok_at s 1 && (ok_at s 2 && (ok_at s 3 && ok_at s 4)))
    then 5
    else if peek s / 2 == 126
        && (ok_at s 1 && (ok_at s 2 && (ok_at s 3 && (ok_at s 4 && ok_at s 5))))
    then 6
    else 1

unfoldable pub byte_length_at : GState → Option Bytes → ℕ
byte_length_at gs none = 0
byte_length_at gs (some s) =
    if is_utf8 gs.in_set
    then utf8_length s
    else if is_single_byte gs.in_set
    then 1
    else if is_double_byte gs.in_set
    then (if peek s / 128 % 2 == 1 then 2 else 1)
    else 1

-- NEXT(s[i], bits)
abbrev pub next : Bytes → ℕ → ℕ → ℕ
next s i power = get_or s i 0 % 64 * power

unfoldable pub utf8_code_point : Bytes → ℕ
utf8_code_point s =
    let n = length s in
    if ltb 0 n && peek s / 128 == 0
    then peek s
    else if ltb 1 n && (peek s / 32 == 6 && ok_at s 1)
    then peek s % 32 * 2 ^ 6 + next s 1 1
    else if ltb 2 n && (peek s / 16 == 14 && (ok_at s 1 && ok_at s 2))
    then peek s % 16 * 2 ^ 12 + next s 1 (2 ^ 6) + next s 2 1
    else if ltb 3 n && (peek s / 8 == 30 && (ok_at s 1 && (ok_at s 2 && ok_at s 3)))
    then peek s % 8 * 2 ^ 18 + next s 1 (2 ^ 12) + next s 2 (2 ^ 6) + next s 3 1
    else if ltb 4 n && (peek s / 4 == 62 && (ok_at s 1 && (ok_at s 2 && (ok_at s 3 && ok_at s 4))))
    then peek s % 4 * 2 ^ 24 + next s 1 (2 ^ 18) + next s 2 (2 ^ 12) + next s 3 (2 ^ 6) + next s 4 1
    else if ltb 5 n
        && (peek s / 2 == 126
            && (ok_at s 1 && (ok_at s 2 && (ok_at s 3 && (ok_at s 4 && ok_at s 5)))))
    then peek s % 2 * 2 ^ 30
      + next s 1 (2 ^ 24)
      + next s 2 (2 ^ 18)
      + next s 3 (2 ^ 12)
      + next s 4 (2 ^ 6)
      + next s 5 1
    else invalid_code_point

unfoldable pub table_code_point : Bytes → ℕ → ℕ
table_code_point himap b = if b / 128 == 1 then get_or himap (b % 128) 0 else b

unfoldable pub table_or_unset : Option Bytes → ℕ → Option ℕ
unfolding table_code_point
table_or_unset none b = none
table_or_unset (some himap) b = some (table_code_point himap b)

-- `none` is the variable `it` read before it is set, where the charset has no table.
unfoldable pub code_point_at : GState → Option Bytes → Option ℕ
unfolding table_or_unset utf8_code_point
code_point_at gs none = some invalid_code_point
code_point_at gs (some s) =
    if is_utf8 gs.in_set
    then some (utf8_code_point s)
    else if charset_id gs.in_set == charset_id ascii
    then some (peek s % 128)
    else table_or_unset gs.himap_in (peek s)

abbrev between : ℕ → ℕ → ℕ → Bool
between lo c hi = leb lo c && leb c hi

-- The tests of visual_width_at on a code point outside the single-byte and double-byte sets. The
-- lines for U+200B,
-- U+202A and U+2060 ask for equality with the first code point of their range.
unfoldable pub zero_width : ℕ → Bool
zero_width c =
    between 0x300 c 0x36f
    || (between 0x1ab0 c 0x1aff
        || (between 0x1dc0 c 0x1dff
            || ((c == 0x200b && leb c 0x200f)
                || ((c == 0x202a && leb c 0x202e) || (c == 0x2060 && leb c 0x2064)))))

unfoldable pub double_width : ℕ → Bool
double_width c =
    between 0x2e80 c 0x4dbf
    || (between 0x4e00 c 0x9fff
        || (between 0xfe30 c 0xfe4f
            || (between 0xff00 c 0xff60 || (between 0xffe0 c 0xffe6 || between 0x20000 c 0x2fa1f))))

unfoldable pub width_of : GState → ℕ → ℕ
width_of gs c =
    if c == invalid_code_point
    then 0
    else if is_single_byte gs.in_set
    then 1
    else if is_double_byte gs.in_set
    then (if c / 128 % 2 == 1 then 2 else 1)
    else if zero_width c
    then 0
    else if double_width c
    then 2
    else 1

abbrev pub map_option : (ℕ → ℕ) → Option ℕ → Option ℕ
map_option f none = none
map_option f (some n) = some (f n)

unfoldable pub visual_width_at : GState → Option Bytes → Option ℕ
unfolding width_of zero_width double_width code_point_at
visual_width_at gs s = map_option (width_of gs) (code_point_at gs s)
