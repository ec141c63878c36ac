-- ===== src/Utf/Encode.antt =====
-- utf.cpp: writing a code point into a buffer, and the conversions built on it.
use trn_actions.Prelude.{
  ℕ, ◌+◌, ◌/◌, ◌%◌, ◌^◌, Option, none, some, [], ◌∷◌, Bytes, leb, if◌then◌else◌, get_or, set,
}
use trn_actions.Utf.Charset.{is_utf8, GState}

-- A continuation byte of the code point shifted right by `power`.
abbrev pub follow : ℕ → ℕ → ℕ
follow c power = c / power % 64 + 128

-- The buffer after the writes, and the returned length; `none` is the variable `it` read before it
-- is set. The last form writes s[3] twice, and leaves s[5] as it was.
unfoldable pub write_utf8 : Bytes → ℕ → Bytes × Option ℕ
write_utf8 s c =
    if leb c 0x7f
    then (set s 0 c, some 1)
    else if leb c 0x7ff
    then (set (set s 0 (c / 2 ^ 6 % 32 + 0xc0)) 1 (follow c 1), some 2)
    else if leb c 0xffff
    then (set (set (set s 0 (c / 2 ^ 12 % 32 + 0xe0)) 1 (follow c (2 ^ 6))) 2 (follow c 1), some 3)
    else if leb c 0x1fffff
    then (
      set (set (set (set s 0 (c / 2 ^ 18 % 32 + 0xf0)) 1 (follow c (2 ^ 12))) 2 (follow c (2 ^ 6)))
          3 (follow c 1),
      some 4,
    )
    else if leb c 0x3ffffff
    then (
      set
          (set
            (set (set (set s 0 (c / 2 ^ 24 % 32 + 0xf8)) 1 (follow c (2 ^ 18))) 2
              (follow c (2 ^ 12)))
            3 (follow c (2 ^ 6)))
          4 (follow c 1),
      some 5,
    )
    else if leb c 0x7fffffff
    then (
      set
          (set
            (set
              (set (set (set s 0 (c / 2 ^ 30 % 32 + 0xfc)) 1 (follow c (2 ^ 24))) 2
                (follow c (2 ^ 18)))
              3 (follow c (2 ^ 12)))
            3 (follow c (2 ^ 6)))
          4 (follow c 1),
      some 6,
    )
    else (s, none)

abbrev insert_utf8_at : Option Bytes → ℕ → Option Bytes × Option ℕ
insert_utf8_at none c = (none, some 0)
insert_utf8_at (some s) c = let (s', n) = write_utf8 s c in (some s', n)

abbrev write_table : Option Bytes → Bytes → ℕ → Bytes × Option ℕ
write_table none s c = (s, none)
write_table (some himap) s c = write_utf8 s (get_or himap (c % 128) 0)

unfoldable pub write_unicode : GState → Bytes → ℕ → Bytes × Option ℕ
unfolding write_utf8
write_unicode gs s c =
    if is_utf8 gs.in_set
    then write_utf8 s c
    else if leb c 0x7f
    then (set s 0 c, some 1)
    else write_table gs.himap_in s c

-- UTF-8 as it is defined, for code points of up to five bytes.
abbrev pub encode : ℕ → Bytes
encode c =
    if leb c 0x7f
    then c ∷ []
    else if leb c 0x7ff
    then (c / 2 ^ 6 + 0xc0) ∷ follow c 1 ∷ []
    else if leb c 0xffff
    then (c / 2 ^ 12 + 0xe0) ∷ follow c (2 ^ 6) ∷ follow c 1 ∷ []
    else if leb c 0x1fffff
    then (c / 2 ^ 18 + 0xf0) ∷ follow c (2 ^ 12) ∷ follow c (2 ^ 6) ∷ follow c 1 ∷ []
    else (c / 2 ^ 24 + 0xf8)
      ∷ follow c (2 ^ 18)
      ∷ follow c (2 ^ 12)
      ∷ follow c (2 ^ 6)
      ∷ follow c 1
      ∷ []
