-- ===== src/Uudecode.antt =====
-- uudecode.cpp: uudecodeline, which decodes one line of uuencoded text.
use trn_actions.Prelude.{
  ℕ, zero, suc, ◌+◌, ◌-◌, ◌*◌, ◌/◌, ◌%◌, Option, none, some, [], ◌∷◌, ◌++◌, Bytes, ltb, leb,
  if◌then◌else◌, length, take, replicate,
}
pub mod Encoded
pub mod Lines
pub mod Parts
pub mod Prescan
pub mod Stream
pub mod Begin
pub mod Whole
pub mod Direct
mod Examples

abbrev pub uulength : ℕ
uulength = 62

-- `DEC(c)`: a `char` is signed, and the mask of six bits forgets the sign.
abbrev pub dec : ℕ → ℕ
dec c = (c + 32) % 64

-- The bytes that putc gets. The bits on the two sides of each `|` are different ones.
abbrev pub first_byte : ℕ → ℕ → ℕ
first_byte a b = (dec a * 4 + dec b / 16) % 256

abbrev pub second_byte : ℕ → ℕ → ℕ
second_byte b c = (dec b * 16 + dec c / 4) % 256

abbrev pub third_byte : ℕ → ℕ → ℕ
third_byte c d = (dec c * 64 + dec d) % 256

abbrev pub put_three : ℕ → ℕ → ℕ → ℕ → Option Bytes → Option Bytes
put_three a b c d none = none
put_three a b c d (some out) = some (first_byte a b ∷ second_byte b c ∷ third_byte c d ∷ out)

-- The decoding loop, for the bytes that are left. `none` is a read behind the text.
unfoldable pub decode_groups : ℕ → Bytes → Option Bytes
decode_groups zero s = some []
decode_groups (suc zero) (a ∷ b ∷ s) = some (first_byte a b ∷ [])
decode_groups (suc (suc zero)) (a ∷ b ∷ c ∷ s) = some (first_byte a b ∷ second_byte b c ∷ [])
decode_groups (suc (suc (suc n))) (a ∷ b ∷ c ∷ d ∷ s) = put_three a b c d (decode_groups n s)
decode_groups n s = none

-- From the line's last byte on, blanks are put in up to the index `len`.
abbrev pub pad : ℕ → Bytes → Bytes
pad len line =
    if leb (length line - 1) len
    then take (length line - 1) line ++ replicate (len + 1 - (length line - 1)) b' '
    else line

abbrev pub expected : ℕ → ℕ
expected c = if ltb uulength ((dec c + 2) / 3 * 4) then uulength else (dec c + 2) / 3 * 4

abbrev pub decode_padded : Bytes → Option Bytes
decode_padded [] = none
decode_padded (c ∷ s) = decode_groups (dec c) s

-- What goes to the file. An empty line would be padded from before its start.
unfoldable pub uudecodeline : Bytes → Option Bytes
unfolding decode_groups
uudecodeline [] = none
uudecodeline (c ∷ line) = decode_padded (pad (expected c) (c ∷ line))
