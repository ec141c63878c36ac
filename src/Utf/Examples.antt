-- ===== src/Utf/Examples.antt =====
-- Inputs for utf.cpp.
use trn_actions.Prelude.{
  ℕ, ◌+◌, ◌≡◌, refl, Option, none, some, List, [], ◌∷◌, arith, Bytes, codes, length, replicate,
}
use trn_actions.Utf.Charset.{GState, initial_state, utf_init, utf8, iso8859_15, iso8859_15_himap}
use trn_actions.Utf.Decode.{byte_length_at, code_point_at}
use trn_actions.Utf.Text.{create_utf8_copy}
use trn_actions.Utf.Convert.{points, encode_all, AreShort}
use trn_actions.Utf.Copy.{create_utf8_copy-points}
use trn_actions.Utf.State.{IsConsistent, initial_state-IsConsistent, utf_init-IsConsistent}

latin9 : (utf_init (some (codes "ISO-8859-15")) none initial_state).1 ≡ iso8859_15
unfolding utf_init
latin9 = refl

-- The input is ISO-8859-15, in which the byte 0xA4 is the euro sign.
abbrev in_latin9 : GState
in_latin9 = (utf_init (some (codes "ISO-8859-15")) none initial_state).0

in_latin9-IsConsistent : IsConsistent in_latin9
in_latin9-IsConsistent =
    utf_init-IsConsistent (some (codes "ISO-8859-15")) none initial_state-IsConsistent

abbrev price : Bytes
price = b'5' ∷ 0xa4 ∷ []

abbrev gives_block : ℕ → Option Bytes
gives_block n = some (replicate n 0)

abbrev price_points : List ℕ
price_points = b'5' ∷ 0x20ac ∷ []

reads_price : points (length price) in_latin9 price ≡ some price_points
unfolding points utf_init code_point_at byte_length_at iso8859_15_himap
reads_price = refl

are_short : AreShort price_points
are_short = ground arith

abbrev block_five : Bytes
block_five = replicate 5 0

block_of_five : gives_block (length (encode_all price_points) + 1) ≡ some block_five
block_of_five = refl

create_utf8_copy-points_example :
    (copy : Bytes) × (create_utf8_copy in_latin9 gives_block (replicate 16 0) (some price)
      ≡ some (some copy))
    × (length copy + 1 ≡ length block_five)
    × (points (length copy) (record in_latin9 { in_set = utf8 }) copy ≡ some price_points)
create_utf8_copy-points_example =
    create_utf8_copy-points in_latin9 gives_block (replicate 16 0) block_five price price_points
      reads_price are_short (omega arith) block_of_five refl
