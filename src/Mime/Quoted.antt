-- ===== src/Mime/Quoted.antt =====
-- mime.cpp: what quoted-printable writes is read back, from a string and from a file.
use trn_actions.Prelude.{
  ℕ, ◌+◌, ◌*◌, ◌/◌, ◌%◌, ◌<◌, ◌≡◌, refl, ap, ap₂, ◌∙◌, ◌≢◌, Bool, true, false, not, ◌&&◌, some,
  List, [], ◌∷◌, arith, Bytes, ◌==◌, codes, get_or, All,
}
use trn_actions.Ranges.{passes_up_to, passes_at}
use trn_actions.Mime.{hex_value, index_hex, plain_byte, qp_decodestring, qp_loop, xx}

-- A hexadecimal digit as an encoder writes it.
abbrev pub hex_digit : ℕ → ℕ
hex_digit v = get_or (codes "0123456789ABCDEF") v 0

-- What an encoder may write: a byte as it is, a byte by its two digits, a blank as an underscore,
-- and a line break that stands for nothing.
pub data Piece : Type 0 where
  plain coded : ℕ → Piece
  underscored broken : Piece

abbrev pub print_piece : Piece → Bytes → Bytes
print_piece (plain c) rest = c ∷ rest
print_piece (coded c) rest = b'=' ∷ hex_digit (c / 16) ∷ hex_digit (c % 16) ∷ rest
print_piece underscored rest = b'_' ∷ rest
print_piece broken rest = b'=' ∷ 10 ∷ rest

abbrev pub piece_bytes : Piece → Bytes → Bytes
piece_bytes (plain c) rest = c ∷ rest
piece_bytes (coded c) rest = c ∷ rest
piece_bytes underscored rest = b' ' ∷ rest
piece_bytes broken rest = rest

abbrev pub print : List Piece → Bytes → Bytes
print [] rest = rest
print (p ∷ ps) rest = print_piece p (print ps rest)

abbrev pub said : List Piece → Bytes → Bytes
said [] rest = rest
said (p ∷ ps) rest = piece_bytes p (said ps rest)

-- In a header an underscore is a blank; outside of one it is itself. A carriage return cannot be
-- coded: the decoders drop it.
abbrev pub IsPiece : Bool → Piece → Type 0
IsPiece in_header (plain c) = (c ≢ b'=') × (in_header ≡ true → c ≢ b'_')
IsPiece in_header (coded c) = (c < 256) × (c ≢ 13)
IsPiece in_header underscored = in_header ≡ true
IsPiece in_header broken = Unit

abbrev digit_test : ℕ → Bool
digit_test v = index_hex (hex_digit v) == v && not (hex_digit v == 10)

digits_pass : passes_up_to digit_test 16 ≡ true
unfolding passes_up_to index_hex
digits_pass = refl

index_hex-hex_digit : (v : ℕ) → v < 16 → index_hex (hex_digit v) ≡ v
index_hex-hex_digit v h = ground (arith, passes_at digit_test 16 v h digits_pass)

hex_digit-ne-newline : (v : ℕ) → v < 16 → (hex_digit v == 10) ≡ false
hex_digit-ne-newline v h = ground (arith, passes_at digit_test 16 v h digits_pass)

hex_value-hex_digit :
    (c : ℕ) → c < 256 → hex_value (hex_digit (c / 16)) (hex_digit (c % 16)) ≡ some c
hex_value-hex_digit c h =
    rw (index_hex-hex_digit (c / 16) (omega arith), index_hex-hex_digit (c % 16) (omega arith))
      (ground arith)

hex_digit-IsDigit : (v : ℕ) → v < 16 → (index_hex (hex_digit v) == xx) ≡ false
hex_digit-IsDigit v h = ground (arith, index_hex-hex_digit v h)

hex_sum :
    (c : ℕ) → c < 256 → index_hex (hex_digit (c / 16)) * 16 + index_hex (hex_digit (c % 16)) ≡ c
hex_sum c h =
    omega (
      arith,
      index_hex-hex_digit (c / 16) (omega arith),
      index_hex-hex_digit (c % 16) (omega arith),
    )

qp_plain :
    (in_header : Bool) (c : ℕ) (f : Bytes)
    → c ≢ b'='
    → qp_decodestring in_header (c ∷ f) ≡ plain_byte in_header c ∷ qp_decodestring in_header f
unfolding qp_decodestring
qp_plain in_header c [] h = refl
qp_plain in_header c (d ∷ []) h = ground arith
qp_plain in_header c (d ∷ e ∷ f) h = ground arith

qp_broken :
    (in_header : Bool) (f : Bytes)
    → qp_decodestring in_header (b'=' ∷ 10 ∷ f) ≡ qp_decodestring in_header f
unfolding qp_decodestring
qp_broken in_header [] = refl
qp_broken in_header (e ∷ f) = refl

qp_coded :
    (in_header : Bool) (c : ℕ) (f : Bytes)
    → c < 256
    → c ≢ 13
    → qp_decodestring in_header (print_piece (coded c) f) ≡ c ∷ qp_decodestring in_header f
unfolding qp_decodestring
qp_coded in_header c f h k =
    rw (qp_decodestring, hex_digit-ne-newline (c / 16) (omega arith), hex_value-hex_digit c h)
      (ground arith)

-- What is written in pieces that the context allows, and then any text, is decoded to what the
-- pieces stand for, and then what that text is decoded to.
pub qp_decodestring-print :
    (in_header : Bool) (ps : List Piece) (rest : Bytes)
    → All (IsPiece in_header) ps
    → qp_decodestring in_header (print ps rest) ≡ said ps (qp_decodestring in_header rest)
qp_decodestring-print in_header [] rest h = refl
qp_decodestring-print in_header (plain c ∷ ps) rest ((ne, un), h) =
    qp_plain in_header c (print ps rest) ne
    ∙ ap₂ (λ d f. d ∷ f) (ground arith) (qp_decodestring-print in_header ps rest h)
qp_decodestring-print in_header (coded c ∷ ps) rest ((lt, ne), h) =
    qp_coded in_header c (print ps rest) lt ne
    ∙ ap (λ f. c ∷ f) (qp_decodestring-print in_header ps rest h)
qp_decodestring-print in_header (underscored ∷ ps) rest (e, h) =
    qp_plain in_header b'_' (print ps rest) (ground arith)
    ∙ ap₂ (λ d f. d ∷ f) (ground arith) (qp_decodestring-print in_header ps rest h)
qp_decodestring-print in_header (broken ∷ ps) rest (e, h) =
    qp_broken in_header (print ps rest) ∙ qp_decodestring-print in_header ps rest h

loop_plain : (c : ℕ) (f : Bytes) → c ≢ b'=' → qp_loop (c ∷ f) ≡ c ∷ qp_loop f
unfolding qp_loop
loop_plain c [] h = ground arith
loop_plain c (d ∷ []) h = ground arith
loop_plain c (d ∷ e ∷ f) h = ground arith

loop_broken : (f : Bytes) → qp_loop (b'=' ∷ 10 ∷ f) ≡ qp_loop f
unfolding qp_loop
loop_broken [] = refl
loop_broken (e ∷ f) = refl

loop_coded :
    (c : ℕ) (f : Bytes) → c < 256 → c ≢ 13 → qp_loop (print_piece (coded c) f) ≡ c ∷ qp_loop f
unfolding qp_loop
loop_coded c f h k =
    rw (qp_loop, hex_digit-ne-newline (c / 16) (omega arith))
      (rw (hex_digit-IsDigit (c / 16) (omega arith))
        (rw (hex_digit-IsDigit (c % 16) (omega arith)) (rw (hex_sum c h) (ground arith))))

-- The loop over a file decodes pieces that are allowed outside of a header likewise.
pub qp_loop-print :
    (ps : List Piece) (rest : Bytes)
    → All (IsPiece false) ps
    → qp_loop (print ps rest) ≡ said ps (qp_loop rest)
qp_loop-print [] rest h = refl
qp_loop-print (plain c ∷ ps) rest ((ne, un), h) =
    loop_plain c (print ps rest) ne ∙ ap (λ f. c ∷ f) (qp_loop-print ps rest h)
qp_loop-print (coded c ∷ ps) rest ((lt, ne), h) =
    loop_coded c (print ps rest) lt ne ∙ ap (λ f. c ∷ f) (qp_loop-print ps rest h)
qp_loop-print (underscored ∷ ps) rest (e, h) = ground (arith, e)
qp_loop-print (broken ∷ ps) rest (e, h) = loop_broken (print ps rest) ∙ qp_loop-print ps rest h

lone_sign : qp_loop (b'=' ∷ []) ≡ b'=' ∷ 255 ∷ []
unfolding qp_loop
lone_sign = refl

-- A file of pieces that ends in a lone equals sign is decoded to what they stand for, the sign and
-- the byte 255.
pub qp_loop-lone_sign :
    (ps : List Piece)
    → All (IsPiece false) ps
    → qp_loop (print ps (b'=' ∷ [])) ≡ said ps (b'=' ∷ 255 ∷ [])
qp_loop-lone_sign ps h = qp_loop-print ps (b'=' ∷ []) h ∙ ap (said ps) lone_sign
