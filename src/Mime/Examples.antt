-- ===== src/Mime/Examples.antt =====
-- Inputs for the decoders of mime.cpp.
use trn_actions.Prelude.{
  ◌≡◌, refl, Bool, true, false, none, some, List, [], ◌∷◌, ◌++◌, arith, Bytes, codes, All,
}
use trn_actions.Uudecode.Stream.{done}
use trn_actions.Mime.{
  index_b64, decode_from, complete, next_group, qp_decodestring, b64_decode, index_hex, qp_decode,
  is_noise, qp_loop, b64_decodestring, Sink,
}
use trn_actions.Mime.Quoted.{
  Piece, print, said, IsPiece, qp_decodestring-print, qp_loop-lone_sign, plain, coded, underscored,
  broken,
}
use trn_actions.Mime.Base64.{encode, IsByte, without_noise, b64_decodestring-encode}
use trn_actions.Mime.Files.{decode_whole, b64_decode-encode, qp_decode-print}

header_text : qp_decodestring true (codes "a_=C3=A9=") ≡ b'a' ∷ b' ' ∷ 195 ∷ 169 ∷ b'=' ∷ []
unfolding qp_decodestring index_hex
header_text = refl

padded_text : b64_decodestring (codes "aGVs\nbG8=") ≡ codes "hello"
unfolding b64_decodestring decode_from index_b64 complete next_group
padded_text = refl

abbrev pieces : List Piece
pieces = plain b'a' ∷ broken ∷ coded b'=' ∷ []

pieces-Allowed : (in_header : Bool) → All (IsPiece in_header) pieces
pieces-Allowed in_header =
    ((ground arith, λ e. ground arith), (tt, ((omega arith, ground arith), tt)))

qp_decodestring-print_example :
    qp_decodestring true (print (underscored ∷ pieces) (codes "x"))
    ≡ said (underscored ∷ pieces) (qp_decodestring true (codes "x"))
qp_decodestring-print_example =
    qp_decodestring-print true (underscored ∷ pieces) (codes "x") (refl, pieces-Allowed true)

qp_loop-lone_sign_example : qp_loop (print pieces (codes "=")) ≡ codes "a==" ++ (255 ∷ [])
qp_loop-lone_sign_example = qp_loop-lone_sign pieces (pieces-Allowed false)

abbrev hello : Bytes
hello = codes "hello"

hello-AreBytes : All IsByte hello
hello-AreBytes = (omega arith, (omega arith, (omega arith, (omega arith, (omega arith, tt)))))

lines-Encode : without_noise (codes "aGVs\nbG8=") ≡ encode hello
unfolding is_noise index_b64
lines-Encode = refl

b64_decodestring-encode_example : b64_decodestring (codes "aGVs\nbG8=") ≡ hello
b64_decodestring-encode_example =
    b64_decodestring-encode hello (codes "aGVs\nbG8=") hello-AreBytes lines-Encode

abbrev nothing_open : Sink
nothing_open = record { ofp = none; closed = [] }

b64_decode-encode_example :
    decode_whole b64_decode (codes "aGVs\nbG8=") nothing_open
    ≡ some (done, record { ofp = none; closed = hello ∷ [] })
b64_decode-encode_example =
    b64_decode-encode hello (codes "aGVs\nbG8=") nothing_open hello-AreBytes lines-Encode

qp_decode-print_example :
    decode_whole qp_decode (print pieces []) nothing_open
    ≡ some (done, record { ofp = none; closed = codes "a=" ∷ [] })
qp_decode-print_example = qp_decode-print pieces nothing_open (pieces-Allowed false)
