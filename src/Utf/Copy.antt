-- ===== src/Utf/Copy.antt =====
-- create_utf8_copy of utf.cpp keeps the code points of a string.
use trn_actions.Prelude.{
  ℕ, zero, suc, ◌+◌, ◌≤◌, ◌<◌, ◌≡◌, refl, Option, some, List, [], ◌∷◌, ◌++◌, arith, Bytes, length,
  drop, length-append,
}
use trn_actions.Utf.Charset.{GState, utf8}
use trn_actions.Utf.Decode.{utf8_length, byte_length_at, utf8_code_point, code_point_at}
use trn_actions.Utf.Encode.{encode}
use trn_actions.Utf.RoundTrip.{encode-ReadsBack}
use trn_actions.Utf.Lengths.{length-drop-lt}
use trn_actions.Utf.Text.{create_utf8_copy}
use trn_actions.Utf.Convert.{
  points, encode_all, AreShort, drop-append, length-encode, tally-encode_all, copy_pass-encode_all,
}

code_point_at-utf8 :
    (gs : GState) (t : Bytes)
    → gs.in_set ≡ utf8
    → code_point_at gs (some t) ≡ some (utf8_code_point t)
unfolding code_point_at
code_point_at-utf8 gs t known = rw known

byte_length_at-utf8 :
    (gs : GState) (t : Bytes) → gs.in_set ≡ utf8 → byte_length_at gs (some t) ≡ utf8_length t
unfolding byte_length_at
byte_length_at-utf8 gs t known = rw known

step_utf8 :
    (f p n : ℕ) (gs : GState) (t rest : Bytes) (ps : List ℕ)
    → 0 < length t
    → gs.in_set ≡ utf8
    → utf8_code_point t ≡ p
    → utf8_length t ≡ n
    → drop n t ≡ rest
    → points f gs rest ≡ some ps
    → points (suc f) gs t ≡ some (p ∷ ps)
unfolding points
step_utf8 f p n gs [] rest ps full known value size behind h = absurd (omega arith)
step_utf8 f p n gs (c ∷ s) rest ps full known value size behind h = rw (
  code_point_at-utf8 gs (c ∷ s) known,
  byte_length_at-utf8 gs (c ∷ s) known,
  value,
  size,
  behind,
  h,
)

points_utf8_step :
    (f p : ℕ) (gs : GState) (rest : Bytes) (ps : List ℕ)
    → gs.in_set ≡ utf8
    → p ≤ 0x3ffffff
    → points f gs rest ≡ some ps
    → points (suc f) gs (encode p ++ rest) ≡ some (p ∷ ps)
points_utf8_step f p gs rest ps known small h =
    let (value, size) = encode-ReadsBack p rest small in
    step_utf8 f p (length (encode p)) gs (encode p ++ rest) rest ps
      (omega (arith, length-append (encode p) rest, length-encode p)) known value size
      (drop-append (length (encode p)) (encode p) rest refl) h

points-encode_all :
    (ps : List ℕ) (f : ℕ) (gs : GState)
    → gs.in_set ≡ utf8
    → AreShort ps
    → length ps ≤ f
    → points f gs (encode_all ps) ≡ some ps
unfolding points
points-encode_all [] f gs known short room = ground arith
points-encode_all (p ∷ ps) zero gs known short room = absurd (omega arith)
points-encode_all (p ∷ ps) (suc f) gs known short room =
    points_utf8_step f p gs (encode_all ps) ps known short.0.1
      (points-encode_all ps f gs known short.1 (omega arith))

length-encode_all : (ps : List ℕ) → length ps ≤ length (encode_all ps)
length-encode_all [] = omega arith
length-encode_all (p ∷ ps) =
    omega (arith, length-append (encode p) (encode_all ps), length-encode p, length-encode_all ps)

-- Where the code points of a string, in the input charset, are non-zero and fit in five bytes, the
-- copy exists, fills the allocated block up to its last byte exactly, and reads as UTF-8 as the same
-- code points. `malloc` gives a block of the size that is asked for.
pub create_utf8_copy-points :
    (gs : GState) (malloc : ℕ → Option Bytes) (buf block s : Bytes) (ps : List ℕ)
    → points (length s) gs s ≡ some ps
    → AreShort ps
    → 5 ≤ length buf
    → malloc (length (encode_all ps) + 1) ≡ some block
    → length block ≡ length (encode_all ps) + 1
    → (copy : Bytes) × (create_utf8_copy gs malloc buf (some s) ≡ some (some copy))
      × (length copy + 1 ≡ length block)
      × (points (length copy) (record gs { in_set = utf8 }) copy ≡ some ps)
unfolding create_utf8_copy
create_utf8_copy-points gs malloc buf block s ps h short room alloc size = (
  encode_all ps,
  rw (
    tally-encode_all (length s) gs buf s ps room h short,
    alloc,
    copy_pass-encode_all (length s) gs block s ps (omega arith) h short,
  ),
  omega arith,
  points-encode_all ps (length (encode_all ps)) _ refl short (length-encode_all ps),
)

pub points-total_fuel :
    (f : ℕ) (gs : GState) (s : Bytes)
    → ((t : Bytes) → (p : ℕ) × (code_point_at gs (some t) ≡ some p))
    → length s ≤ f
    → (ps : List ℕ) × (points f gs s ≡ some ps)
unfolding points
points-total_fuel f gs [] some_point h = ([], ground arith)
points-total_fuel zero gs (c ∷ s) some_point h = absurd (omega arith)
points-total_fuel (suc f) gs (c ∷ s) some_point h =
    let (p, at) = some_point (c ∷ s) in
    let t = drop (byte_length_at gs (some (c ∷ s))) (c ∷ s) in
    let (ps, next_) = points-total_fuel f gs t some_point (omega (arith, length-drop-lt gs c s)) in
    (p ∷ ps, rw (at, next_))
