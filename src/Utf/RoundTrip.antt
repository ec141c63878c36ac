-- ===== src/Utf/RoundTrip.antt =====
-- What utf.cpp writes for a code point is read back as that code point.
use trn_actions.Prelude.{
  ℕ, ◌+◌, ◌*◌, ◌/◌, ◌%◌, ◌^◌, ◌≤◌, ◌<◌, ◌≡◌, subst, inl, inr, ◌∷◌, ◌++◌, arith, Bytes, leb, leb→le,
  Bool-cases, length,
}
use trn_actions.Utf.Encode.{follow, encode}
use trn_actions.Utf.Decode.{utf8_length, utf8_code_point}

abbrev pub ReadsBack : Bytes → ℕ → ℕ → Type 0
ReadsBack s c n = (utf8_code_point s ≡ c) × (utf8_length s ≡ n)

-- The forms of one to five bytes, in terms of the payloads of the bytes.

read2 :
    (a b : ℕ) (rest : Bytes)
    → a < 32
    → b < 64
    → ReadsBack ((a + 192) ∷ (b + 128) ∷ rest) (a * 64 + b) 2
unfolding utf8_code_point utf8_length
read2 a b rest ha hb = ground arith

read3 :
    (a b d : ℕ) (rest : Bytes)
    → a < 16
    → b < 64
    → d < 64
    → ReadsBack ((a + 224) ∷ (b + 128) ∷ (d + 128) ∷ rest) (a * 4096 + b * 64 + d) 3
unfolding utf8_code_point utf8_length
read3 a b d rest ha hb hd = ground arith

read4 :
    (a b d e : ℕ) (rest : Bytes)
    → a < 8
    → b < 64
    → d < 64
    → e < 64
    → ReadsBack
        ((a + 240) ∷ (b + 128) ∷ (d + 128) ∷ (e + 128) ∷ rest)
        (a * 262144 + b * 4096 + d * 64 + e)
        4
unfolding utf8_code_point utf8_length
read4 a b d e rest ha hb hd he = ground arith

read5 :
    (a b d e g : ℕ) (rest : Bytes)
    → a < 4
    → b < 64
    → d < 64
    → e < 64
    → g < 64
    → ReadsBack
        ((a + 248) ∷ (b + 128) ∷ (d + 128) ∷ (e + 128) ∷ (g + 128) ∷ rest)
        (a * 16777216 + b * 262144 + d * 4096 + e * 64 + g)
        5
unfolding utf8_code_point utf8_length
read5 a b d e g rest ha hb hd he hg = ground arith

read1 : (c : ℕ) (rest : Bytes) → c < 128 → ReadsBack (c ∷ rest) c 1
unfolding utf8_code_point utf8_length
read1 c rest h = ground arith

-- The payload form of each encoding, and the value that the payloads add up to.
as_read2 :
    (c : ℕ) (rest : Bytes) → c ≤ 0x7ff → ReadsBack ((c / 2 ^ 6 + 0xc0) ∷ follow c 1 ∷ rest) c 2
as_read2 c rest h =
    let value : c / 2 ^ 6 * 64 + c / 1 % 64 ≡ c = omega arith in
    subst (λ v. ReadsBack ((c / 2 ^ 6 + 0xc0) ∷ follow c 1 ∷ rest) v 2) value
      (read2 (c / 2 ^ 6) (c / 1 % 64) rest (omega arith) (omega arith))

as_read3 :
    (c : ℕ) (rest : Bytes)
    → c ≤ 0xffff
    → ReadsBack ((c / 2 ^ 12 + 0xe0) ∷ follow c (2 ^ 6) ∷ follow c 1 ∷ rest) c 3
as_read3 c rest h =
    let value : c / 2 ^ 12 * 4096 + c / 2 ^ 6 % 64 * 64 + c / 1 % 64 ≡ c = omega arith in
    subst (λ v. ReadsBack ((c / 2 ^ 12 + 0xe0) ∷ follow c (2 ^ 6) ∷ follow c 1 ∷ rest) v 3) value
      (read3 (c / 2 ^ 12) (c / 2 ^ 6 % 64) (c / 1 % 64) rest (omega arith) (omega arith)
        (omega arith))

as_read4 :
    (c : ℕ) (rest : Bytes)
    → c ≤ 0x1fffff
    → ReadsBack ((c / 2 ^ 18 + 0xf0) ∷ follow c (2 ^ 12) ∷ follow c (2 ^ 6) ∷ follow c 1 ∷ rest) c 4
as_read4 c rest h =
    let value : c / 2 ^ 18 * 262144 + c / 2 ^ 12 % 64 * 4096 + c / 2 ^ 6 % 64 * 64 + c / 1 % 64
        ≡ c =
      omega arith in
    subst
      (λ v.
        ReadsBack ((c / 2 ^ 18 + 0xf0) ∷ follow c (2 ^ 12) ∷ follow c (2 ^ 6) ∷ follow c 1 ∷ rest) v
          4)
      value
      (read4 (c / 2 ^ 18) (c / 2 ^ 12 % 64) (c / 2 ^ 6 % 64) (c / 1 % 64) rest (omega arith)
        (omega arith) (omega arith) (omega arith))

as_read5 :
    (c : ℕ) (rest : Bytes)
    → c ≤ 0x3ffffff
    → ReadsBack
        ((c / 2 ^ 24 + 0xf8)
          ∷ follow c (2 ^ 18)
          ∷ follow c (2 ^ 12)
          ∷ follow c (2 ^ 6)
          ∷ follow c 1
          ∷ rest)
        c
        5
as_read5 c rest h =
    let value : c / 2 ^ 24 * 16777216
          + c / 2 ^ 18 % 64 * 262144
          + c / 2 ^ 12 % 64 * 4096
          + c / 2 ^ 6 % 64 * 64
          + c / 1 % 64
        ≡ c =
      omega arith in
    subst
      (λ v.
        ReadsBack
          ((c / 2 ^ 24 + 0xf8)
            ∷ follow c (2 ^ 18)
            ∷ follow c (2 ^ 12)
            ∷ follow c (2 ^ 6)
            ∷ follow c 1
            ∷ rest)
          v 5)
      value
      (read5 (c / 2 ^ 24) (c / 2 ^ 18 % 64) (c / 2 ^ 12 % 64) (c / 2 ^ 6 % 64) (c / 1 % 64) rest
        (omega arith) (omega arith) (omega arith) (omega arith) (omega arith))

pub encode-ReadsBack :
    (c : ℕ) (rest : Bytes) → c ≤ 0x3ffffff → ReadsBack (encode c ++ rest) c (length (encode c))
encode-ReadsBack c rest h = elim (Bool-cases (leb c 0x7f)) [
  | inl e1 ↦ rw e1 (read1 c rest (ground arith))
  | inr e1 ↦ elim (Bool-cases (leb c 0x7ff)) [
    | inl e2 ↦ rw (e1, e2) (as_read2 c rest (leb→le _ _ e2))
    | inr e2 ↦ elim (Bool-cases (leb c 0xffff)) [
      | inl e3 ↦ rw (e1, e2, e3) (as_read3 c rest (leb→le _ _ e3))
      | inr e3 ↦ elim (Bool-cases (leb c 0x1fffff)) [
        | inl e4 ↦ rw (e1, e2, e3, e4) (as_read4 c rest (leb→le _ _ e4))
        | inr e4 ↦ rw (e1, e2, e3, e4) (as_read5 c rest h)
      ]
    ]
  ]
]
