-- ===== src/Uudecode/Lines.antt =====
-- uudecodeline inverts the encoding of a line.
use trn_actions.Prelude.{
  ℕ, ◌+◌, ◌-◌, ◌*◌, ◌/◌, ◌%◌, ◌≤◌, ◌<◌, ◌≡◌, refl, inl, inr, false, some, [], ◌∷◌, arith, Bytes,
  leb, ◌==◌, if◌then◌else◌, Bool-cases, length, All,
}
use trn_actions.Uudecode.{
  first_byte, third_byte, dec, second_byte, uudecodeline, expected, decode_groups,
}

-- Six bits as a character; zero is a grave accent.
abbrev pub enc : ℕ → ℕ
enc v = if v == 0 then 0x60 else v + 32

abbrev pub encode_group : ℕ → ℕ → ℕ → Bytes → Bytes
encode_group a b c s =
    enc (a / 4) ∷ enc (a % 4 * 16 + b / 16) ∷ enc (b % 16 * 4 + c / 64) ∷ enc (c % 64) ∷ s

-- Groups of three bytes, the last filled up with zeros, before `s`.
unfoldable pub encode_groups : Bytes → Bytes → Bytes
encode_groups [] s = s
encode_groups (a ∷ []) s = encode_group a 0 0 s
encode_groups (a ∷ b ∷ []) s = encode_group a b 0 s
encode_groups (a ∷ b ∷ c ∷ bs) s = encode_group a b c (encode_groups bs s)

unfoldable pub encode_line : Bytes → Bytes
encode_line bs = enc (length bs) ∷ encode_groups bs (0x0a ∷ [])

abbrev pub AreBytes : Bytes → Type 0
AreBytes = All (λ b. b < 256)

pub dec-enc : (v : ℕ) → v < 64 → dec (enc v) ≡ v
dec-enc v h = elim (Bool-cases (v == 0)) [
  | inl e ↦ rw e (ground arith)
  | inr e ↦ rw e (omega arith)
]

first_byte-enc :
    (a b : ℕ) → a < 256 → b < 256 → first_byte (enc (a / 4)) (enc (a % 4 * 16 + b / 16)) ≡ a
first_byte-enc a b h k =
    rw (dec-enc (a / 4) (omega arith), dec-enc (a % 4 * 16 + b / 16) (omega arith)) (omega arith)

second_byte-enc :
    (a b c : ℕ)
    → b < 256
    → c < 256
    → second_byte (enc (a % 4 * 16 + b / 16)) (enc (b % 16 * 4 + c / 64)) ≡ b
second_byte-enc a b c h k =
    rw (dec-enc (a % 4 * 16 + b / 16) (omega arith), dec-enc (b % 16 * 4 + c / 64) (omega arith))
      (omega arith)

third_byte-enc : (b c : ℕ) → c < 256 → third_byte (enc (b % 16 * 4 + c / 64)) (enc (c % 64)) ≡ c
third_byte-enc b c h =
    rw (dec-enc (b % 16 * 4 + c / 64) (omega arith), dec-enc (c % 64) (omega arith)) (omega arith)

decode_groups-encode_groups :
    (bs s : Bytes) → AreBytes bs → decode_groups (length bs) (encode_groups bs s) ≡ some bs
unfolding decode_groups encode_groups
decode_groups-encode_groups [] s h = refl
decode_groups-encode_groups (a ∷ []) s h = rw (first_byte-enc a 0 h.0 (omega arith)) refl
decode_groups-encode_groups (a ∷ b ∷ []) s h =
    rw (first_byte-enc a b h.0 h.1.0, second_byte-enc a b 0 h.1.0 (omega arith)) refl
decode_groups-encode_groups (a ∷ b ∷ c ∷ bs) s h =
    rw
      (
        decode_groups-encode_groups bs s h.1.1.1,
        first_byte-enc a b h.0 h.1.0,
        second_byte-enc a b c h.1.0 h.1.1.0,
        third_byte-enc b c h.1.1.0,
      )
      refl

pub length-encode_groups :
    (bs s : Bytes) → length (encode_groups bs s) ≡ (length bs + 2) / 3 * 4 + length s
unfolding encode_groups
length-encode_groups [] s = omega arith
length-encode_groups (a ∷ []) s = omega arith
length-encode_groups (a ∷ b ∷ []) s = omega arith
length-encode_groups (a ∷ b ∷ c ∷ bs) s = omega (arith, length-encode_groups bs s)

-- A line that holds at most 45 bytes is decoded to these bytes.
pub uudecodeline-encode_line :
    (bs : Bytes) → AreBytes bs → length bs ≤ 45 → uudecodeline (encode_line bs) ≡ some bs
unfolding uudecodeline encode_line
uudecodeline-encode_line bs h short =
    let n : dec (enc (length bs)) ≡ length bs = dec-enc (length bs) (omega arith) in
    let size = length-encode_groups bs (0x0a ∷ []) in
    let room : expected (enc (length bs)) ≡ (length bs + 2) / 3 * 4 = rw n (ground arith) in
    let whole : leb (length (enc (length bs) ∷ encode_groups bs (0x0a ∷ [])) - 1)
          (expected (enc (length bs)))
        ≡ false =
      rw room (ground arith) in
    rw (whole, n) (decode_groups-encode_groups bs (0x0a ∷ []) h)
