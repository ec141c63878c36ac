-- ===== src/Utf/Write.antt =====
-- The writes of insert_utf8_at of utf.cpp.
use trn_actions.Prelude.{
  ℕ, ◌+◌, ◌/◌, ◌%◌, ◌^◌, ◌≤◌, ◌<◌, ◌≡◌, refl, inl, inr, true, false, some, [], ◌∷◌, ◌++◌, arith,
  Bytes, leb, ◌==◌, Bool-cases, length, set, drop,
}
use trn_actions.Utf.Charset.{invalid_code_point}
use trn_actions.Utf.Decode.{utf8_code_point}
use trn_actions.Utf.Encode.{write_utf8, encode}

module _ (x y z u v : ℕ) where
  set1 : (s : Bytes) → 1 ≤ length s → set s 0 x ≡ x ∷ drop 1 s
  set1 [] h = absurd (omega arith)
  set1 (a ∷ s) h = refl

  set2 : (s : Bytes) → 2 ≤ length s → set (set s 0 x) 1 y ≡ x ∷ y ∷ drop 2 s
  set2 [] h = absurd (omega arith)
  set2 (a ∷ []) h = absurd (omega arith)
  set2 (a ∷ b ∷ s) h = refl

  set3 : (s : Bytes) → 3 ≤ length s → set (set (set s 0 x) 1 y) 2 z ≡ x ∷ y ∷ z ∷ drop 3 s
  set3 [] h = absurd (omega arith)
  set3 (a ∷ []) h = absurd (omega arith)
  set3 (a ∷ b ∷ []) h = absurd (omega arith)
  set3 (a ∷ b ∷ c ∷ s) h = refl

  set4 :
      (s : Bytes)
      → 4 ≤ length s
      → set (set (set (set s 0 x) 1 y) 2 z) 3 u ≡ x ∷ y ∷ z ∷ u ∷ drop 4 s
  set4 [] h = absurd (omega arith)
  set4 (a ∷ []) h = absurd (omega arith)
  set4 (a ∷ b ∷ []) h = absurd (omega arith)
  set4 (a ∷ b ∷ c ∷ []) h = absurd (omega arith)
  set4 (a ∷ b ∷ c ∷ d ∷ s) h = refl

  set5 :
      (s : Bytes)
      → 5 ≤ length s
      → set (set (set (set (set s 0 x) 1 y) 2 z) 3 u) 4 v ≡ x ∷ y ∷ z ∷ u ∷ v ∷ drop 5 s
  set5 [] h = absurd (omega arith)
  set5 (a ∷ []) h = absurd (omega arith)
  set5 (a ∷ b ∷ []) h = absurd (omega arith)
  set5 (a ∷ b ∷ c ∷ []) h = absurd (omega arith)
  set5 (a ∷ b ∷ c ∷ d ∷ []) h = absurd (omega arith)
  set5 (a ∷ b ∷ c ∷ d ∷ e ∷ s) h = refl

-- Into a buffer with room for it, the writes put the UTF-8 form of a code point of at most 26 bits
-- and leave the rest of the buffer as it was; the returned length is that form's.
pub write_utf8-encode :
    (c : ℕ) (s : Bytes)
    → c ≤ 0x3ffffff
    → length (encode c) ≤ length s
    → ((write_utf8 s c).0 ≡ encode c ++ drop (length (encode c)) s)
      × ((write_utf8 s c).1 ≡ some (length (encode c)))
unfolding write_utf8
write_utf8-encode c s h room = elim (Bool-cases (leb c 0x7f)) [
  | inl e1 ↦ rw e1 (set1 c 0 0 0 0 s (rw e1 at room), refl)
  | inr e1 ↦ elim (Bool-cases (leb c 0x7ff)) [
    | inl e2 ↦
        let lead : c / 2 ^ 6 % 32 ≡ c / 2 ^ 6 = ground arith in
        rw (e1, e2, lead) (set2 _ _ 0 0 0 s (rw (e1, e2) at room), refl)
    | inr e2 ↦ elim (Bool-cases (leb c 0xffff)) [
      | inl e3 ↦
          let lead : c / 2 ^ 12 % 32 ≡ c / 2 ^ 12 = ground arith in
          rw (e1, e2, e3, lead) (set3 _ _ _ 0 0 s (rw (e1, e2, e3) at room), refl)
      | inr e3 ↦ elim (Bool-cases (leb c 0x1fffff)) [
        | inl e4 ↦
            let lead : c / 2 ^ 18 % 32 ≡ c / 2 ^ 18 = ground arith in
            rw (e1, e2, e3, e4, lead) (set4 _ _ _ _ 0 s (rw (e1, e2, e3, e4) at room), refl)
        | inr e4 ↦
            let e5 : leb c 0x3ffffff ≡ true = ground arith in
            let lead : c / 2 ^ 24 % 32 ≡ c / 2 ^ 24 = ground arith in
            rw (e1, e2, e3, e4, e5, lead) (set5 _ _ _ _ _ s (rw (e1, e2, e3, e4) at room), refl)
      ]
    ]
  ]
]

unreadable :
    (a x y z u : ℕ) (rest : Bytes)
    → a < 2
    → utf8_code_point ((a + 0xfc) ∷ x ∷ y ∷ z ∷ u ∷ 0 ∷ rest) ≡ invalid_code_point
unfolding utf8_code_point
unreadable a x y z u rest h =
    let e1 : ((a + 0xfc) / 128 == 0) ≡ false = ground arith in
    let e2 : ((a + 0xfc) / 32 == 6) ≡ false = ground arith in
    let e3 : ((a + 0xfc) / 16 == 14) ≡ false = ground arith in
    let e4 : ((a + 0xfc) / 8 == 30) ≡ false = ground arith in
    let e5 : ((a + 0xfc) / 4 == 62) ≡ false = ground arith in
    let e6 : ((a + 0xfc) / 2 == 126) ≡ true = ground arith in
    rw (e1, e2, e3, e4, e5, e6) (ground arith)

-- A code point of 27 to 31 bits is reported as six bytes long, and its last byte is never written:
-- where the buffer held a zero there, what was written is no character.
pub write_utf8_six_bytes :
    (c b0 b1 b2 b3 b4 : ℕ) (rest : Bytes)
    → 0x3ffffff < c
    → c ≤ 0x7fffffff
    → ((write_utf8 (b0 ∷ b1 ∷ b2 ∷ b3 ∷ b4 ∷ 0 ∷ rest) c).1 ≡ some 6)
      × (utf8_code_point (write_utf8 (b0 ∷ b1 ∷ b2 ∷ b3 ∷ b4 ∷ 0 ∷ rest) c).0 ≡ invalid_code_point)
unfolding write_utf8
write_utf8_six_bytes c b0 b1 b2 b3 b4 rest lo hi =
    let e1 : leb c 0x7f ≡ false = ground arith in
    let e2 : leb c 0x7ff ≡ false = ground arith in
    let e3 : leb c 0xffff ≡ false = ground arith in
    let e4 : leb c 0x1fffff ≡ false = ground arith in
    let e5 : leb c 0x3ffffff ≡ false = ground arith in
    let e6 : leb c 0x7fffffff ≡ true = ground arith in
    rw (e1, e2, e3, e4, e5, e6) (refl, unreadable (c / 2 ^ 30 % 32) _ _ _ _ rest (omega arith))
