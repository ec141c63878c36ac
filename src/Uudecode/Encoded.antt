-- ===== src/Uudecode/Encoded.antt =====
-- What uudecode sees of an encoded line.
use trn_actions.Uudecode.{uulength}
use trn_actions.Prelude.{
  ℕ, ◌+◌, ◌*◌, ◌/◌, ◌%◌, ◌≤◌, ◌<◌, ◌≡◌, refl, ap, ◌≢◌, false, ◌||◌, some, [], ◌∷◌, arith, Bytes,
  ltb, ◌==◌, length, All,
}
use trn_actions.Uudecode.Lines.{enc, encode_groups, encode_line, length-encode_groups, encode_group}
use trn_actions.Uudecode.Stream.{Decoder, cut_return, on_active, is_end, next2last}

abbrev pub NoReturn : Bytes → Type 0
NoReturn = All (λ c. c ≢ 0x0d)

pub cut_return-NoReturn : (s : Bytes) → NoReturn s → cut_return s ≡ s
unfolding cut_return
cut_return-NoReturn [] h = refl
cut_return-NoReturn (c ∷ s) h =
    let other : (c == 0x0d) ≡ false = ground arith in
    rw other (ap (λ (t : Bytes). c ∷ t) (cut_return-NoReturn s h.1))

enc_ne : (v : ℕ) → enc v ≢ 0x0d
enc_ne v = ground arith

encode_group-NoReturn : (a b c : ℕ) (s : Bytes) → NoReturn s → NoReturn (encode_group a b c s)
encode_group-NoReturn a b c s h = (
  enc_ne (a / 4),
  (enc_ne (a % 4 * 16 + b / 16), (enc_ne (b % 16 * 4 + c / 64), (enc_ne (c % 64), h))),
)

encode_groups-NoReturn : (bs s : Bytes) → NoReturn s → NoReturn (encode_groups bs s)
unfolding encode_groups
encode_groups-NoReturn [] s h = h
encode_groups-NoReturn (a ∷ []) s h = encode_group-NoReturn a 0 0 s h
encode_groups-NoReturn (a ∷ b ∷ []) s h = encode_group-NoReturn a b 0 s h
encode_groups-NoReturn (a ∷ b ∷ c ∷ bs) s h =
    encode_group-NoReturn a b c (encode_groups bs s) (encode_groups-NoReturn bs s h)

pub cut_return-encode_line : (bs : Bytes) → cut_return (encode_line bs) ≡ encode_line bs
unfolding encode_line
cut_return-encode_line bs =
    cut_return-NoReturn (enc (length bs) ∷ encode_groups bs (0x0a ∷ []))
      (enc_ne (length bs), encode_groups-NoReturn bs (0x0a ∷ []) (ground arith, tt))

pub length-encode_line : (bs : Bytes) → length (encode_line bs) ≡ (length bs + 2) / 3 * 4 + 2
unfolding encode_line
length-encode_line bs = omega (arith, length-encode_groups bs (0x0a ∷ []))

not_end : (c : ℕ) (s : Bytes) → c ≢ b'e' → is_end (c ∷ s) ≡ false
not_end c s h = ground arith

-- A line of fewer bytes than a full one, but at least one, ends the active phase.
pub on_active-encode_line :
    (b : ℕ) (bs : Bytes) (d : Decoder)
    → length (b ∷ bs) < 45
    → length (encode_line (b ∷ bs)) ≤ d.line_length
    → on_active (encode_line (b ∷ bs)) d
      ≡ some (record d { lastline = encode_line (b ∷ bs); phase = next2last })
unfolding on_active encode_line
on_active-encode_line b bs d short room =
    let c = enc (length (b ∷ bs)) in
    let line = c ∷ encode_groups (b ∷ bs) (0x0a ∷ []) in
    let other : (c == b'M') ≡ false = ground arith in
    let fits : ltb d.line_length (length line) ≡ false = ground arith in
    let saved : ltb uulength (length line) ≡ false =
      ground (arith, short, length-encode_line (b ∷ bs)) in
    let goes_on_ : is_end line ≡ false =
      not_end c (encode_groups (b ∷ bs) (0x0a ∷ [])) (ground arith) in
    let full : (c == b' ' || c == 0x60) ≡ false = ground arith in
    rw (other, fits, saved, goes_on_, full) refl
