-- ===== src/Util/Ends.antt =====
-- util.cpp: the loop of text2secs ends on every text.
use trn_actions.Prelude.{
  ℕ, zero, suc, ◌+◌, ◌*◌, ◌≤◌, ◌<◌, ◌≡◌, refl, inl, inr, true, ◌||◌, some, [], ◌∷◌, arith, Bytes,
  ◌==◌, Bool-cases, if_else, length, peek,
}
use trn_actions.StringAlgos.{is_digit, is_space, is_alpha, skip_while}
use trn_actions.StringAlgos.Split.{length-skip_while-le, length-skip_while-lt}
use trn_actions.Util.{items_loop, skip_comma, text2secs, one_item}

skip_comma-length : (s : Bytes) → length (skip_comma s) ≤ length s
skip_comma-length [] = omega arith
skip_comma-length (c ∷ s) = ground arith

one_item-shorter : (s : Bytes) → is_digit (peek s) ≡ true → length (one_item s).1 < length s
unfolding one_item
one_item-shorter s h =
    let digits = length-skip_while-lt is_digit s h refl in
    let blanks = length-skip_while-le is_space (skip_while is_digit s) in
    let t : Bytes = skip_while is_space (skip_while is_digit s) in
    let letters = length-skip_while-le is_alpha t in
    let comma = skip_comma-length (skip_while is_alpha t) in
    let after = length-skip_while-le is_space (skip_comma (skip_while is_alpha t)) in
    if_else (λ (r : ℕ × Bytes). length r.1 < length s) (is_alpha (peek t))
      (omega (arith, digits, blanks, letters, comma, after)) (omega (arith, digits, blanks))

items_loop_ends :
    (f secs : ℕ) (s : Bytes)
    → is_digit (peek s) ≡ true
    → length s ≤ f
    → (n : ℕ) × (items_loop f secs s ≡ some n)
unfolding items_loop
items_loop_ends zero secs [] h le = ground (arith, h)
items_loop_ends zero secs (c ∷ s) h le = absurd (omega arith)
items_loop_ends (suc f) secs s h le =
    let shorter : length (one_item s).1 < length s = one_item-shorter s h in
    elim (Bool-cases (is_digit (peek (one_item s).1))) [
      | inl e ↦
          rw e (items_loop_ends f (secs + (one_item s).0) (one_item s).1 e (omega (arith, shorter)))
      | inr e ↦ rw e (secs + (one_item s).0, refl)
    ]

-- text2secs ends on every text: the fuel, the length of the text, is enough.
pub text2secs_ends : (s : Bytes) (def_secs : ℕ) → (n : ℕ) × (text2secs s def_secs ≡ some n)
unfolding text2secs
text2secs_ends s def_secs = elim (Bool-cases (is_digit (peek s))) [
  | inl e ↦
      let (n, ends) = items_loop_ends (length s) 0 s e (omega arith) in rw (e, ends) (n * 60, refl)
  | inr e ↦ rw e (
      if_else (λ o. (n : ℕ) × (o ≡ some n)) (peek s == b'm' || peek s == b'M') (2, refl)
        (if_else (λ o. (n : ℕ) × (o ≡ some n)) (peek s == b'y' || peek s == b'Y') (def_secs, refl)
          (0, refl)))
]
