-- ===== src/Newsrc/Agree.antt =====
-- addartnum and was_read_group of rcln.cpp agree on which numbers are read, and their loops end.
use trn_actions.Prelude.{
  ℕ, zero, suc, ◌≤◌, ◌<◌, ◌≡◌, refl, ◌⊎◌, inl, inr, Bool, true, false, not, [], ◌∷◌, arith, Bytes,
  ltb, ◌==◌, Bool-cases, length, peek,
}
use trn_actions.StringAlgos.{is_digit, skip_while}
use trn_actions.StringAlgos.Split.{length-skip_while-le, length-skip_while-lt}
use trn_actions.Newsrc.Numbers.{digits_value, atol}
use trn_actions.Newsrc.Edit.{
  le_ℤ, Place, Found, tail, scan, add_number, Answer, read_loop, was_read, already_read, insert_at,
  answer, write_number, start, edited, out_of_fuel, no_fuel, mbuf_size, unchanged, rewritten,
}

-- Both loops ended, with the same finding.
abbrev pub Agrees : Found → Answer → Type 0
Agrees already_read (answer true) = Unit {0}
Agrees (insert_at p) (answer false) = Unit {0}
Agrees _ _ = ⊥

length-tail-le : (s : Bytes) → length (tail s) ≤ length s
length-tail-le [] = omega arith
length-tail-le (c ∷ s) = omega arith

abbrev not_digit : ℕ → Bool
not_digit c = not (is_digit c)

-- Each round leaves less text.
shorter_single :
    (s : Bytes)
    → is_digit (peek s) ≡ true
    → length (skip_while not_digit (skip_while is_digit s)) < length s
shorter_single s h = omega (
  arith,
  length-skip_while-le not_digit (skip_while is_digit s),
  length-skip_while-lt is_digit s h refl,
)

shorter_ranged :
    (s : Bytes)
    → is_digit (peek s) ≡ true
    → length (skip_while not_digit (skip_while is_digit (tail (skip_while is_digit s)))) < length s
shorter_ranged s h = omega (
  arith,
  length-skip_while-le not_digit (skip_while is_digit (tail (skip_while is_digit s))),
  length-skip_while-le is_digit (tail (skip_while is_digit s)),
  length-tail-le (skip_while is_digit s),
  length-skip_while-lt is_digit s h refl,
)

peek_nil : (s : Bytes) → length s ≤ 0 → peek s ≡ 0
peek_nil [] h = refl
peek_nil (c ∷ s) h = absurd (omega arith)

scan-read_loop :
    (f a : ℕ) (p : Place) → length p.rest ≤ f → Agrees (scan f a p) (read_loop f a p.rest)
unfolding scan read_loop
scan-read_loop zero a p h = rw (peek_nil p.rest (omega arith)) tt
scan-read_loop (suc f) a p h = elim (Bool-cases (is_digit (peek p.rest))) [
  | inr e ↦ rw e tt
  | inl e ↦ elim (Bool-cases (ltb a (digits_value 0 p.rest))) [
    | inl below ↦ rw (e, below) tt
    | inr above ↦ elim (Bool-cases (peek (skip_while is_digit p.rest) == b'-')) [
      | inl dash ↦ elim (Bool-cases (le_ℤ a (atol (tail (skip_while is_digit p.rest))))) [
        | inl inside ↦ rw (e, above, dash, inside) tt
        | inr beyond ↦
            rw (e, above, dash, beyond)
              (scan-read_loop f a _ (omega (arith, shorter_ranged p.rest e)))
      ]
      | inr plain ↦ elim (Bool-cases (a == digits_value 0 p.rest)) [
        | inl same ↦ rw (e, above, plain, same) tt
        | inr other ↦
            rw (e, above, plain, other)
              (scan-read_loop f a _ (omega (arith, shorter_single p.rest e)))
      ]
    ]
  ]
]

-- On any text the loops of was_read_group and addartnum both end; the one reports a number as read
-- exactly when the other finds it and leaves the line alone, and as unread exactly when the other
-- adds it.
pub add_number-was_read :
    (nums : Bytes) (a : ℕ)
    → ((was_read nums a ≡ answer true) × (add_number nums a ≡ unchanged))
      ⊎ ((was_read nums a ≡ answer false)
          × (line : Bytes) × (size : ℕ) × (add_number nums a ≡ rewritten line size))
unfolding was_read add_number
add_number-was_read nums a =
    go (scan (length nums) a (start nums)) (read_loop (length nums) a s)
      (scan-read_loop (length nums) a (start nums) (length-skip_while-le (λ c. c == b' ') nums))
  where
    s : Bytes
    s = skip_while (λ c. c == b' ') nums

    go :
        (f : Found) (r : Answer)
        → Agrees f r
        → ((r ≡ answer true) × (edited a f ≡ unchanged))
          ⊎ ((r ≡ answer false) × (line : Bytes) × (size : ℕ) × (edited a f ≡ rewritten line size))
    go already_read (answer true) h = inl (refl, refl)
    go already_read (answer false) h = absurd h
    go already_read no_fuel h = absurd h
    go (insert_at p) (answer true) h = absurd h
    go (insert_at p) (answer false) h = inr (refl, write_number a p, mbuf_size p, refl)
    go (insert_at p) no_fuel h = absurd h
    go out_of_fuel (answer true) h = absurd h
    go out_of_fuel (answer false) h = absurd h
    go out_of_fuel no_fuel h = absurd h
