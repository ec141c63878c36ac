-- ===== src/Newsrc/Numbers.antt =====
-- atol, atoi and the "%ld" of sprintf, on the numbers of a .newsrc line.
use trn_actions.Prelude.{
  ℕ, zero, suc, ◌+◌, ◌-◌, ◌*◌, ◌/◌, ◌%◌, ◌^◌, ◌≤◌, ◌<◌, ◌≡◌, refl, ◌∙◌, inl, inr, true, false, [],
  ◌∷◌, arith, Bytes, ltb, ◌==◌, if◌then◌else◌, Bool-cases, length, peek, All,
}
use trn_actions.Int.{ℤ, sub_ℕ, pos, negsuc}
use trn_actions.StringAlgos.{is_digit, is_space, skip_while}

unfoldable pub digits_value : ℕ → Bytes → ℕ
digits_value acc [] = acc
digits_value acc (c ∷ s) =
    let more = digits_value (acc * 10 + (c - b'0')) s in if is_digit c then more else acc

negate : ℕ → ℤ
negate n = sub_ℕ 0 n

signed_value : Bytes → ℤ
unfolding digits_value negate
signed_value [] = pos 0
signed_value (c ∷ s) =
    if c == b'-'
    then negate (digits_value 0 s)
    else if c == b'+'
    then pos (digits_value 0 s)
    else pos (digits_value 0 (c ∷ s))

-- Blanks, a sign, digits; the values of a line fit in a `long`.
unfoldable pub atol : Bytes → ℤ
unfolding signed_value skip_while
atol s = signed_value (skip_while is_space s)

-- The int that 32 bits stand for.
abbrev int_of : ℕ → ℤ
int_of w = if ltb w (2 ^ 31) then pos w else sub_ℕ w (2 ^ 32)

-- A long as an int: its low 32 bits.
unfoldable pub to_int : ℤ → ℤ
to_int (pos n) = int_of (n % 2 ^ 32)
to_int (negsuc n) = int_of (2 ^ 32 - 1 - n % 2 ^ 32)

unfoldable pub atoi : Bytes → ℤ
unfolding atol to_int
atoi s = to_int (atol s)

-- A number that fits in an int stays.
pub to_int-pos : (n : ℕ) → n < 2 ^ 31 → to_int (pos n) ≡ pos n
unfolding to_int
to_int-pos n h =
    let fits : n % 2 ^ 32 ≡ n = omega arith in
    let positive : ltb n (2 ^ 31) ≡ true = ground arith in rw (fits, positive) refl

print_loop : ℕ → ℕ → Bytes → Bytes
print_loop zero n acc = acc
print_loop (suc f) n acc =
    let more = print_loop f (n / 10) ((b'0' + n % 10) ∷ acc) in
    if ltb n 10 then (b'0' + n) ∷ acc else more

-- "%ld" of a number that is not negative
unfoldable pub print_number : ℕ → Bytes
unfolding print_loop
print_number n = print_loop (suc n) n []

print_loop-length :
    (f k n : ℕ) (acc : Bytes) → n < 10 ^ k → 0 < k → length (print_loop f n acc) ≤ k + length acc
unfolding print_loop
print_loop-length zero k n acc h some_digit = omega arith
print_loop-length (suc f) zero n acc h some_digit = absurd (omega arith)
print_loop-length (suc f) (suc zero) n acc h some_digit =
    let small : ltb n 10 ≡ true = ground arith in rw small (omega arith)
print_loop-length (suc f) (suc (suc k)) n acc h some_digit =
    ground (arith, print_loop-length f (suc k) (n / 10) ((b'0' + n % 10) ∷ acc))

-- A number of at most k digits prints in at most k bytes.
pub length-print_number : (n k : ℕ) → n < 10 ^ k → 0 < k → length (print_number n) ≤ k
unfolding print_number
length-print_number n k h some_digit = omega (arith, print_loop-length (suc n) k n [] h some_digit)

abbrev pub IsDigit : ℕ → Type 0
IsDigit c = is_digit c ≡ true

print_loop-IsDigit : (f n : ℕ) (acc : Bytes) → All IsDigit acc → All IsDigit (print_loop f n acc)
unfolding print_loop
print_loop-IsDigit zero n acc h = h
print_loop-IsDigit (suc f) n acc h = elim (Bool-cases (ltb n 10)) [
  | inl e ↦ rw e (ground arith, h)
  | inr e ↦ rw e (print_loop-IsDigit f (n / 10) ((b'0' + n % 10) ∷ acc) (ground arith, h))
]

pub print_number-IsDigit : (n : ℕ) → All IsDigit (print_number n)
unfolding print_number
print_number-IsDigit n = print_loop-IsDigit (suc n) n [] tt

digits_value-print_loop :
    (f n : ℕ) (acc : Bytes) → n < f → digits_value 0 (print_loop f n acc) ≡ digits_value n acc
unfolding print_loop digits_value
digits_value-print_loop zero n acc h = absurd (omega arith)
digits_value-print_loop (suc f) n acc h = elim (Bool-cases (ltb n 10)) [
  | inl e ↦
      let d : is_digit (b'0' + n) ≡ true = ground arith in
      let v : 0 * 10 + (b'0' + n - b'0') ≡ n = omega arith in rw (e, digits_value, d, v) refl
  | inr e ↦
      let d : is_digit (b'0' + n % 10) ≡ true = ground arith in
      let v : n / 10 * 10 + (b'0' + n % 10 - b'0') ≡ n = omega arith in
      rw e
        (digits_value-print_loop f (n / 10) ((b'0' + n % 10) ∷ acc) (ground arith) ∙ rw (d, v) refl)
]

-- Reading a printed number gives it back.
pub digits_value-print_number : (n : ℕ) → digits_value 0 (print_number n) ≡ n
unfolding print_number digits_value
digits_value-print_number n = digits_value-print_loop (suc n) n [] (omega arith)

pub atol-digit_first : (s : Bytes) → is_digit (peek s) ≡ true → atol s ≡ pos (digits_value 0 s)
unfolding atol
atol-digit_first [] h = cc
atol-digit_first (c ∷ s) h =
    let blank : is_space c ≡ false = ground arith in
    let minus : (c == b'-') ≡ false = ground arith in
    let plus : (c == b'+') ≡ false = ground arith in rw (blank, minus, plus) refl
