-- ===== src/Uudecode/Parts.antt =====
-- What uue_prescan makes of the lines that number the parts of a file.
use trn_actions.Prelude.{
  ℕ, ◌+◌, ◌-◌, ◌*◌, ◌^◌, ◌≤◌, ◌<◌, ◌≡◌, refl, ap, ◌∙◌, ◌≢◌, true, false, some, [], ◌∷◌, ◌++◌, arith,
  Bytes, ◌==◌, codes, peek, All,
}
use trn_actions.Int.{pos, ltb_ℤ, eq_ℤ}
use trn_actions.StringAlgos.{is_digit, skip_while}
use trn_actions.StringAlgos.Split.{StopsAt, skip_while-append}
use trn_actions.Newsrc.Numbers.{
  digits_value, atol, print_number, IsDigit, print_number-IsDigit, digits_value-print_number,
  to_int, atoi, to_int-pos, atol-digit_first,
}
use trn_actions.Url.RoundTrip.{peek-digits, length-print_number-pos}
use trn_actions.Uudecode.Prescan.{
  to_blank, Part, found, section_parts, other_lines, section, uue_prescan,
}

pub digits_value-append :
    (k : ℕ) (s rest : Bytes)
    → All IsDigit s
    → StopsAt is_digit rest
    → digits_value k (s ++ rest) ≡ digits_value k s
unfolding digits_value
digits_value-append k [] [] h stop = refl
digits_value-append k [] (c ∷ rest) h stop = rw stop refl
digits_value-append k (c ∷ s) rest h stop =
    rw h.0 (digits_value-append (k * 10 + (c - b'0')) s rest h.1 stop)

-- A printed number is read up to the first byte that is no digit.
pub atol-print_number_append :
    (n : ℕ) (rest : Bytes) → StopsAt is_digit rest → atol (print_number n ++ rest) ≡ pos n
atol-print_number_append n rest stop =
    atol-digit_first (print_number n ++ rest)
      (peek-digits (print_number n) rest (print_number-IsDigit n) (length-print_number-pos n))
    ∙ ap pos (
        digits_value-append 0 (print_number n) rest (print_number-IsDigit n) stop
        ∙ digits_value-print_number n)

pub atoi-print_number_append :
    (n : ℕ) (rest : Bytes)
    → n < 2 ^ 31
    → StopsAt is_digit rest
    → atoi (print_number n ++ rest) ≡ pos n
unfolding atoi
atoi-print_number_append n rest fits stop =
    ap to_int (atol-print_number_append n rest stop) ∙ to_int-pos n fits

pub skip-print_number :
    (n : ℕ) (rest : Bytes)
    → StopsAt is_digit rest
    → skip_while is_digit (print_number n ++ rest) ≡ rest
skip-print_number n rest stop =
    skip_while-append is_digit (print_number n) rest (print_number-IsDigit n) stop

to_blank-append :
    (name rest : Bytes)
    → All (λ c. c ≢ b' ') name
    → to_blank (name ++ b' ' ∷ rest) ≡ some (name, b' ' ∷ rest)
unfolding to_blank
to_blank-append [] rest h = refl
to_blank-append (c ∷ name) rest h =
    let other : (c == b' ') ≡ false = ground arith in rw (other, to_blank-append name rest h.1) refl

-- A line "section n/", a number and more is never taken for the start of a part, and nothing of it
-- is remembered: the total is read from the slash on and is 0. n is positive and fits in an int.
pub uue_prescan-section_slash :
    (size n d : ℕ) (text : Bytes) (p : Part)
    → 0 < n
    → n < 2 ^ 31
    → is_digit d ≡ true
    → uue_prescan size (codes "section " ++ (print_number n ++ b'/' ∷ d ∷ text)) p ≡ (false, p)
unfolding uue_prescan section
uue_prescan-section_slash size n d text p positive_n fits digit =
    let rest = b'/' ∷ d ∷ text in
    let first : is_digit (peek (print_number n ++ rest)) ≡ true =
      peek-digits (print_number n) rest (print_number-IsDigit n) (length-print_number-pos n) in
    let not_zero : eq_ℤ (pos n) (pos 0) ≡ false = ground arith in
    let too_large : ltb_ℤ (atoi rest) (pos n) ≡ true = unfold atoi skip_while in ground arith in
    rw
      (
        first,
        atoi-print_number_append n rest fits refl,
        skip-print_number n rest refl,
        not_zero,
        digit,
        too_large,
      )
      refl

abbrev pub file_text : Bytes → Bytes → Bytes
file_text name text = codes " File: " ++ (name ++ b' ' ∷ text)

-- The line "[Section: n/m File: name ..." gives the name and both numbers, where 0 < n and n ≤ m,
-- m fits in an int, and the name holds no blank.
pub uue_prescan-section_parts :
    (size n m : ℕ) (name text : Bytes) (p : Part)
    → 0 < n
    → n ≤ m
    → m < 2 ^ 31
    → All (λ c. c ≢ b' ') name
    → uue_prescan size
        (codes "[Section: " ++ (print_number n ++ b'/' ∷ (print_number m ++ file_text name text)))
        p
      ≡ found (some name) (pos n) (pos m)
unfolding uue_prescan other_lines section_parts
uue_prescan-section_parts size n m name text p positive_n within fits h =
    let behind_n = b'/' ∷ (print_number m ++ file_text name text) in
    let not_zero : eq_ℤ (pos n) (pos 0) ≡ false = ground arith in
    let in_range : ltb_ℤ (pos m) (pos n) ≡ false = ground arith in
    rw
      (
        atoi-print_number_append n behind_n (omega arith) refl,
        skip-print_number n behind_n refl,
        not_zero,
        atoi-print_number_append m (file_text name text) fits refl,
        skip-print_number m (file_text name text) refl,
        in_range,
      )
      (unfold skip_while in rw (to_blank-append name text h) refl)
