-- ===== src/Bits/Segments.antt =====
-- bits.cpp, rcln.cpp: the ranges that bits_to_rc writes, and how was_read_group reads them.
use trn_actions.Bits.{without_comma}
use trn_actions.Prelude.{
  ℕ, zero, suc, ◌≤◌, ◌≡◌, refl, sym, ap, ◌∙◌, Bool, true, false, not, List, [], ◌∷◌, ◌++◌,
  append_assoc, arith, Bytes, ltb, leb, ◌==◌, if◌then◌else◌, length, length-append, peek,
}
use trn_actions.StringAlgos.{is_digit, skip_while}
use trn_actions.StringAlgos.Split.{StopsAt}
use trn_actions.Url.RoundTrip.{peek-digits, length-print_number-pos}
use trn_actions.Newsrc.Numbers.{
  digits_value, print_number, print_number-IsDigit, digits_value-print_number,
}
use trn_actions.Newsrc.Edit.{read_loop, answer, was_read}
use trn_actions.Uudecode.Parts.{digits_value-append, atol-print_number_append, skip-print_number}

pub data Segment : Type 0 where
  range : ℕ → ℕ → Segment
  single : ℕ → Segment

-- Whether a number is read, as the loop of was_read_group decides it.
abbrev pub among : ℕ → List Segment → Bool
among a [] = false
among a (range m k ∷ segs) = if ltb a m then false else if leb a k then true else among a segs
among a (single m ∷ segs) = if ltb a m then false else if a == m then true else among a segs

abbrev pub segment_text : Segment → Bytes → Bytes
segment_text (range m k) rest = print_number m ++ (b'-' ∷ (print_number k ++ rest))
segment_text (single m) rest = print_number m ++ rest

-- With a comma before each but the first.
abbrev pub tail_text : List Segment → Bytes
tail_text [] = []
tail_text (s ∷ segs) = b',' ∷ segment_text s (tail_text segs)

abbrev pub line_text : List Segment → Bytes
line_text [] = []
line_text (s ∷ segs) = segment_text s (tail_text segs)

-- With a comma behind each.
abbrev pub commas_text : List Segment → Bytes
commas_text [] = []
commas_text (s ∷ segs) = segment_text s (b',' ∷ commas_text segs)

tail-StopsAt : (segs : List Segment) → StopsAt is_digit (tail_text segs)
tail-StopsAt [] = tt
tail-StopsAt (s ∷ segs) = refl

pub number_first : (n : ℕ) (rest : Bytes) → is_digit (peek (print_number n ++ rest)) ≡ true
number_first n rest =
    peek-digits (print_number n) rest (print_number-IsDigit n) (length-print_number-pos n)

pub skip_none : (p : ℕ → Bool) (s : Bytes) → p (peek s) ≡ false → skip_while p s ≡ s
unfolding skip_while
skip_none p [] h = refl
skip_none p (c ∷ s) h = rw h refl

skip-digit_first : (s : Bytes) → is_digit (peek s) ≡ true → skip_while (λ c. not (is_digit c)) s ≡ s
skip-digit_first s h = skip_none (λ c. not (is_digit c)) s (ap not h)

skip-tail :
    (segs : List Segment) → skip_while (λ c. not (is_digit c)) (tail_text segs) ≡ line_text segs
unfolding skip_while
skip-tail [] = refl
skip-tail (range m k ∷ segs) = skip-digit_first _ (number_first m _)
skip-tail (single m ∷ segs) = skip-digit_first _ (number_first m _)

pub value-append :
    (n : ℕ) (rest : Bytes) → StopsAt is_digit rest → digits_value 0 (print_number n ++ rest) ≡ n
value-append n rest stop =
    digits_value-append 0 (print_number n) rest (print_number-IsDigit n) stop
    ∙ digits_value-print_number n

read_loop-range :
    (f a m k : ℕ) (segs : List Segment)
    → read_loop (suc f) a (segment_text (range m k) (tail_text segs)) ≡ (
        if ltb a m
        then answer false
        else if leb a k
        then answer true
        else read_loop f a (line_text segs))
unfolding read_loop
read_loop-range f a m k segs =
    rw
      (
        number_first m (b'-' ∷ (print_number k ++ tail_text segs)),
        value-append m (b'-' ∷ (print_number k ++ tail_text segs)) refl,
        skip-print_number m (b'-' ∷ (print_number k ++ tail_text segs)) refl,
        atol-print_number_append k (tail_text segs) (tail-StopsAt segs),
        skip-print_number k (tail_text segs) (tail-StopsAt segs),
        skip-tail segs,
      )
      refl

tail-peek : (segs : List Segment) → (peek (tail_text segs) == b'-') ≡ false
tail-peek [] = refl
tail-peek (s ∷ segs) = refl

read_loop-single :
    (f a m : ℕ) (segs : List Segment)
    → read_loop (suc f) a (segment_text (single m) (tail_text segs)) ≡ (
        if ltb a m
        then answer false
        else if a == m
        then answer true
        else read_loop f a (line_text segs))
unfolding read_loop
read_loop-single f a m segs =
    rw
      (
        number_first m (tail_text segs),
        value-append m (tail_text segs) (tail-StopsAt segs),
        skip-print_number m (tail_text segs) (tail-StopsAt segs),
        tail-peek segs,
        skip-tail segs,
      )
      refl

if_answer :
    (p q : Bool) (r : Bool)
    → (if p then answer false else if q then answer true else answer r)
      ≡ answer (if p then false else if q then true else r)
if_answer true q r = refl
if_answer false true r = refl
if_answer false false r = refl

loop_end : (f a : ℕ) → read_loop f a [] ≡ answer false
unfolding read_loop
loop_end zero a = refl
loop_end (suc f) a = refl

pub read_loop-line_text :
    (f a : ℕ) (segs : List Segment)
    → length segs ≤ f
    → read_loop f a (line_text segs) ≡ answer (among a segs)
read_loop-line_text f a [] h = loop_end f a
read_loop-line_text zero a (s ∷ segs) h = absurd (omega arith)
read_loop-line_text (suc f) a (range m k ∷ segs) h =
    read_loop-range f a m k segs
    ∙ ap (λ r. if ltb a m then answer false else if leb a k then answer true else r)
        (read_loop-line_text f a segs (omega arith))
    ∙ if_answer (ltb a m) (leb a k) (among a segs)
read_loop-line_text (suc f) a (single m ∷ segs) h =
    read_loop-single f a m segs
    ∙ ap (λ r. if ltb a m then answer false else if a == m then answer true else r)
        (read_loop-line_text f a segs (omega arith))
    ∙ if_answer (ltb a m) (a == m) (among a segs)

segment_text-long : (s : Segment) (rest : Bytes) → suc (length rest) ≤ length (segment_text s rest)
segment_text-long (range m k) rest = omega (
  arith,
  length-append (print_number m) (b'-' ∷ (print_number k ++ rest)),
  length-append (print_number k) rest,
)
segment_text-long (single m) rest =
    omega (arith, length-append (print_number m) rest, length-print_number-pos m)

tail_text-long : (segs : List Segment) → length segs ≤ length (tail_text segs)
tail_text-long [] = omega arith
tail_text-long (s ∷ segs) = omega (arith, segment_text-long s (tail_text segs), tail_text-long segs)

line_text-long : (segs : List Segment) → length segs ≤ length (line_text segs)
line_text-long [] = omega arith
line_text-long (s ∷ segs) = omega (arith, segment_text-long s (tail_text segs), tail_text-long segs)

not_blank : (s : Bytes) → is_digit (peek s) ≡ true → (peek s == b' ') ≡ false
not_blank s h = ground (arith, h)

line-peek : (segs : List Segment) → (peek (line_text segs) == b' ') ≡ false
line-peek [] = refl
line-peek (range m k ∷ segs) =
    let rest = b'-' ∷ (print_number k ++ tail_text segs) in
    not_blank (print_number m ++ rest) (number_first m rest)
line-peek (single m ∷ segs) =
    not_blank (print_number m ++ tail_text segs) (number_first m (tail_text segs))

skip-blank :
    (segs : List Segment) → skip_while (λ c. c == b' ') (b' ' ∷ line_text segs) ≡ line_text segs
unfolding skip_while
skip-blank segs = skip_none (λ c. c == b' ') (line_text segs) (line-peek segs)

-- was_read_group reads a line of ranges, a blank before it, as the ranges say.
pub was_read-line_text :
    (a : ℕ) (segs : List Segment) → was_read (b' ' ∷ line_text segs) a ≡ answer (among a segs)
unfolding was_read
was_read-line_text a segs =
    ap (λ s. read_loop (suc (length (line_text segs))) a s) (skip-blank segs)
    ∙ read_loop-line_text (suc (length (line_text segs))) a segs
        (omega (arith, line_text-long segs))

without_comma-append :
    (s : Bytes) (c : ℕ) (rest : Bytes)
    → without_comma (s ++ (c ∷ rest)) ≡ s ++ without_comma (c ∷ rest)
unfolding without_comma
without_comma-append [] c rest = refl
without_comma-append (b ∷ []) c rest = refl
without_comma-append (b ∷ d ∷ s) c rest = ap (λ x. b ∷ x) (without_comma-append (d ∷ s) c rest)

abbrev shown : Segment → Bytes
shown (range m k) = print_number m ++ (b'-' ∷ print_number k)
shown (single m) = print_number m

segment_text-append : (s : Segment) (rest : Bytes) → segment_text s rest ≡ shown s ++ rest
segment_text-append (range m k) rest =
    sym (append_assoc (print_number m) (b'-' ∷ print_number k) rest)
segment_text-append (single m) rest = refl

without_comma-comma :
    (segs : List Segment) → without_comma (b',' ∷ commas_text segs) ≡ tail_text segs
unfolding without_comma
without_comma-comma [] = refl
without_comma-comma (s ∷ segs) =
    ap (λ x. without_comma (b',' ∷ x)) (segment_text-append s (b',' ∷ commas_text segs))
    ∙ without_comma-append (b',' ∷ shown s) b',' (commas_text segs)
    ∙ ap (λ x. b',' ∷ (shown s ++ x)) (without_comma-comma segs)
    ∙ ap (λ x. b',' ∷ x) (sym (segment_text-append s (tail_text segs)))

-- Taking the last comma back leaves the line.
pub without_comma-commas_text :
    (c : ℕ) (s : Segment) (segs : List Segment)
    → without_comma (c ∷ commas_text (s ∷ segs)) ≡ c ∷ line_text (s ∷ segs)
without_comma-commas_text c s segs =
    ap (λ x. without_comma (c ∷ x)) (segment_text-append s (b',' ∷ commas_text segs))
    ∙ without_comma-append (c ∷ shown s) b',' (commas_text segs)
    ∙ ap (λ x. c ∷ (shown s ++ x)) (without_comma-comma segs)
    ∙ ap (λ x. c ∷ x) (sym (segment_text-append s (tail_text segs)))
