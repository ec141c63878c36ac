-- ===== src/Newsrc/Bounds.antt =====
-- rcln.cpp: how much longer addartnum makes a line, against the memory that it allocates.
use trn_actions.StringAlgos.Split.{length-skip_while-le}
use trn_actions.Prelude.{
  ℕ, zero, suc, ◌+◌, ◌-◌, ◌^◌, ◌≤◌, ◌<◌, min, max, ◌≡◌, refl, sym, ap, inl, inr, Bool, true, false,
  not, Option, none, some, [], ◌∷◌, ◌++◌, arith, Bytes, ltb, ◌==◌, Bool-cases, length, take,
  length-append, peek,
}
use trn_actions.Int.{ℤ, pos}
use trn_actions.StringAlgos.{is_digit, skip_while}
use trn_actions.Newsrc.Numbers.{digits_value, atol, print_number, length-print_number}
use trn_actions.Newsrc.Edit.{
  le_ℤ, Place, Found, tail, upto, scan, already_read, insert_at, out_of_fuel, next_number, set_last,
  append_place, extended, with_more, write_number, start, edited, add_number, mbuf_size, Edit,
  unchanged, rewritten, never_ended,
}

-- The text before a place and the text from it make up the line, and the saved position is before
-- the place.
abbrev SavedBefore : Option Bytes → ℕ → Type 0
SavedBefore none n = Unit {0}
SavedBefore (some s) n = length s ≤ n

record Fits (total : ℕ) (p : Place) : Type 0 where
  whole : length p.before + length p.rest ≡ total
  saved : SavedBefore p.before_max (length p.before)

abbrev FitsFound : ℕ → Found → Type 0
FitsFound total already_read = Unit {0}
FitsFound total (insert_at p) = Fits total p
FitsFound total out_of_fuel = Unit {0}

length-take-le : (n : ℕ) (s : Bytes) → n ≤ length s → length (take n s) ≡ n
length-take-le zero s h = refl
length-take-le (suc n) [] h = absurd (omega arith)
length-take-le (suc n) (c ∷ s) h = ap suc (length-take-le n s (omega arith))

length-upto : (s t : Bytes) → length t ≤ length s → length (upto s t) + length t ≡ length s
length-upto s t h = omega (arith, length-take-le (length s - length t) s (omega arith))

length-tail-le : (s : Bytes) → length (tail s) ≤ length s
length-tail-le [] = omega arith
length-tail-le (c ∷ s) = omega arith

abbrev not_digit : ℕ → Bool
not_digit c = not (is_digit c)

single-Fits :
    (total min : ℕ) (p : Place)
    → Fits total p
    → Fits total (
        next_number
          (record p { minimum = min; lastnum = pos min; before_max = none })
          (skip_while is_digit p.rest))
single-Fits total min p h =
    let t = skip_while not_digit (skip_while is_digit p.rest) in
    let shorter = length-skip_while-le not_digit (skip_while is_digit p.rest) in
    record {
      whole = omega (
        arith,
        length-append p.before (upto p.rest t),
        length-upto p.rest t (omega (arith, shorter, length-skip_while-le is_digit p.rest)),
        h.whole,
      );
      saved = tt;
    }

ranged-Fits :
    (total min : ℕ) (max : ℤ) (p : Place)
    → Fits total p
    → Fits total (
        next_number
          (record p {
            minimum = min;
            lastnum = max;
            before_max = some (p.before ++ upto p.rest (tail (skip_while is_digit p.rest)));
          })
          (skip_while is_digit (tail (skip_while is_digit p.rest))))
ranged-Fits total min max p h =
    let dash = skip_while is_digit p.rest in
    let t = skip_while not_digit (skip_while is_digit (tail dash)) in
    let after_dash : length (tail dash) ≤ length p.rest =
      omega (arith, length-tail-le dash, length-skip_while-le is_digit p.rest) in
    let later : length t ≤ length (tail dash) = omega (
      arith,
      length-skip_while-le not_digit (skip_while is_digit (tail dash)),
      length-skip_while-le is_digit (tail dash),
    ) in
    record {
      whole = omega (
        arith,
        length-append p.before (upto p.rest t),
        length-upto p.rest t (omega arith),
        h.whole,
      );
      saved = omega (
        arith,
        length-append p.before (upto p.rest t),
        length-append p.before (upto p.rest (tail dash)),
        length-upto p.rest t (omega arith),
        length-upto p.rest (tail dash) after_dash,
      );
    }

scan-Fits : (f a total : ℕ) (p : Place) → Fits total p → FitsFound total (scan f a p)
unfolding scan
scan-Fits zero a total p h = elim (Bool-cases (is_digit (peek p.rest))) [
  | inl e ↦ rw e tt
  | inr e ↦ rw e h
]
scan-Fits (suc f) a total p h = elim (Bool-cases (is_digit (peek p.rest))) [
  | inr e ↦ rw e h
  | inl e ↦ elim (Bool-cases (ltb a (digits_value 0 p.rest))) [
    | inl below ↦ rw (e, below) (record { whole = h.whole; saved = h.saved })
    | inr above ↦ elim (Bool-cases (peek (skip_while is_digit p.rest) == b'-')) [
      | inl dash ↦ elim (Bool-cases (le_ℤ a (atol (tail (skip_while is_digit p.rest))))) [
        | inl inside ↦ rw (e, above, dash, inside) tt
        | inr beyond ↦
            rw (e, above, dash, beyond) (scan-Fits f a total _ (ranged-Fits total _ _ p h))
      ]
      | inr plain ↦ elim (Bool-cases (a == digits_value 0 p.rest)) [
        | inl same ↦ rw (e, above, plain, same) tt
        | inr other ↦ rw (e, above, plain, other) (scan-Fits f a total _ (single-Fits total _ p h))
      ]
    ]
  ]
]

length-set_last : (c : ℕ) (s : Bytes) → length (set_last c s) ≡ length s
length-set_last c [] = refl
length-set_last c (d ∷ []) = refl
length-set_last c (d ∷ e ∷ s) = ap suc (length-set_last c (e ∷ s))

-- One more where a comma may be added, which is where no number follows.
abbrev room : Bool → ℕ
room true = 0
room false = 1

append_place-length :
    (a : ℕ) (p : Place)
    → length (append_place a p) ≤ length p.before + room (is_digit (peek p.rest))
unfolding append_place
append_place-length a p = elim (Bool-cases (is_digit (peek p.rest))) [
  | inl e ↦ rw e (ground (arith, length-set_last b'-' p.before))
  | inr e ↦ rw e (
      ground
        (arith, length-set_last b'-' (p.before ++ b',' ∷ []), length-append p.before (b',' ∷ [])))
]

extended-length :
    (a : ℕ) (p : Place) (o : Option Bytes)
    → SavedBefore o (length p.before)
    → length (extended a p o) ≤ length p.before + room (is_digit (peek p.rest))
extended-length a p none h = append_place-length a p
extended-length a p (some to_max) h = ground (arith, append_place-length a p)

with_more-length :
    (a k : ℕ) (p : Place) (base : Bytes)
    → length (print_number a) ≤ k
    → length (with_more a p base) ≤ length base + k + 1 + length p.rest
with_more-length a k p base h = ground (
  arith,
  length-append (base ++ (print_number a ++ b'-' ∷ [])) (tail (skip_while is_digit p.rest)),
  length-append (base ++ (print_number a ++ b'-' ∷ [])) p.rest,
  length-append base (tail (skip_while is_digit p.rest)),
  length-append base p.rest,
  length-append base (print_number a ++ b'-' ∷ []),
  length-append base (print_number a ++ b',' ∷ p.rest),
  length-append (print_number a) (b'-' ∷ []),
  length-append (print_number a) (b',' ∷ p.rest),
  length-tail-le (skip_while is_digit p.rest),
  length-skip_while-le is_digit p.rest,
)

write_number-length :
    (a k total : ℕ) (p : Place)
    → Fits total p
    → length (print_number a) ≤ k
    → length (write_number a p) ≤ total + k + 1
unfolding write_number
write_number-length a k total p h digits =
    let base = extended a p p.before_max in
    let short = extended-length a p p.before_max h.saved in
    elim (Bool-cases (is_digit (peek p.rest))) [
      | inl e ↦
          let short' : length base ≤ length p.before + 0 = rw e at short in
          rw e (omega (arith, with_more-length a k p base digits, h.whole))
      | inr e ↦
          let short' : length base ≤ length p.before + 1 = rw e at short in
          rw e (
            omega (
              arith,
              length-append base (print_number a ++ p.rest),
              length-append (print_number a) p.rest,
              h.whole,
            ))
    ]

abbrev rewritten_line : Bytes → Edit → Bytes
rewritten_line other unchanged = other
rewritten_line other (rewritten line size) = line
rewritten_line other never_ended = other

abbrev rewritten_size : ℕ → Edit → ℕ
rewritten_size other unchanged = other
rewritten_size other (rewritten line size) = size
rewritten_size other never_ended = other

-- Adding a number below 10 ^ 8, to any text, the new text and its terminator fit in the memory that
-- is allocated for them.
pub add_number-mbuf_size :
    (nums line : Bytes) (a size : ℕ)
    → a < 10 ^ 8
    → add_number nums a ≡ rewritten line size
    → length line + 1 ≤ size
unfolding add_number
add_number-mbuf_size nums line a size h e =
    go (scan (length nums) a (start nums))
      (scan-Fits (length nums) a (length nums) (start nums) begin) e
  where
    begin : Fits (length nums) (start nums)
    begin = record {
      whole = length-upto nums _ (length-skip_while-le (λ c. c == b' ') nums);
      saved = tt;
    }

    go :
        (f : Found)
        → FitsFound (length nums) f
        → edited a f ≡ rewritten line size
        → length line + 1 ≤ size
    go already_read fits e = cc
    go out_of_fuel fits e = cc
    go (insert_at p) fits e =
        let same_line : write_number a p ≡ line = ap (rewritten_line line) e in
        let same_size : mbuf_size p ≡ size = ap (rewritten_size size) e in
        let short =
          write_number-length a 8 (length nums) p fits (length-print_number a 8 h (omega arith)) in
        rw (sym same_line, sym same_size) (omega (arith, short, fits.whole))
