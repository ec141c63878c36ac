-- ===== src/Newsrc/Edit.antt =====
-- addartnum and was_read_group of rcln.cpp: finding an article number in the text, and adding it.
use trn_actions.Prelude.{
  ℕ, zero, suc, ◌+◌, ◌-◌, Bool, true, false, not, ◌&&◌, Option, none, some, [], ◌∷◌, ◌++◌, Bytes,
  ltb, leb, ◌==◌, if◌then◌else◌, length, take, peek,
}
use trn_actions.Int.{ℤ, pos, negsuc}
use trn_actions.StringAlgos.{is_digit, skip_while}
use trn_actions.Newsrc.Numbers.{digits_value, atol, print_number}

abbrev pub le_ℤ : ℕ → ℤ → Bool
le_ℤ n (pos m) = leb n m
le_ℤ n (negsuc m) = false

-- What addartnum knows at `s`: the text before it, the text from it, the last `min` that was read,
-- `lastnum`, and the text before `maxt` where the last number was a range.
pub record Place : Type 0 where
  pub before : Bytes
  pub rest : Bytes
  pub minimum : ℕ
  pub lastnum : ℤ
  pub before_max : Option Bytes

pub data Found : Type 0 where
  already_read : Found
  insert_at : Place → Found
  out_of_fuel : Found

abbrev pub tail : Bytes → Bytes
tail [] = []
tail (c ∷ s) = s

-- the text from `s` up to the later pointer `t`
abbrev pub upto : Bytes → Bytes → Bytes
upto s t = take (length s - length t) s

-- `while (*t && !isdigit(*t)) t++; s = t;`
abbrev pub next_number : Place → Bytes → Place
next_number p t =
    let s' = skip_while (λ c. not (is_digit c)) t in
    record p { before = p.before ++ upto p.rest s'; rest = s' }

-- The loop of addartnum. `t` is behind the number at `s`, and `q` knows its value.
unfoldable pub scan : ℕ → ℕ → Place → Found
scan zero a p = if is_digit (peek p.rest) then out_of_fuel else insert_at p
scan (suc f) a p =
    let min = digits_value 0 p.rest in
    let q = record p { minimum = min } in
    let t = skip_while is_digit p.rest in
    let max = atol (tail t) in
    let ranged = scan f a (
      next_number (record q { lastnum = max; before_max = some (p.before ++ upto p.rest (tail t)) })
        (skip_while is_digit (tail t))) in
    let single = scan f a (next_number (record q { lastnum = pos min; before_max = none }) t) in
    if not (is_digit (peek p.rest))
    then insert_at p
    else if ltb a min
    then insert_at q
    else if peek t == b'-'
    then (if le_ℤ a max then already_read else ranged)
    else if a == min
    then already_read
    else single

abbrev pub last_char : Bytes → ℕ
last_char [] = b':'
last_char (c ∷ []) = c
last_char (c ∷ d ∷ s) = last_char (d ∷ s)

-- `*(t-1) = c`
abbrev pub set_last : ℕ → Bytes → Bytes
set_last c [] = []
set_last c (d ∷ []) = c ∷ []
set_last c (d ∷ e ∷ s) = d ∷ set_last c (e ∷ s)

abbrev pub follows : ℕ → ℤ → Bool
follows a (pos n) = a == n + 1
follows a (negsuc n) = false

abbrev pub nonzero : ℤ → Bool
nonzero (pos n) = not (n == 0)
nonzero (negsuc n) = true

abbrev pub is_none : Option Bytes → Bool
is_none none = true
is_none (some s) = false

-- The text before `t` where the last range is not extended.
unfoldable pub append_place : ℕ → Place → Bytes
append_place a p =
    let base = if is_digit (peek p.rest) then p.before else p.before ++ b',' ∷ [] in
    if nonzero p.lastnum
    then (if is_none p.before_max && (follows a p.lastnum && last_char base == b',')
        then set_last b'-' base
        else base)
    else p.before

abbrev pub extended : ℕ → Place → Option Bytes → Bytes
extended a p none = append_place a p
extended a p (some to_max) =
    if nonzero p.lastnum && follows a p.lastnum then to_max else append_place a p

-- What is written from `t`, and the text that follows. `morenum` is that a number stands at `s`.
abbrev pub with_more : ℕ → Place → Bytes → Bytes
with_more a p base =
    let behind = skip_while is_digit p.rest in
    if p.minimum == a + 1
    then (if last_char base == b'-' then base else base ++ (print_number a ++ b'-' ∷ []))
      ++ (if peek behind == b'-' then tail behind else p.rest)
    else base ++ (print_number a ++ b',' ∷ p.rest)

unfoldable pub write_number : ℕ → Place → Bytes
unfolding append_place
write_number a p =
    let base = extended a p p.before_max in
    if is_digit (peek p.rest) then with_more a p base else base ++ (print_number a ++ p.rest)

abbrev pub start : Bytes → Place
start nums =
    let s = skip_while (λ c. c == b' ') nums in
    record { before = upto nums s; rest = s; minimum = 0; lastnum = pos 0; before_max = none }

-- MAX_DIGITS
abbrev pub max_digits : ℕ
max_digits = 7

-- The size of mbuf, without the bytes before the numbers.
abbrev pub mbuf_size : Place → ℕ
mbuf_size p = length p.rest + length p.before + max_digits + 2 + 1

-- What addartnum does with a line: nothing, as the number is there; or it writes a new text of the
-- numbers into memory of a size. `never_ended`: the fuel ran out.
pub data Edit : Type 0 where
  unchanged : Edit
  rewritten : Bytes → ℕ → Edit
  never_ended : Edit

abbrev pub edited : ℕ → Found → Edit
edited a already_read = unchanged
edited a (insert_at p) = rewritten (write_number a p) (mbuf_size p)
edited a out_of_fuel = never_ended

unfoldable pub add_number : Bytes → ℕ → Edit
unfolding scan write_number skip_while digits_value atol print_number
add_number nums a = edited a (scan (length nums) a (start nums))

-- The loop of was_read_group; it keeps nothing of the text.
pub data Answer : Type 0 where
  answer : Bool → Answer
  no_fuel : Answer

unfoldable pub read_loop : ℕ → ℕ → Bytes → Answer
read_loop zero a s = if is_digit (peek s) then no_fuel else answer false
read_loop (suc f) a s =
    let min = digits_value 0 s in
    let t = skip_while is_digit s in
    let max = atol (tail t) in
    let ranged =
      read_loop f a (skip_while (λ c. not (is_digit c)) (skip_while is_digit (tail t))) in
    let single = read_loop f a (skip_while (λ c. not (is_digit c)) t) in
    if not (is_digit (peek s))
    then answer false
    else if ltb a min
    then answer false
    else if peek t == b'-'
    then (if le_ℤ a max then answer true else ranged)
    else if a == min
    then answer true
    else single

unfoldable pub was_read : Bytes → ℕ → Answer
unfolding read_loop skip_while digits_value atol
was_read nums a = read_loop (length nums) a (skip_while (λ c. c == b' ') nums)
