-- ===== src/Util.antt =====
-- util.cpp: text2secs and secs2text. A time_t is a natural number; the sums, and the parts as an int,
-- fit.
pub mod Items
pub mod Times
pub mod Ends
mod Examples
use trn_actions.Prelude.{
  ℕ, zero, suc, ◌+◌, ◌-◌, ◌*◌, ◌/◌, ◌%◌, ◌||◌, Option, none, some, [], ◌∷◌, ◌++◌, Bytes, ltb, ◌==◌,
  if◌then◌else◌, codes, length, take, peek,
}
use trn_actions.StringAlgos.{is_digit, is_space, is_alpha, skip_while}
use trn_actions.Newsrc.Numbers.{digits_value, print_number}

-- An item in minutes, by the first letter of its word.
abbrev pub item_minutes : ℕ → ℕ → ℕ
item_minutes c item =
    if c == b'd' || c == b'D'
    then item * (24 * 60)
    else if c == b'h' || c == b'H'
    then item * 60
    else if c == b'm' || c == b'M'
    then item
    else 0

abbrev pub skip_comma : Bytes → Bytes
skip_comma [] = []
skip_comma (c ∷ s) = if c == b',' then s else c ∷ s

-- One round of the loop: the item in minutes, and the text that is left. At a digit, atol takes
-- the digits.
unfoldable pub one_item : Bytes → ℕ × Bytes
unfolding digits_value skip_while
one_item s =
    let item = digits_value 0 s in
    let t = skip_while is_space (skip_while is_digit s) in
    if is_alpha (peek t)
    then (item_minutes (peek t) item, skip_while is_space (skip_comma (skip_while is_alpha t)))
    else (item, t)

-- `none` only without fuel.
unfoldable pub items_loop : ℕ → ℕ → Bytes → Option ℕ
items_loop zero secs s = none
items_loop (suc f) secs s =
    let (item, t) = one_item s in
    let rest = items_loop f (secs + item) t in
    if is_digit (peek t) then rest else some (secs + item)

abbrev in_seconds : Option ℕ → Option ℕ
in_seconds none = none
in_seconds (some n) = some (n * 60)

unfoldable pub text2secs : Bytes → ℕ → Option ℕ
text2secs s def_secs =
    if is_digit (peek s)
    then in_seconds (items_loop (length s) 0 s)
    else if peek s == b'm' || peek s == b'M'
    then some 2
    else if peek s == b'y' || peek s == b'Y'
    then some def_secs
    else some 0

-- `plural` of common.h
abbrev pub plural : ℕ → Bytes
plural num = if num == 1 then [] else b's' ∷ []

-- "%d day%s, ", where `items` is what the ending is chosen by.
abbrev pub time_part : ℕ → Bytes → ℕ → Bytes
time_part n word items = print_number n ++ (b' ' ∷ (word ++ (plural items ++ (b',' ∷ b' ' ∷ []))))

abbrev pub cut_two : Bytes → Option Bytes
cut_two [] = none
cut_two (a ∷ s) = some (take (length (a ∷ s) - 2) (a ∷ s))

abbrev pub minute_part : ℕ → ℕ → Bytes
minute_part secs items = if secs == 0 then [] else time_part secs (codes "minute") items

abbrev pub hour_part : ℕ → ℕ → Bytes
hour_part secs items =
    if ltb secs 60
    then minute_part secs items
    else time_part (secs / 60) (codes "hour") (secs / 60) ++ minute_part (secs % 60) (secs / 60)

abbrev pub day_part : ℕ → ℕ → Bytes
day_part secs items =
    if ltb secs (24 * 60)
    then hour_part secs items
    else time_part (secs / (24 * 60)) (codes "day") (secs / (24 * 60))
      ++ hour_part (secs % (24 * 60)) (secs / (24 * 60))

-- `items` is what the variable of that name holds before it is set; `none` is the write before the
-- buffer.
unfoldable pub secs2text : ℕ → ℕ → Option Bytes
secs2text secs items =
    if secs == 0 || secs % 2 == 1
    then some (codes "never")
    else if secs / 2 % 2 == 1
    then some (codes "missing")
    else cut_two (day_part (secs / 60) items)
