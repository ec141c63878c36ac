-- ===== src/Search/Compile.antt =====
-- search.cpp: compile. The buffer of instructions is a list of alternatives, each a list of
-- instructions that CEND ends; how the buffer grows is not modelled.
use trn_actions.Prelude.{
  ℕ, zero, suc, ◌+◌, ◌-◌, Bool, true, false, ◌&&◌, ◌||◌, Option, none, some, List, [], ◌∷◌, map,
  reverse, Bytes, ltb, leb, ◌==◌, if◌then◌else◌, length,
}
use trn_actions.StringAlgos.{is_digit, is_upper, is_alpha}
use trn_actions.Search.{
  Alternatives, nalts_limit, Bitmap, Item, chr, Op, nbra_limit, anchor, dot, word, nword, ccl, nccl,
  circ, dol, wbound, nwbound, once, starred, bra, ket, back,
}

-- The messages of compile, in the order of its text.
pub data Message : Type 0 where
  badly_formed null_search unbalanced_parens too_many_parens no_alternative_in_parens : Message
  too_many_alternatives unmatched_paren missing_bracket : Message

-- The instructions written so far, the newest first, of the alternatives before and of this one;
-- nbra; the stack `bracket`; and whether `lastep` points to an instruction that a star may follow.
pub record Building : Type 0 where
  pub before : Alternatives
  pub current : List Op
  pub nbra : ℕ
  pub stack : List ℕ
  pub may_star : Bool

-- `undefined` is a write before the buffer: a byte from 128 on is a negative `c`.
pub data Compiled : Type 0 where
  compiled : Alternatives → ℕ → Compiled
  refused : Message → Compiled
  undefined : Compiled

-- Where the loop of a class stands: before the byte `c`'s range is known, behind `c` and a dash,
-- or before the byte that becomes `c`.
pub data Class : Type 0 where
  item dash : ℕ → Class
  between : Class

-- What the next byte of the pattern is read as.
pub data Mode : Type 0 where
  at_char escaped class_begin class_negated : Mode
  in_class : Bool → Class → Bitmap → Mode

pub data Step : Type 0 where
  go : Mode → Building → Step
  stop : Compiled → Step

abbrev pub no_bits : Bitmap
no_bits = λ i. false

-- `c ^ 32` on a letter
abbrev pub other_case : ℕ → ℕ
other_case c = if is_upper c then c + 32 else c - 32

-- One round of `while (c <= i)`.
abbrev pub with_bit : Bool → ℕ → Bitmap → Bitmap
with_bit fold c bits = λ k. bits k || (k == c || (fold && (is_alpha c && k == other_case c)))

abbrev pub range_bits : Bool → ℕ → ℕ → Bitmap → Bitmap
range_bits fold c zero bits = bits
range_bits fold c (suc n) bits = range_bits fold (suc c) n (with_bit fold c bits)

-- `while (c <= i)`, on signed bytes: nothing, where `i` lies below `c`.
unfoldable pub add_range : Bool → ℕ → ℕ → Bitmap → Option Bitmap
add_range fold c i bits =
    if leb 128 c
    then (if leb 128 i && ltb i c then some bits else none)
    else if leb 128 i
    then some bits
    else some (range_bits fold c (suc i - c) bits)

unfoldable pub emit : Op → Bool → Building → Building
emit op may b = record {
  before = b.before;
  current = op ∷ b.current;
  nbra = b.nbra;
  stack = b.stack;
  may_star = may;
}

-- `defchar`, which leaves `lastep` where it is for a star.
unfoldable pub defchar : ℕ → Building → Building
defchar c b = emit (once (chr c)) (if c == b'*' then b.may_star else true) b

abbrev pub class_item : Bool → Bitmap → Op
class_item negated bits = once (if negated then nccl bits else ccl bits)

-- The byte `d` of a class, `*strp`.
unfoldable pub class_byte : Bool → Bool → Class → Bitmap → ℕ → Building → Step
class_byte fold negated (item c) bits d b =
    if d == b'-' then go (in_class negated (dash c) bits) b else elim (add_range fold c c bits) [
      | none ↦ stop undefined
      | some now ↦
          if d == b']'
          then go at_char (emit (class_item negated now) true b)
          else go (in_class negated (item d) now) b
    ]
class_byte fold negated (dash c) bits d b =
    if d == b']'
    then elim (add_range fold c c bits) [
      | none ↦ stop undefined
      | some now ↦ go at_char (emit (class_item negated now) true b)
    ]
    else elim (add_range fold c d bits) [
      | none ↦ stop undefined
      | some now ↦ go (in_class negated between now) b
    ]
class_byte fold negated between bits d b =
    if d == b']'
    then go at_char (emit (class_item negated bits) true b)
    else go (in_class negated (item d) bits) b

-- The end of the pattern in a class.
abbrev pub class_end : Bool → Class → Bitmap → Compiled
class_end fold between bits = refused missing_bracket
class_end fold (item c) bits = elim (add_range fold c c bits) [
  | none ↦ undefined
  | some now ↦ refused missing_bracket
]
class_end fold (dash c) bits = elim (add_range fold c c bits) [
  | none ↦ undefined
  | some now ↦ refused missing_bracket
]

unfoldable pub open_paren : Building → Step
open_paren b =
    if leb nbra_limit b.nbra
    then stop (refused too_many_parens)
    else go at_char (
        emit (bra (suc b.nbra)) false
          (record b { nbra = suc b.nbra; stack = suc b.nbra ∷ b.stack }))

abbrev pub close_paren : List ℕ → Building → Step
close_paren [] b = stop (refused unmatched_paren)
close_paren (n ∷ stack) b = go at_char (emit (ket n) false (record b { stack = stack }))

-- `*alt++ = ep` for one more alternative, and its test
abbrev pub next_alternative : List ℕ → Building → Step
next_alternative (n ∷ stack) b = stop (refused no_alternative_in_parens)
next_alternative [] b =
    if ltb nalts_limit (2 + length b.before)
    then stop (refused too_many_alternatives)
    else go at_char record {
      before = b.current ∷ b.before;
      current = [];
      nbra = b.nbra;
      stack = [];
      may_star = false;
    }

-- The byte behind a backslash.
unfoldable pub meta : ℕ → Building → Step
meta c b =
    if c == b'('
    then open_paren b
    else if c == b'|'
    then next_alternative b.stack b
    else if c == b')'
    then close_paren b.stack b
    else if c == b'w'
    then go at_char (emit (once word) true b)
    else if c == b'W'
    then go at_char (emit (once nword) true b)
    else if c == b'b'
    then go at_char (emit (anchor wbound) false b)
    else if c == b'B'
    then go at_char (emit (anchor nwbound) false b)
    else if is_digit c
    then go at_char (emit (back (c - b'0')) false b)
    else go at_char (emit (once (chr c)) true b)

abbrev pub put_star : Building → List Op → Building
put_star b (once x ∷ rest) =
    if b.may_star then record b { current = starred x ∷ rest; may_star = false } else defchar b'*' b
put_star b ops = defchar b'*' b

-- Whether the last byte of an instruction is 78, which is CEND: the letter N, or the last byte of a
-- bitmap with the bits of y, z, { and ~.
abbrev bit : Bool → ℕ → ℕ
bit x n = if x then n else 0

abbrev last_byte : Bitmap → ℕ
last_byte bits =
    bit (bits 120) 1
    + bit (bits 121) 2
    + bit (bits 122) 4
    + bit (bits 123) 8
    + bit (bits 124) 16
    + bit (bits 125) 32
    + bit (bits 126) 64
    + bit (bits 127) 128

abbrev item_ends_in_cend : Item → Bool
item_ends_in_cend (chr c) = c == 78
item_ends_in_cend (ccl bits) = last_byte bits == 78
item_ends_in_cend (nccl bits) = last_byte bits == 78
item_ends_in_cend dot = false
item_ends_in_cend word = false
item_ends_in_cend nword = false

-- `ep == compex->expbuf || ep[-1] == CEND`
unfoldable pub at_cend : List Op → Bool
at_cend [] = true
at_cend (once x ∷ ops) = item_ends_in_cend x
at_cend (starred x ∷ ops) = item_ends_in_cend x
at_cend (anchor a ∷ ops) = false
at_cend (bra n ∷ ops) = false
at_cend (ket n ∷ ops) = false
at_cend (back n ∷ ops) = false

-- `*strp != 0 && (*strp != '\\' || strp[1] != '|')`, negated
abbrev pub ends_alternative : Bytes → Bool
ends_alternative [] = true
ends_alternative (c ∷ []) = false
ends_alternative (c ∷ d ∷ s) = c == 92 && d == b'|'

-- The outer switch, on `c` with `strp` behind it.
unfoldable pub plain_or_meta : Bool → ℕ → Bytes → Building → Step
plain_or_meta false c strp b = go at_char (emit (once (chr c)) true b)
plain_or_meta true c strp b =
    if c == 92
    then go escaped b
    else if c == b'.'
    then go at_char (emit (once dot) true b)
    else if c == b'*'
    then go at_char (put_star b b.current)
    else if c == b'^' && at_cend b.current
    then go at_char (emit (anchor circ) false b)
    else if c == b'$' && ends_alternative strp
    then go at_char (emit (anchor dol) false b)
    else if c == b'['
    then go class_begin b
    else go at_char (defchar c b)

unfoldable pub one_byte : Bool → Bool → Mode → ℕ → Bytes → Building → Step
one_byte re fold at_char c strp b = plain_or_meta re c strp b
one_byte re fold escaped c strp b = meta c b
one_byte re fold class_begin c strp b =
    if c == b'^' then go class_negated b else go (in_class false (item c) no_bits) b
one_byte re fold class_negated c strp b = go (in_class true (item c) no_bits) b
one_byte re fold (in_class negated class bits) c strp b = class_byte fold negated class bits c b

abbrev pub finish : List ℕ → Building → Compiled
finish (n ∷ stack) b = refused unbalanced_parens
finish [] b = compiled (reverse (map reverse (b.current ∷ b.before))) b.nbra

-- `c == 0`, wherever it is read
abbrev pub at_end : Bool → Mode → Building → Compiled
at_end fold at_char b = finish b.stack b
at_end fold escaped b = refused badly_formed
at_end fold class_begin b = refused missing_bracket
at_end fold class_negated b = refused missing_bracket
at_end fold (in_class negated class bits) b = class_end fold class bits

unfoldable pub compile_loop : Bool → Bool → Mode → Building → Bytes → Compiled
compile_loop re fold mode b [] = at_end fold mode b
compile_loop re fold mode b (c ∷ strp) = elim (one_byte re fold mode c strp b) [
  | go now built ↦ compile_loop re fold now built strp
  | stop answer ↦ answer
]

abbrev pub start : Building
start = record { before = []; current = []; nbra = 0; stack = []; may_star = false }

-- expbuf: as malloc left it, with a zero in front after an error, or with instructions and nbra.
pub data Contents : Type 0 where
  fresh erased : Contents
  written : Alternatives → ℕ → Contents

-- The buffer afterwards and the message that is returned. `indeterminate` reads what malloc left.
pub data Answer : Type 0 where
  says : Contents → Option Message → Answer
  indeterminate overwrites : Answer

abbrev pub answered : Compiled → Answer
answered (compiled alternatives nbra) = says (written alternatives nbra) none
answered (refused message) = says erased (some message)
answered undefined = overwrites

unfoldable pub compile : Contents → Bytes → Bool → Bool → Answer
compile old (c ∷ strp) re fold = answered (compile_loop re fold at_char start (c ∷ strp))
compile fresh [] re fold = indeterminate
compile erased [] re fold = says erased (some null_search)
compile (written alternatives nbra) [] re fold = says (written alternatives nbra) none
