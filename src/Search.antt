-- ===== src/Search.antt =====
-- search.cpp: the compiled form of a regular expression, the table that folds upper case, and
-- execute with its advance. A text is the list of its bytes, a pointer into it the number of bytes
-- before it, and a null pointer `none`.
pub mod Compile
pub mod Execute
pub mod Spec
pub mod Decide
pub mod First
pub mod Plain
pub mod Quote
pub mod Classes
pub mod Brackets
mod Examples
use trn_actions.Prelude.{
  ℕ, zero, suc, ◌+◌, ◌-◌, ◌%◌, Bool, true, false, not, ◌||◌, Option, none, some, List, [], ◌∷◌,
  Bytes, leb, ◌==◌, if◌then◌else◌, get_elem?, get_or, set, drop,
}
use trn_actions.StringAlgos.{is_digit, is_upper, is_alpha}

-- NBRA
abbrev pub nbra_limit : ℕ
nbra_limit = 10

-- NALTS
abbrev pub nalts_limit : ℕ
nalts_limit = 10

-- isalnum in the "C" locale
unfoldable pub is_alnum : ℕ → Bool
is_alnum c = is_alpha c || is_digit c

-- The bits of a class, by their number below 128.
abbrev pub Bitmap : Type 0
Bitmap = ℕ → Bool

-- CCHR, CDOT, WORD, NWORD, CCL and NCCL: what a star may follow.
pub data Item : Type 0 where
  chr : ℕ → Item
  dot word nword : Item
  ccl nccl : Bitmap → Item

-- CIRC, CDOL, WBOUND and NWBOUND.
pub data Anchor : Type 0 where
  circ dol wbound nwbound : Anchor

-- `starred` has the STAR bit. compile never sets it on CBACK.
pub data Op : Type 0 where
  once starred : Item → Op
  anchor : Anchor → Op
  bra ket back : ℕ → Op

abbrev pub Alternatives : Type 0
Alternatives = List (List Op)

-- s_trans and s_folding
pub record Fold : Type 0 where
  trans : ℕ → ℕ
  folding : Bool

unfoldable pub search_init : Fold → Fold
search_init f = record f { trans = λ i. i }

unfoldable pub case_fold : Bool → Fold → Fold
case_fold true f =
    if f.folding
    then f
    else record { trans = (λ i. if is_upper i then i + 32 else f.trans i); folding = true }
case_fold false f =
    if f.folding
    then record { trans = (λ i. if is_upper i then i else f.trans i); folding = false }
    else f

-- braslist, braelist and s_err
pub record Marks : Type 0 where
  starts : List (Option ℕ)
  ends : List (Option ℕ)
  err : Bool

-- `undefined` is a pointer before the text, which only a reference to stale brackets can give.
pub data Outcome : Type 0 where
  matched failed : Marks → Outcome
  undefined : Outcome

unfoldable pub cclass : Bitmap → ℕ → Bool → Bool
cclass bits c af = if bits (c % 128) then af else not af

-- The test of the case for one byte.
unfoldable pub accepts : (ℕ → ℕ) → Item → ℕ → Bool
accepts trt (chr d) c = trt d == trt c
accepts trt dot c = not (c == 10)
accepts trt word c = is_alnum c
accepts trt nword c = not (is_alnum c)
accepts trt (ccl bits) c = cclass bits c true
accepts trt (nccl bits) c = cclass bits c false

-- `while (*lp++ && ...) ;`: how many bytes it passes
unfoldable pub run : (ℕ → Bool) → Bytes → ℕ
run p [] = 0
run p (c ∷ s) = let rest = run p s in if p c then suc rest else 0

-- `lp == s_first_character || !isalnum(lp[-1])`
abbrev pub no_word_before : Bytes → ℕ → Bool
no_word_before text zero = true
no_word_before text (suc lp) = not (is_alnum (get_or text lp 0))

-- `!*lp || !isalnum(*lp)`
abbrev pub no_word_at : Bytes → ℕ → Bool
no_word_at text lp = get_or text lp 0 == 0 || not (is_alnum (get_or text lp 0))

abbrev pub differ : Bool → Bool → Bool
differ true b = not b
differ false b = b

unfoldable pub holds : Bytes → ℕ → Anchor → Bool
holds text zero circ = true
holds text (suc lp) circ = get_or text lp 0 == 10
holds text lp dol = get_or text lp 0 == 0 || get_or text lp 0 == 10
holds text lp wbound = differ (no_word_before text lp) (no_word_at text lp)
holds text lp nwbound = not (differ (no_word_before text lp) (no_word_at text lp))

-- The label `star`: the continuation is tried behind the whole run, then ever nearer.
unfoldable pub try_down : (ℕ → Marks → Outcome) → ℕ → ℕ → Marks → Outcome
try_down next lp zero m = next lp m
try_down next lp (suc n) m = elim (next (lp + suc n) m) [
  | failed kept ↦ try_down next lp n kept
  | matched marks ↦ matched marks
  | undefined ↦ undefined
]

-- backref's loop, from `bp` and `lp`, for the bracket that ends at `stop`.
unfoldable pub backref_loop : Bytes → ℕ → ℕ → Bytes → Bool
backref_loop text stop bp [] = false
backref_loop text stop bp (c ∷ s) = elim (get_or text bp 0 == c) [
  | true ↦ if leb stop (suc bp) then true else backref_loop text stop (suc bp) s
  | false ↦ false
]

unfoldable pub backref : Bytes → ℕ → ℕ → ℕ → Bool
unfolding backref_loop
backref text start stop lp = backref_loop text stop start (drop lp text)

abbrev pub open_bracket : ℕ → ℕ → Marks → Marks
open_bracket n lp m = record m { starts = set m.starts n (some lp) }

abbrev pub close_bracket : ℕ → ℕ → Marks → Marks
close_bracket n lp m = record {
  starts = set m.starts 0 (get_or m.starts n none);
  ends = set (set m.ends n (some lp)) 0 (some lp);
  err = m.err;
}

-- The case CBACK, for the bracket's start and end.
unfoldable pub refer : Bytes → Option ℕ → Option ℕ → ℕ → Marks → (ℕ → Marks → Outcome) → Outcome
refer text start none lp m next = failed (record m { err = true })
refer text none (some stop) lp m next = undefined
refer text (some start) (some stop) lp m next = elim (backref text start stop lp) [
  | true ↦ elim (leb start (lp + stop)) [ true ↦ next (lp + stop - start) m | false ↦ undefined ]
  | false ↦ failed m
]

unfoldable pub advance : (ℕ → ℕ) → Bytes → List Op → ℕ → Marks → Outcome
unfolding refer
advance trt text [] lp m = matched m
advance trt text (once x ∷ ops) lp m = elim (get_elem? text lp) [
  | none ↦ failed m
  | some c ↦ elim (accepts trt x c) [ true ↦ advance trt text ops (suc lp) m | false ↦ failed m ]
]
advance trt text (starred x ∷ ops) lp m =
    try_down (advance trt text ops) lp (run (accepts trt x) (drop lp text)) m
advance trt text (anchor a ∷ ops) lp m = elim (holds text lp a) [
  | true ↦ advance trt text ops lp m
  | false ↦ failed m
]
advance trt text (bra n ∷ ops) lp m = advance trt text ops lp (open_bracket n lp m)
advance trt text (ket n ∷ ops) lp m = advance trt text ops lp (close_bracket n lp m)
advance trt text (back n ∷ ops) lp m =
    refer text (get_or m.starts n none) (get_or m.ends n none) lp m (advance trt text ops)
