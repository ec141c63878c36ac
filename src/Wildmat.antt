-- ===== src/Wildmat.antt =====
-- wildmat.cpp: matching of newsgroup names against shell-style patterns. Text and pattern are C
-- strings. Pattern recursion runs on fuel; `Wildmat.Decide` shows that the pattern's length is enough.
pub mod Spec
pub mod Elements
pub mod Stars
pub mod Decide
pub mod Class
mod Examples
use trn_actions.Prelude.{
  ℕ, zero, suc, ◌+◌, ◌%◌, Bool, true, false, not, ◌&&◌, ◌||◌, Option, none, some, [], ◌∷◌, reverse,
  Bytes, leb, ◌==◌, if◌then◌else◌, length, peek,
}

abbrev pub backslash : ℕ
backslash = 92

-- What a call of DoMatch does. `overrun` is a read past the pattern's terminator, which the file's
-- comment warns of; `out_of_fuel` belongs to the model only.
pub data Verdict : Type 0 where
  answer : Bool → Verdict
  overrun : Verdict
  out_of_fuel : Verdict

-- What one pattern element, other than a star, does with one byte of text.
pub data Element : Type 0 where
  consumes : Bytes → Element
  refuses : Element
  overruns : Element

-- A `char` is signed: its value plus 128. 0400 is the first value of `last`.
abbrev pub signed : ℕ → ℕ
signed c = (c + 128) % 256

abbrev pub no_last : ℕ
no_last = 384

-- `for (int last = 0400; *++p && *p != ']'; last = *p)`: whether the byte matched, and the
-- pattern from where the loop stopped.
pub scan_class : ℕ → Bytes → ℕ → Bool → Option (Bool × Bytes)
scan_class text [] last matched = some (matched, [])
scan_class text (c ∷ []) last matched =
    if c == b']'
    then some (matched, c ∷ [])
    else if c == b'-'
    then none
    else some (matched || text == c, [])
scan_class text (c ∷ d ∷ p) last matched = elim (c == b']') [
  | true ↦ some (matched, c ∷ d ∷ p)
  | false ↦ elim (c == b'-') [
    | true ↦
        scan_class text p (signed d)
          (matched || (leb (signed text) (signed d) && leb last (signed text)))
    | false ↦ scan_class text (d ∷ p) (signed c) (matched || text == c)
  ]
]

abbrev same : Bool → Bool → Bool
same true b = b
same false b = not b

-- `if (matched == reverse) return false; continue;`, where `continue` steps over the `]`
abbrev finish_class : Bool → Option (Bool × Bytes) → Element
finish_class reverse none = overruns
finish_class reverse (some (matched, [])) = if same matched reverse then refuses else overruns
finish_class reverse (some (matched, c ∷ p)) = if same matched reverse then refuses else consumes p

abbrev tail : Bytes → Bytes
tail [] = []
tail (c ∷ p) = p

unfoldable pub class_element : ℕ → Bytes → Element
unfolding scan_class
class_element text p =
    let reverse = peek p == b'^' in
    finish_class reverse (scan_class text (if reverse then tail p else p) no_last false)

abbrev compare_byte : ℕ → Bytes → Element
compare_byte text [] = refuses
compare_byte text (c ∷ p) = if text == c then consumes p else refuses

-- The `switch`, for a byte of text that is not the terminator. A backslash steps on to the byte
-- that it quotes, and falls through to the default.
pub element : ℕ → ℕ → Bytes → Element
element text c p =
    if c == backslash
    then compare_byte text p
    else if c == b'?'
    then consumes p
    else if c == b'['
    then class_element text p
    else compare_byte text (c ∷ p)

-- `while (*++p == '*') continue;`
pub skip_stars : Bytes → Bytes
skip_stars [] = []
skip_stars (c ∷ p) = if c == b'*' then skip_stars p else c ∷ p

abbrev or_else : Verdict → Verdict → Verdict
or_else (answer true) v = answer true
or_else (answer false) v = v
or_else overrun v = overrun
or_else out_of_fuel v = out_of_fuel

-- `while (*text) { if (DoMatch(text++, p)) return true; } return false;`
pub star_loop : (Bytes → Verdict) → Bytes → Verdict
star_loop match [] = answer false
star_loop match (c ∷ text) = let rest = star_loop match text in or_else (match (c ∷ text)) rest

pub star : (Bytes → Bytes → Verdict) → Bytes → Bytes → Verdict
star match text [] = answer true
star match text (c ∷ p) = star_loop (λ t. match t (c ∷ p)) text

abbrev is_end : Bytes → Bool
is_end [] = true
is_end (c ∷ text) = false

pub do_match : ℕ → Bytes → Bytes → Verdict
do_match f text [] = answer (is_end text)
do_match zero text (c ∷ p) = out_of_fuel
do_match (suc f) [] (c ∷ p) =
    if c == b'*' then star (do_match f) [] (skip_stars p) else answer false
do_match (suc f) (x ∷ text) (c ∷ p) = elim (c == b'*') [
  | true ↦ star (do_match f) (x ∷ text) (skip_stars p)
  | false ↦ elim (element x c p) [
    | consumes rest ↦ do_match f text rest
    | refuses ↦ answer false
    | overruns ↦ overrun
  ]
]

-- A pattern that is one star matches without a call.
unfoldable pub wildmat : Bytes → Bytes → Verdict
unfolding do_match star star_loop skip_stars element class_element
wildmat text [] = do_match 0 text []
wildmat text (c ∷ []) = if c == b'*' then answer true else do_match 1 text (c ∷ [])
wildmat text (c ∷ d ∷ p) = do_match (length (c ∷ d ∷ p)) text (c ∷ d ∷ p)
