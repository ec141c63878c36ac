-- ===== src/Wildmat/Class.antt =====
-- What a character class of a wildmat.cpp pattern admits.
use trn_actions.Prelude.{
  ℕ, ◌≡◌, refl, ap, ◌∙◌, ◌≢◌, inl, inr, Bool, true, false, ◌&&◌, ◌||◌, some, List, [], ◌∷◌, ◌++◌,
  arith, Bytes, leb, ◌==◌, if◌then◌else◌, ==_iff, Bool-cases, peek,
}
use trn_actions.Wildmat.{consumes, refuses, scan_class, signed, class_element, no_last, same}

-- A class body is a list of single bytes and of ranges.
pub data ClassItem : Type 0 where
  single : ℕ → ClassItem
  range : ℕ → ℕ → ClassItem

abbrev pub print_items : List ClassItem → Bytes
print_items [] = []
print_items (single c ∷ items) = c ∷ print_items items
print_items (range lo hi ∷ items) = lo ∷ b'-' ∷ hi ∷ print_items items

-- `[^`, or `[`, comes before; the `]` comes behind.
abbrev pub print_class : Bool → List ClassItem → Bytes → Bytes
print_class true items rest = b'^' ∷ print_items items ++ b']' ∷ rest
print_class false items rest = print_items items ++ b']' ∷ rest

-- The order of a range is that of signed bytes. Its low end is also a single byte.
abbrev pub admits : ℕ → ClassItem → Bool
admits x (single c) = x == c
admits x (range lo hi) = x == lo || (leb (signed x) (signed hi) && leb (signed lo) (signed x))

abbrev pub any_admits : ℕ → List ClassItem → Bool
any_admits x [] = false
any_admits x (item ∷ items) = admits x item || any_admits x items

-- A single byte and the low end of a range are neither `]` nor `-`.
abbrev pub IsOrdinary : ℕ → Type 0
IsOrdinary c = (c ≢ b']') × (c ≢ b'-')

abbrev pub AreOrdinary : List ClassItem → Type 0
AreOrdinary [] = Unit {0}
AreOrdinary (single c ∷ items) = IsOrdinary c × AreOrdinary items
AreOrdinary (range lo hi ∷ items) = IsOrdinary lo × AreOrdinary items

scan_single :
    (x c last : ℕ) (p : Bytes) (m : Bool)
    → IsOrdinary c
    → p ≢ []
    → scan_class x (c ∷ p) last m ≡ scan_class x p (signed c) (m || x == c)
unfolding scan_class
scan_single x c last [] m h full = absurd (full refl)
scan_single x c last (d ∷ p) m h full = ground arith

scan_range :
    (x hi last : ℕ) (p : Bytes) (m : Bool)
    → scan_class x (b'-' ∷ hi ∷ p) last m
      ≡ scan_class x p (signed hi) (m || (leb (signed x) (signed hi) && leb last (signed x)))
unfolding scan_class
scan_range x hi last p m = refl

scan_end : (x last : ℕ) (p : Bytes) (m : Bool) → scan_class x (b']' ∷ p) last m ≡ some (m, b']' ∷ p)
unfolding scan_class
scan_end x last [] m = refl
scan_end x last (d ∷ p) m = refl

append-ne-nil : (s rest : Bytes) (d : ℕ) → s ++ d ∷ rest ≢ []
append-ne-nil [] rest d h = cc
append-ne-nil (c ∷ s) rest d h = cc

or_assoc : (a b c : Bool) → (a || b) || c ≡ a || (b || c)
or_assoc true b c = refl
or_assoc false b c = refl

or_false : (a : Bool) → a ≡ a || false
or_false true = refl
or_false false = refl

scan_class-print_items :
    (x last : ℕ) (items : List ClassItem) (rest : Bytes) (m : Bool)
    → AreOrdinary items
    → scan_class x (print_items items ++ b']' ∷ rest) last m
      ≡ some (m || any_admits x items, b']' ∷ rest)
scan_class-print_items x last [] rest m h =
    scan_end x last rest m ∙ ap (λ (b : Bool). some (b, b']' ∷ rest)) (or_false m)
scan_class-print_items x last (single c ∷ items) rest m h =
    scan_single x c last _ m h.0 (append-ne-nil (print_items items) rest b']')
    ∙ scan_class-print_items x (signed c) items rest (m || x == c) h.1
    ∙ ap (λ (b : Bool). some (b, b']' ∷ rest)) (or_assoc m (x == c) (any_admits x items))
scan_class-print_items x last (range lo hi ∷ items) rest m h =
    scan_single x lo last _ m h.0 (λ e. cc)
    ∙ scan_range x hi (signed lo) _ (m || x == lo)
    ∙ scan_class-print_items x (signed hi) items rest _ h.1
    ∙ ap (λ (b : Bool). some (b, b']' ∷ rest)) (ground arith)

-- A class that begins with no `^` of its own.
abbrev pub BeginsPlain : Bool → List ClassItem → Type 0
BeginsPlain true items = Unit {0}
BeginsPlain false [] = Unit {0}
BeginsPlain false (single c ∷ items) = c ≢ b'^'
BeginsPlain false (range lo hi ∷ items) = lo ≢ b'^'

peek-print_items :
    (items : List ClassItem) (rest : Bytes)
    → BeginsPlain false items
    → peek (print_items items ++ b']' ∷ rest) ≢ b'^'
peek-print_items [] rest h = λ e. omega arith
peek-print_items (single c ∷ items) rest h = h
peek-print_items (range lo hi ∷ items) rest h = h

-- A closed class of single bytes and ranges takes a byte exactly when one of its items admits it,
-- and a class that begins with `^` exactly when none does; the pattern goes on behind the `]`.
-- The items are written with no `]` or `-` of their own, and a plain class does not begin with `^`.
pub class_element-print_class :
    (x : ℕ) (negated : Bool) (items : List ClassItem) (rest : Bytes)
    → AreOrdinary items
    → BeginsPlain negated items
    → class_element x (print_class negated items rest)
      ≡ (if same (any_admits x items) negated then refuses else consumes rest)
unfolding class_element
class_element-print_class x true items rest h plain =
    rw (scan_class-print_items x no_last items rest false h)
class_element-print_class x false items rest h plain =
    elim (Bool-cases (peek (print_items items ++ b']' ∷ rest) == b'^')) [
      | inl e ↦ absurd (peek-print_items items rest plain ((==_iff _ _).0 e))
      | inr e ↦ rw (e, scan_class-print_items x no_last items rest false h)
    ]
