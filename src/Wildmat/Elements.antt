-- ===== src/Wildmat/Elements.antt =====
-- One pattern element of wildmat.cpp: where its scan stops, and what it takes.
use trn_actions.Prelude.{
  ℕ, ◌≡◌, refl, sym, ap, ◌∙◌, inl, inr, Bool, true, false, Option, none, some, [], ◌∷◌, ◌++◌,
  append_assoc, arith, Bytes, ◌==◌, Bool-cases, peek,
}
use trn_actions.Wildmat.{
  overruns, tail, class_element, Element, compare_byte, backslash, no_last, finish_class, signed,
  element, scan_class, consumes, refuses,
}
use trn_actions.Wildmat.Spec.{Takes, quoted, any, class, literal}

-- The pattern behind an element is a suffix of what stood behind its first byte.
abbrev pub Behind : Bytes → Bytes → Type 0
Behind p rest = (run : Bytes) × (p ≡ run ++ rest)

pub Behind-cons : (c : ℕ) (p rest : Bytes) → Behind p rest → Behind (c ∷ p) rest
Behind-cons c p rest (run, e) = (c ∷ run, ap (λ (q : Bytes). c ∷ q) e)

abbrev pub StopsBehind : Bytes → Option (Bool × Bytes) → Type 0
StopsBehind p none = Unit {0}
StopsBehind p (some (m, rest)) = Behind p rest

pub StopsBehind-cons :
    (c : ℕ) (p : Bytes) (o : Option (Bool × Bytes)) → StopsBehind p o → StopsBehind (c ∷ p) o
StopsBehind-cons c p none h = tt
StopsBehind-cons c p (some (m, rest)) h = Behind-cons c p rest h

pub scan_class-StopsBehind :
    (text : ℕ) (p : Bytes) (last : ℕ) (m : Bool) → StopsBehind p (scan_class text p last m)
unfolding scan_class
scan_class-StopsBehind text [] last m = ([], refl)
scan_class-StopsBehind text (c ∷ []) last m = elim (Bool-cases (c == b']')) [
  | inl e ↦ rw e ([], refl)
  | inr e ↦ elim (Bool-cases (c == b'-')) [
    | inl e' ↦ rw (e, e') tt
    | inr e' ↦ rw (e, e') (c ∷ [], refl)
  ]
]
scan_class-StopsBehind text (c ∷ d ∷ p) last m = elim (Bool-cases (c == b']')) [
  | inl e ↦ rw (e, scan_class) ([], refl)
  | inr e ↦ elim (Bool-cases (c == b'-')) [
    | inl e' ↦
        rw (e, e', scan_class)
          (StopsBehind-cons c (d ∷ p) _
            (StopsBehind-cons d p _ (scan_class-StopsBehind text p (signed d) _)))
    | inr e' ↦
        rw (e, e', scan_class)
          (StopsBehind-cons c (d ∷ p) _ (scan_class-StopsBehind text (d ∷ p) (signed c) _))
  ]
]

abbrev pub ElementBehind : Bytes → Element → Type 0
ElementBehind p (consumes rest) = Behind p rest
ElementBehind p refuses = Unit {0}
ElementBehind p overruns = Unit {0}

pub finish_class-Behind :
    (p : Bytes) (reverse : Bool) (o : Option (Bool × Bytes))
    → StopsBehind p o
    → ElementBehind p (finish_class reverse o)
finish_class-Behind p reverse none h = tt
finish_class-Behind p true (some (true, [])) h = tt
finish_class-Behind p true (some (false, [])) h = tt
finish_class-Behind p false (some (true, [])) h = tt
finish_class-Behind p false (some (false, [])) h = tt
finish_class-Behind p true (some (true, c ∷ q)) h = tt
finish_class-Behind p true (some (false, c ∷ q)) (run, e) =
    (run ++ c ∷ [], e ∙ sym (append_assoc run (c ∷ []) q))
finish_class-Behind p false (some (true, c ∷ q)) (run, e) =
    (run ++ c ∷ [], e ∙ sym (append_assoc run (c ∷ []) q))
finish_class-Behind p false (some (false, c ∷ q)) h = tt

pub StopsBehind-tail :
    (p : Bytes) (o : Option (Bool × Bytes)) → StopsBehind (tail p) o → StopsBehind p o
StopsBehind-tail [] o h = h
StopsBehind-tail (c ∷ p) o h = StopsBehind-cons c p o h

pub class_element-Behind : (x : ℕ) (p : Bytes) → ElementBehind p (class_element x p)
unfolding class_element
class_element-Behind x p = elim (Bool-cases (peek p == b'^')) [
  | inl e ↦ rw e (
      finish_class-Behind p true _
        (StopsBehind-tail p _ (scan_class-StopsBehind x (tail p) no_last false)))
  | inr e ↦ rw e (finish_class-Behind p false _ (scan_class-StopsBehind x p no_last false))
]

pub compare_byte-Behind : (x : ℕ) (p : Bytes) → ElementBehind p (compare_byte x p)
compare_byte-Behind x [] = tt
compare_byte-Behind x (c ∷ p) = elim (Bool-cases (x == c)) [
  | inl e ↦ rw e (c ∷ [], refl)
  | inr e ↦ rw e tt
]

pub element-Behind : (x c : ℕ) (p : Bytes) → ElementBehind p (element x c p)
unfolding element
element-Behind x c p = elim (Bool-cases (c == backslash)) [
  | inl e ↦ rw e (compare_byte-Behind x p)
  | inr e1 ↦ elim (Bool-cases (c == b'?')) [
    | inl e ↦ rw (e1, e) ([], refl)
    | inr e2 ↦ elim (Bool-cases (c == b'[')) [
      | inl e ↦ rw (e1, e2, e) (class_element-Behind x p)
      | inr e3 ↦ elim (Bool-cases (x == c)) [
        | inl e ↦ rw (e1, e2, e3, e) ([], refl)
        | inr e ↦ rw (e1, e2, e3, e) tt
      ]
    ]
  ]
]

pub element-Takes : (x c : ℕ) (p rest : Bytes) → element x c p ≡ consumes rest → Takes x c p rest
unfolding element
element-Takes x c [] rest h = elim (Bool-cases (c == b'[')) [
  | inl e ↦ class (ground arith) (ground arith)
  | inr e ↦ elim (Bool-cases (c == b'?')) [
    | inl e' ↦ any (ground arith) (ground arith)
    | inr e' ↦ literal (ground arith) (ground arith) (ground arith) (ground arith) (ground arith)
  ]
]
element-Takes x c (d ∷ p) rest h = elim (Bool-cases (c == b'[')) [
  | inl e ↦ class (ground arith) (ground arith)
  | inr e ↦ elim (Bool-cases (c == b'?')) [
    | inl e' ↦ any (ground arith) (ground arith)
    | inr e' ↦ elim (Bool-cases (c == backslash)) [
      | inl b ↦ quoted (ground arith) (ground arith) (ground arith)
      | inr b ↦ literal (ground arith) (ground arith) (ground arith) (ground arith) (ground arith)
    ]
  ]
]

pub Takes-element : {x c : ℕ} {p rest : Bytes} → Takes x c p rest → element x c p ≡ consumes rest
unfolding element
Takes-element (quoted e e' e'') = ground arith
Takes-element (any e e') = ground arith
Takes-element (class e e') = ground arith
Takes-element (literal e1 e2 e3 e4 e5) = ground arith

pub element-overruns :
    (x c : ℕ) (p : Bytes) → element x c p ≡ overruns → (c ≡ b'[') × (class_element x p ≡ overruns)
unfolding element
element-overruns x c [] h = ground arith
element-overruns x c (d ∷ p) h = ground arith
