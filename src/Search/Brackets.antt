-- ===== src/Search/Brackets.antt =====
-- search.cpp: what compile writes is in bounds.
use trn_actions.StringAlgos.{is_digit}
use mathlib.Core.List.{reverse-cons}
use trn_actions.Prelude.{
  ℕ, suc, ◌+◌, ◌-◌, ◌≤◌, ◌<◌, ◌≡◌, refl, sym, ap, subst, inl, inr, Bool, true, false, ◌&&◌, Option,
  none, some, List, [], ◌∷◌, map, reverse, arith, Bytes, ltb, leb, ◌==◌, if◌then◌else◌, Bool-cases,
  if_else, length, length-append, All, All-append,
}
use trn_actions.Search.{
  chr, anchor, nalts_limit, Op, nbra_limit, word, nword, wbound, nwbound, once, starred, bra, ket,
  back, Bitmap, Alternatives, dot, circ, dol,
}
use trn_actions.Search.Compile.{
  Building, Compiled, Step, emit, defchar, open_paren, close_paren, next_alternative, meta,
  compiled, refused, go, stop, Class, Mode, add_range, class_item, class_byte, class_end, put_star,
  at_cend, ends_alternative, plain_or_meta, one_byte, finish, at_end, compile_loop, start, item,
  dash, between, at_char, escaped, class_begin, class_negated, in_class, missing_bracket,
}

-- The bracket that an instruction names is one of n, and a back-reference is one digit.
abbrev pub IsWithin : ℕ → Op → Type 0
IsWithin n (bra k) = (0 < k) × (k ≤ n)
IsWithin n (ket k) = (0 < k) × (k ≤ n)
IsWithin n (back k) = k < 10
IsWithin n (once x) = Unit
IsWithin n (starred x) = Unit
IsWithin n (anchor a) = Unit

IsWithin-suc : (n : ℕ) (op : Op) → IsWithin n op → IsWithin (suc n) op
IsWithin-suc n (bra k) h = (h.0, omega (arith, h.1))
IsWithin-suc n (ket k) h = (h.0, omega (arith, h.1))
IsWithin-suc n (back k) h = h
IsWithin-suc n (once x) h = tt
IsWithin-suc n (starred x) h = tt
IsWithin-suc n (anchor a) h = tt

All-map {ℓ} :
    {A : Type ℓ} (P Q : A → Type 0) (xs : List A) → ((x : A) → P x → Q x) → All P xs → All Q xs
All-map P Q [] f h = tt
All-map P Q (x ∷ xs) f h = (f x h.0, All-map P Q xs f h.1)

abbrev IsBracket : ℕ → ℕ → Type 0
IsBracket n k = (0 < k) × (k ≤ n)

-- The state of the loop is in bounds.
abbrev IsBuilt : Building → Type 0
IsBuilt b =
    (b.nbra ≤ nbra_limit)
    × (length b.before < nalts_limit)
    × All (All (IsWithin b.nbra)) b.before
    × All (IsWithin b.nbra) b.current
    × All (IsBracket b.nbra) b.stack

abbrev pub IsCompiled : Compiled → Type 0
IsCompiled (compiled alternatives n) =
    (n ≤ nbra_limit)
    × (0 < length alternatives)
    × (length alternatives ≤ nalts_limit)
    × All (All (IsWithin n)) alternatives
IsCompiled (refused message) = Unit
IsCompiled Compiled.undefined = Unit

abbrev IsFine : Step → Type 0
IsFine (go mode b) = IsBuilt b
IsFine (stop answer) = IsCompiled answer

emit-IsBuilt :
    (op : Op) (may : Bool) (b : Building) → IsWithin b.nbra op → IsBuilt b → IsBuilt (emit op may b)
unfolding emit
emit-IsBuilt op may b w (n, l, before, current, stack) = (n, l, before, (w, current), stack)

defchar-IsBuilt : (c : ℕ) (b : Building) → IsBuilt b → IsBuilt (defchar c b)
unfolding defchar
defchar-IsBuilt c b h = emit-IsBuilt (once (chr c)) (if c == b'*' then b.may_star else true) b tt h

open_paren-IsFine : (b : Building) → IsBuilt b → IsFine (open_paren b)
unfolding open_paren
open_paren-IsFine b (n, l, before, current, stack) = elim (Bool-cases (leb nbra_limit b.nbra)) [
  | inl e ↦ rw e tt
  | inr e ↦ rw e (
      emit-IsBuilt (bra (suc b.nbra)) false
        (record b { nbra = suc b.nbra; stack = suc b.nbra ∷ b.stack }) (omega arith, omega arith)
        (
          ground (arith, e),
          l,
          All-map (All (IsWithin b.nbra)) (All (IsWithin (suc b.nbra))) b.before
              (λ ops. All-map (IsWithin b.nbra) (IsWithin (suc b.nbra)) ops (IsWithin-suc b.nbra))
              before,
          All-map (IsWithin b.nbra) (IsWithin (suc b.nbra)) b.current (IsWithin-suc b.nbra) current,
          (
            (omega arith, omega arith),
            All-map (IsBracket b.nbra) (IsBracket (suc b.nbra)) b.stack
                (λ k h. (h.0, omega (arith, h.1))) stack,
          ),
        ))
]

close_paren-IsFine :
    (stack : List ℕ) (b : Building)
    → All (IsBracket b.nbra) stack
    → IsBuilt b
    → IsFine (close_paren stack b)
close_paren-IsFine [] b s h = tt
close_paren-IsFine (k ∷ stack) b s (n, l, before, current, old) =
    emit-IsBuilt (ket k) false (record b { stack = stack }) s.0 (n, l, before, current, s.1)

next_alternative-IsFine :
    (stack : List ℕ) (b : Building) → IsBuilt b → IsFine (next_alternative stack b)
next_alternative-IsFine (k ∷ stack) b h = tt
next_alternative-IsFine [] b (n, l, before, current, old) =
    elim (Bool-cases (ltb nalts_limit (2 + length b.before))) [
      | inl e ↦ rw e tt
      | inr e ↦ rw e (n, ground (arith, e), (current, before), tt, tt)
    ]

digit_or_chr :
    (c : ℕ) (b : Building)
    → IsBuilt b
    → IsFine (
        if is_digit c
        then go at_char (emit (back (c - b'0')) false b)
        else go at_char (emit (once (chr c)) true b))
digit_or_chr c b h = elim (Bool-cases (is_digit c)) [
  | inl e ↦ rw e (emit-IsBuilt (back (c - b'0')) false b (ground (arith, e)) h)
  | inr e ↦ rw e (emit-IsBuilt (once (chr c)) true b tt h)
]

meta-IsFine : (c : ℕ) (b : Building) → IsBuilt b → IsFine (meta c b)
unfolding meta
meta-IsFine c b h = if_else IsFine (c == b'(') (open_paren-IsFine b h) (
    if_else IsFine (c == b'|') (next_alternative-IsFine b.stack b h) (
      if_else IsFine (c == b')') (close_paren-IsFine b.stack b h.4 h) (
        if_else IsFine (c == b'w') (emit-IsBuilt (once word) true b tt h) (
          if_else IsFine (c == b'W') (emit-IsBuilt (once nword) true b tt h) (
            if_else IsFine (c == b'b') (emit-IsBuilt (anchor wbound) false b tt h) (
              if_else IsFine (c == b'B') (emit-IsBuilt (anchor nwbound) false b tt h)
                (digit_or_chr c b h)))))))

put_star-IsBuilt :
    (b : Building) (ops : List Op)
    → All (IsWithin b.nbra) ops
    → IsBuilt b
    → IsBuilt (put_star b ops)
put_star-IsBuilt b (once x ∷ rest) w (n, l, before, current, stack) =
    if_else IsBuilt b.may_star (n, l, before, (tt, w.1), stack)
      (defchar-IsBuilt b'*' b (n, l, before, current, stack))
put_star-IsBuilt b [] w h = defchar-IsBuilt b'*' b h
put_star-IsBuilt b (starred x ∷ rest) w h = defchar-IsBuilt b'*' b h
put_star-IsBuilt b (anchor a ∷ rest) w h = defchar-IsBuilt b'*' b h
put_star-IsBuilt b (bra k ∷ rest) w h = defchar-IsBuilt b'*' b h
put_star-IsBuilt b (ket k ∷ rest) w h = defchar-IsBuilt b'*' b h
put_star-IsBuilt b (back k ∷ rest) w h = defchar-IsBuilt b'*' b h

plain_or_meta-IsFine :
    (re : Bool) (c : ℕ) (strp : Bytes) (b : Building)
    → IsBuilt b
    → IsFine (plain_or_meta re c strp b)
unfolding plain_or_meta
plain_or_meta-IsFine false c strp b h = emit-IsBuilt (once (chr c)) true b tt h
plain_or_meta-IsFine true c strp b h = if_else IsFine (c == 92) h (
    if_else IsFine (c == b'.') (emit-IsBuilt (once dot) true b tt h) (
      if_else IsFine (c == b'*') (put_star-IsBuilt b b.current h.3 h) (
        if_else IsFine (c == b'^' && at_cend b.current) (emit-IsBuilt (anchor circ) false b tt h) (
          if_else IsFine (c == b'$' && ends_alternative strp)
            (emit-IsBuilt (anchor dol) false b tt h)
            (if_else IsFine (c == b'[') h (defchar-IsBuilt c b h))))))

ends_unfinished :
    (o : Option Bitmap)
    → IsCompiled (elim o [ none ↦ Compiled.undefined | some now ↦ refused missing_bracket ])
ends_unfinished none = tt
ends_unfinished (some now) = tt

class_end-IsCompiled :
    (fold : Bool) (class : Class) (bits : Bitmap) → IsCompiled (class_end fold class bits)
class_end-IsCompiled fold between bits = tt
class_end-IsCompiled fold (item c) bits = ends_unfinished (add_range fold c c bits)
class_end-IsCompiled fold (dash c) bits = ends_unfinished (add_range fold c c bits)

with_range :
    (o : Option Bitmap) (f : Bitmap → Step)
    → ((now : Bitmap) → IsFine (f now))
    → IsFine (elim o [ none ↦ stop Compiled.undefined | some now ↦ f now ])
with_range none f h = tt
with_range (some now) f h = h now

class_item-IsBuilt :
    (negated : Bool) (bits : Bitmap) (b : Building)
    → IsBuilt b
    → IsBuilt (emit (class_item negated bits) true b)
class_item-IsBuilt negated bits b h = emit-IsBuilt (class_item negated bits) true b tt h

class_byte-IsFine :
    (fold negated : Bool) (class : Class) (bits : Bitmap) (d : ℕ) (b : Building)
    → IsBuilt b
    → IsFine (class_byte fold negated class bits d b)
unfolding class_byte
class_byte-IsFine fold negated between bits d b h =
    if_else IsFine (d == b']') (class_item-IsBuilt negated bits b h) h
class_byte-IsFine fold negated (item c) bits d b h = if_else IsFine (d == b'-') h (
    with_range (add_range fold c c bits) _
      (λ now. if_else IsFine (d == b']') (class_item-IsBuilt negated now b h) h))
class_byte-IsFine fold negated (dash c) bits d b h =
    if_else IsFine (d == b']')
      (with_range (add_range fold c c bits) _ (λ now. class_item-IsBuilt negated now b h))
      (with_range (add_range fold c d bits) _ (λ now. h))

one_byte-IsFine :
    (re fold : Bool) (mode : Mode) (c : ℕ) (strp : Bytes) (b : Building)
    → IsBuilt b
    → IsFine (one_byte re fold mode c strp b)
unfolding one_byte
one_byte-IsFine re fold at_char c strp b h = plain_or_meta-IsFine re c strp b h
one_byte-IsFine re fold escaped c strp b h = meta-IsFine c b h
one_byte-IsFine re fold class_begin c strp b h = if_else IsFine (c == b'^') h h
one_byte-IsFine re fold class_negated c strp b h = h
one_byte-IsFine re fold (in_class negated class bits) c strp b h =
    class_byte-IsFine fold negated class bits c b h

All-reverse {ℓ} : {A : Type ℓ} (P : A → Type 0) (xs : List A) → All P xs → All P (reverse xs)
All-reverse P [] h = tt
All-reverse P (x ∷ xs) h =
    subst (All P) (sym (reverse-cons x xs))
      (All-append P (reverse xs) (x ∷ []) (All-reverse P xs h.1) (h.0, tt))

length-reverse {ℓ} : {A : Type ℓ} (xs : List A) → length (reverse xs) ≡ length xs
length-reverse [] = refl
length-reverse (x ∷ xs) =
    omega
      (arith, ap length (reverse-cons x xs), length-append (reverse xs) (x ∷ []), length-reverse xs)

length-map {ℓ} : {A : Type ℓ} (f : A → A) (xs : List A) → length (map f xs) ≡ length xs
length-map f [] = refl
length-map f (x ∷ xs) = ap suc (length-map f xs)

All-reversed :
    (n : ℕ) (alternatives : Alternatives)
    → All (All (IsWithin n)) alternatives
    → All (All (IsWithin n)) (map reverse alternatives)
All-reversed n [] h = tt
All-reversed n (ops ∷ rest) h = (All-reverse (IsWithin n) ops h.0, All-reversed n rest h.1)

finish-IsCompiled : (stack : List ℕ) (b : Building) → IsBuilt b → IsCompiled (finish stack b)
finish-IsCompiled (k ∷ stack) b h = tt
finish-IsCompiled [] b (n, l, before, current, stack) =
    let size = length-reverse (map reverse (b.current ∷ b.before)) in
    let same = length-map reverse (b.current ∷ b.before) in
    (
      n,
      omega (arith, size, same),
      omega (arith, size, same, l),
      All-reverse (All (IsWithin b.nbra)) (map reverse (b.current ∷ b.before))
          (All-reversed b.nbra (b.current ∷ b.before) (current, before)),
    )

at_end-IsCompiled :
    (fold : Bool) (mode : Mode) (b : Building) → IsBuilt b → IsCompiled (at_end fold mode b)
at_end-IsCompiled fold at_char b h = finish-IsCompiled b.stack b h
at_end-IsCompiled fold escaped b h = tt
at_end-IsCompiled fold class_begin b h = tt
at_end-IsCompiled fold class_negated b h = tt
at_end-IsCompiled fold (in_class negated class bits) b h = class_end-IsCompiled fold class bits

looped :
    (re fold : Bool) (strp : Bytes) (step : Step)
    → IsFine step
    → ((mode : Mode) (b : Building) → IsBuilt b → IsCompiled (compile_loop re fold mode b strp))
    → IsCompiled
        (elim step [ go now built ↦ compile_loop re fold now built strp | stop answer ↦ answer ])
looped re fold strp (go now built) h f = f now built h
looped re fold strp (stop answer) h f = h

compile_loop-IsCompiled :
    (re fold : Bool) (strp : Bytes) (mode : Mode) (b : Building)
    → IsBuilt b
    → IsCompiled (compile_loop re fold mode b strp)
unfolding compile_loop
compile_loop-IsCompiled re fold [] mode b h = at_end-IsCompiled fold mode b h
compile_loop-IsCompiled re fold (c ∷ strp) mode b h =
    looped re fold strp (one_byte re fold mode c strp b) (one_byte-IsFine re fold mode c strp b h)
      (compile_loop-IsCompiled re fold strp)

-- What compile makes of a pattern has between one and NALTS alternatives; it has at most NBRA pairs
-- of brackets; a bracket in its instructions is one of these, counted from 1, and a back-reference
-- is to a number below 10.
pub compile-IsCompiled :
    (re fold : Bool) (strp : Bytes) → IsCompiled (compile_loop re fold at_char start strp)
compile-IsCompiled re fold strp =
    compile_loop-IsCompiled re fold strp at_char start (omega arith, omega arith, tt, tt, tt)
