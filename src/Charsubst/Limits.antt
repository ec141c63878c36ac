-- ===== src/Charsubst/Limits.antt =====
-- charsubst.cpp: what is written is the translation of the text, cut at the limit, and is ASCII.
use trn_actions.Util2.Copy.{safecpy-take}
use trn_actions.Prelude.{
  ℕ, zero, suc, ◌+◌, ◌-◌, ◌^◌, ◌<◌, ◌≡◌, refl, sym, ap, ◌∙◌, ◌≢◌, inl, inr, true, false, Option,
  none, some, [], ◌∷◌, ◌++◌, append_assoc, arith, Bytes, ltb, ◌==◌, if◌then◌else◌, Bool-cases,
  length, take, length-append, All,
}
use trn_actions.Util2.{safecpy}
use trn_actions.Charsubst.{first_line, latin1_to_ascii, iso2asc, put_all, strcharsubst, latin1_loop}

-- The translation of one byte.
abbrev pub translate : ℕ → ℕ → Bytes
translate t c =
    if ltb 0x9f c
    then (elim (iso2asc t c) [ none ↦ [] | some p ↦ p ])
    else (if ltb c 0x80 then c else b' ') ∷ []

abbrev pub translate_all : ℕ → Bytes → Bytes
translate_all t [] = []
translate_all t (c ∷ iso) = translate t c ++ translate_all t iso

put_all-take :
    (p rest : Bytes) (n : ℕ) (next : ℕ → Bytes)
    → ((k : ℕ) → next (suc k) ≡ take (suc k) rest)
    → put_all p (suc n) next ≡ take (suc n) (p ++ rest)
put_all-take [] rest n next h = h n
put_all-take (b ∷ p) rest zero next h = refl
put_all-take (b ∷ p) rest (suc n) next h =
    let more : (suc (suc n) - 1 == 0) ≡ false = ground arith in
    let left : suc (suc n) - 1 ≡ suc n = omega arith in
    rw (more, left) (ap (λ s. b ∷ s) (put_all-take p rest n next h))

put_entry-take :
    (o : Option Bytes) (rest : Bytes) (n : ℕ) (next : ℕ → Bytes)
    → ((k : ℕ) → next (suc k) ≡ take (suc k) rest)
    → (elim o [ none ↦ next (suc n) | some p ↦ put_all p (suc n) next ]
        ≡ take (suc n) ((elim o [ none ↦ [] | some p ↦ p ]) ++ rest))
put_entry-take none rest n next h = h n
put_entry-take (some p) rest n next h = put_all-take p rest n next h

latin1_loop-take :
    (t : ℕ) (iso : Bytes) (n : ℕ) → latin1_loop t iso (suc n) ≡ take (suc n) (translate_all t iso)
unfolding latin1_loop
latin1_loop-take t [] n = refl
latin1_loop-take t (c ∷ iso) n = elim (Bool-cases (ltb 0x9f c)) [
  | inr e ↦
      rw (latin1_loop, e)
        (put_all-take ((if ltb c 0x80 then c else b' ') ∷ []) (translate_all t iso) n
          (latin1_loop t iso) (latin1_loop-take t iso))
  | inl e ↦
      rw (latin1_loop, e)
        (put_entry-take (iso2asc t c) (translate_all t iso) n (latin1_loop t iso)
          (latin1_loop-take t iso))
]

-- Where there is room for two bytes, the substitution writes the translation of the text, byte by
-- byte, up to as many bytes as the limit says, before the terminator; it returns their number.
pub latin1_to_ascii-take :
    (iso : Bytes) (limit t : ℕ)
    → 1 < limit
    → let out = take limit (translate_all t iso) in
      latin1_to_ascii (some iso) limit t ≡ (some out, length out)
unfolding latin1_to_ascii
latin1_to_ascii-take iso zero t h = absurd (omega arith)
latin1_to_ascii-take iso (suc zero) t h = absurd (omega arith)
latin1_to_ascii-take iso (suc (suc n)) t h =
    ap (λ out. (some out, length out)) (latin1_loop-take t iso (suc n))

first_line-newline :
    (s rest : Bytes) → All (λ c. c ≢ 10) s → first_line (s ++ (10 ∷ rest)) ≡ some (s ++ (10 ∷ []))
unfolding first_line
first_line-newline [] rest h = refl
first_line-newline (c ∷ s) rest (ne, h) =
    let other : (c == 10) ≡ false = ground (arith, ne) in
    rw (other, first_line-newline s rest h) refl

take-append : (s rest : Bytes) → take (length s) (s ++ rest) ≡ s
take-append [] rest = refl
take-append (c ∷ s) rest = ap (λ x. c ∷ x) (take-append s rest)

-- Without a substitution, a line that ends within the limit is copied with its newline, and nothing
-- behind it; its length is returned.
pub strcharsubst-line :
    (s rest : Bytes) (limit subst_char : ℕ)
    → All (λ c. c ≢ 10) s
    → length s + 1 < limit
    → limit < 2 ^ 31
    → subst_char ≢ b'm'
    → subst_char ≢ b'a'
    → strcharsubst (s ++ (10 ∷ rest)) limit subst_char ≡ (some (s ++ (10 ∷ [])), length s + 1)
unfolding strcharsubst
strcharsubst-line s rest limit subst_char h room fits nm na =
    let not_m : (subst_char == b'm') ≡ false = ground (arith, nm) in
    let not_a : (subst_char == b'a') ≡ false = ground (arith, na) in
    let line : Bytes = s ++ (10 ∷ []) in
    let long : length line ≡ length s + 1 = length-append s (10 ∷ []) in
    let short : ltb (length line) limit ≡ true = ground (arith, long, room) in
    let whole : s ++ (10 ∷ rest) ≡ line ++ rest = sym (append_assoc s (10 ∷ []) rest) in
    let same : suc (length line) - 1 ≡ length line = omega arith in
    let copy : safecpy (some (s ++ (10 ∷ rest))) (suc (length line)) ≡ line =
      (safecpy-take (s ++ (10 ∷ rest)) (suc (length line)) (omega arith)
        (omega (arith, long, room, fits))).0
      ∙ ap (λ k. take k (s ++ (10 ∷ rest))) same
      ∙ rw whole (take-append line rest) in
    rw (not_m, not_a, first_line-newline s rest h) (rw (short, copy, long) refl)
