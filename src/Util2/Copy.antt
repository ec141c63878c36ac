-- ===== src/Util2/Copy.antt =====
-- What safecpy and cpytill of util2.cpp copy.
use native.Mathlib.Decide.{ℕ_discrete}
use trn_actions.Prelude.{
  ℕ, zero, suc, ◌+◌, ◌-◌, ◌%◌, ◌^◌, ◌≤◌, ◌<◌, ◌≡◌, refl, ◌≢◌, ◌⊎◌, inl, inr, some, [], ◌∷◌, ◌++◌,
  arith, Bytes, ◌==◌, if◌then◌else◌, length, take, peek,
}
use trn_actions.Util2.{safecpy, copy_loop, cpytill, put, backslash}

copy_loop-take : (s : Bytes) (n : ℕ) → n < 2 ^ 31 → copy_loop s (suc n) ≡ take n s
unfolding copy_loop
copy_loop-take [] zero h = refl
copy_loop-take [] (suc n) h = refl
copy_loop-take (c ∷ s) zero h = ground arith
copy_loop-take (c ∷ s) (suc n) h =
    let e : (suc (suc n) + (2 ^ 32 - 1)) % 2 ^ 32 ≡ suc n = omega arith in
    rw e (ground (arith, copy_loop-take s n (omega arith)))

length-take-le : (n : ℕ) (s : Bytes) → length (take n s) ≤ n
length-take-le zero s = omega arith
length-take-le (suc n) [] = omega arith
length-take-le (suc n) (c ∷ s) = omega (arith, length-take-le n s)

-- With a positive int for `len`, the copy is the first len - 1 bytes: with its terminator it fits
-- in `len` bytes.
pub safecpy-take :
    (s : Bytes) (len : ℕ)
    → 0 < len
    → len < 2 ^ 31
    → (safecpy (some s) len ≡ take (len - 1) s) × (length (safecpy (some s) len) + 1 ≤ len)
unfolding safecpy
safecpy-take s zero pos fits = elim pos [ ]
safecpy-take s (suc n) pos fits =
    let e : suc n - 1 ≡ n = omega arith in
    rw (copy_loop-take s n (omega arith), e) (refl, omega (arith, length-take-le n s))

-- The text with a backslash before each delimiter.
pub escape : ℕ → Bytes → Bytes
escape delim [] = []
escape delim (c ∷ s) = if c == delim then backslash ∷ c ∷ escape delim s else c ∷ escape delim s

abbrev pub EndsPlain : Bytes → Type 0
EndsPlain [] = Unit {0}
EndsPlain (c ∷ []) = c ≢ backslash
EndsPlain (c ∷ d ∷ s) = EndsPlain (d ∷ s)

escape_delim :
    (delim : ℕ) (s : Bytes) → escape delim (delim ∷ s) ≡ backslash ∷ delim ∷ escape delim s
unfolding escape
escape_delim delim s = ground arith

escape_plain : (delim c : ℕ) (s : Bytes) → c ≢ delim → escape delim (c ∷ s) ≡ c ∷ escape delim s
unfolding escape
escape_plain delim c s h = ground arith

cpytill_escaped :
    (delim : ℕ) (from : Bytes)
    → cpytill (backslash ∷ delim ∷ from) delim ≡ put delim (cpytill from delim)
unfolding cpytill
cpytill_escaped delim from = ground arith

cpytill_plain :
    (delim c : ℕ) (from : Bytes)
    → c ≢ delim
    → (c ≢ backslash) ⊎ (peek from ≢ delim)
    → from ≢ []
    → cpytill (c ∷ from) delim ≡ put c (cpytill from delim)
unfolding cpytill
cpytill_plain delim c [] h k full = absurd (full refl)
cpytill_plain delim c (d ∷ from) h k full = ground arith

append-ne-nil : (s rest : Bytes) (d : ℕ) → s ++ d ∷ rest ≢ []
append-ne-nil [] rest d h = cc
append-ne-nil (c ∷ s) rest d h = cc

peek-escape :
    (delim d : ℕ) (s rest : Bytes) → delim ≢ backslash → peek (escape delim (d ∷ s) ++ rest) ≢ delim
unfolding escape
peek-escape delim d s rest plain = ground arith

-- A byte before the end of an escaped text is not taken for an escape.
safe_byte :
    (delim c : ℕ) (s rest : Bytes)
    → delim ≢ backslash
    → EndsPlain (c ∷ s)
    → (c ≢ backslash) ⊎ (peek (escape delim s ++ delim ∷ rest) ≢ delim)
safe_byte delim c [] rest plain ends = inl ends
safe_byte delim c (d ∷ s) rest plain ends = inr (peek-escape delim d s (delim ∷ rest) plain)

EndsPlain-tail : (c : ℕ) (s : Bytes) → EndsPlain (c ∷ s) → EndsPlain s
EndsPlain-tail c [] ends = tt
EndsPlain-tail c (d ∷ s) ends = ends

-- Copying up to a delimiter undoes the escaping: the text comes back whole, and the returned
-- pointer is at the delimiter. The delimiter is no backslash and no terminator, and the text does
-- not end in a backslash, which would take the delimiter for an escaped one.
pub cpytill-escape :
    (delim : ℕ) (s rest : Bytes)
    → 0 < delim
    → delim ≢ backslash
    → EndsPlain s
    → cpytill (escape delim s ++ delim ∷ rest) delim ≡ some (s, delim ∷ rest)
cpytill-escape delim [] rest pos plain ends = stop rest
  where
    stop :
        (rest : Bytes) → cpytill (escape delim [] ++ delim ∷ rest) delim ≡ some ([], delim ∷ rest)
    stop [] = unfold cpytill escape in ground arith
    stop (r ∷ rest) = unfold cpytill escape in ground arith
cpytill-escape delim (c ∷ s) rest pos plain ends =
    let ih = cpytill-escape delim s rest pos plain (EndsPlain-tail c s ends) in
    elim (ℕ_discrete c delim) [
      | yes e ↦ rw (e, escape_delim delim s, cpytill_escaped, ih)
      | no ne ↦ rw (
        escape_plain delim c s ne,
        cpytill_plain delim c _ ne (safe_byte delim c s rest plain ends)
            (append-ne-nil (escape delim s) rest delim),
        ih,
      )
    ]
