-- ===== src/StringAlgos/Split.antt =====
-- What the scanning loops of string-algos.h return.
use trn_actions.Prelude.{
  ℕ, ◌≤◌, ◌<◌, ◌≡◌, refl, ap, inl, inr, Bool, true, false, [], ◌∷◌, ◌++◌, arith, Bytes, Bool-cases,
  length, peek, All,
}
use trn_actions.StringAlgos.{skip_while}

-- The loop stops at the terminator or at the first byte that fails the test.
abbrev pub StopsAt : (ℕ → Bool) → Bytes → Type 0
StopsAt p [] = Unit {0}
StopsAt p (c ∷ s) = p c ≡ false

-- The scanned text is a run of bytes that pass the test, and what the loop returns.
abbrev pub Scan : (ℕ → Bool) → Bytes → Bytes → Type 0
Scan p s rest = (run : Bytes) × (s ≡ run ++ rest) × All (λ c. p c ≡ true) run × StopsAt p rest

pub skip_while-Scan : (p : ℕ → Bool) (s : Bytes) → Scan p s (skip_while p s)
unfolding skip_while
skip_while-Scan p [] = ([], refl, tt, tt)
skip_while-Scan p (c ∷ s) = elim (Bool-cases (p c)) [
  | inl e ↦
      let (run, split, all, stop) = skip_while-Scan p s in
      rw e (c ∷ run, ap (λ (t : Bytes). c ∷ t) split, (e, all), stop)
  | inr e ↦ rw e ([], refl, tt, e)
]

-- A run of bytes that pass the test, followed by text at which the loop stops, is skipped to
-- exactly that text.
pub skip_while-append :
    (p : ℕ → Bool) (run rest : Bytes)
    → All (λ c. p c ≡ true) run
    → StopsAt p rest
    → skip_while p (run ++ rest) ≡ rest
unfolding skip_while
skip_while-append p [] [] all stop = refl
skip_while-append p [] (c ∷ rest) all stop = rw stop
skip_while-append p (c ∷ run) rest all stop = rw all.0 (skip_while-append p run rest all.1 stop)

-- Skipping again moves no further.
pub skip_while-skip_while :
    (p : ℕ → Bool) (s : Bytes) → skip_while p (skip_while p s) ≡ skip_while p s
skip_while-skip_while p s =
    let (run, split, all, stop) = skip_while-Scan p s in
    skip_while-append p [] (skip_while p s) tt stop

pub length-skip_while-le : (p : ℕ → Bool) (s : Bytes) → length (skip_while p s) ≤ length s
unfolding skip_while
length-skip_while-le p [] = omega arith
length-skip_while-le p (c ∷ s) = ground (arith, length-skip_while-le p s)

pub length-skip_while-lt :
    (p : ℕ → Bool) (s : Bytes)
    → p (peek s) ≡ true
    → p 0 ≡ false
    → length (skip_while p s) < length s
unfolding skip_while
length-skip_while-lt p [] h zero_fails = cc
length-skip_while-lt p (c ∷ s) h zero_fails = rw h (omega (arith, length-skip_while-le p s))
