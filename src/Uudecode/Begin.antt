-- ===== src/Uudecode/Begin.antt =====
-- uudecode.cpp: the line of mode and name that begins a file.
use trn_actions.Prelude.{
  ℕ, ◌≡◌, refl, ap, ◌≢◌, true, false, not, [], ◌∷◌, ◌++◌, arith, Bytes, codes, All, All-append,
}
use trn_actions.StringAlgos.{is_space, skip_while}
use trn_actions.StringAlgos.Split.{skip_while-append}
use trn_actions.Uudecode.Stream.{in_name, name_text}
use trn_actions.Uudecode.Encoded.{NoReturn}

abbrev pub IsBlack : ℕ → Type 0
IsBlack c = is_space c ≡ false

abbrev pub begin_line : Bytes → Bytes → Bytes
begin_line mode name = codes "begin " ++ (mode ++ b' ' ∷ (name ++ 0x0a ∷ []))

pub name_text-line :
    (name : Bytes) → All (λ c. in_name c ≡ true) name → name_text (name ++ 0x0a ∷ []) ≡ name
unfolding name_text
name_text-line [] h = refl
name_text-line (c ∷ name) h = rw h.0 (ap (λ (s : Bytes). c ∷ s) (name_text-line name h.1))

in_name-NoReturn : (name : Bytes) → All (λ c. in_name c ≡ true) name → NoReturn (name ++ 0x0a ∷ [])
in_name-NoReturn [] h = (ground arith, tt)
in_name-NoReturn (c ∷ name) h = (ground arith, in_name-NoReturn name h.1)

black-NoReturn : (mode rest : Bytes) → All IsBlack mode → NoReturn rest → NoReturn (mode ++ rest)
black-NoReturn [] rest h r = r
black-NoReturn (c ∷ mode) rest h r = (ground arith, black-NoReturn mode rest h.1 r)

pub begin_line-NoReturn :
    (mode name : Bytes)
    → All IsBlack mode
    → All (λ c. in_name c ≡ true) name
    → NoReturn (begin_line mode name)
begin_line-NoReturn mode name black h =
    All-append (λ c. c ≢ 0x0d) (codes "begin ") (mode ++ b' ' ∷ (name ++ 0x0a ∷ [])) (ground arith)
      (black-NoReturn mode (b' ' ∷ (name ++ 0x0a ∷ [])) black
        (ground arith, in_name-NoReturn name h))

not_black : (mode : Bytes) → All IsBlack mode → All (λ c. not (is_space c) ≡ true) mode
not_black [] h = tt
not_black (c ∷ mode) h = (ap not h.0, not_black mode h.1)

-- The name behind a mode.
pub skip-mode :
    (c : ℕ) (mode name : Bytes)
    → All IsBlack mode
    → IsBlack c
    → skip_while is_space
        (skip_while (λ c. not (is_space c)) (mode ++ b' ' ∷ ((c ∷ name) ++ 0x0a ∷ [])))
      ≡ (c ∷ name) ++ 0x0a ∷ []
unfolding skip_while
skip-mode c mode name black plain =
    rw
      (skip_while-append (λ c. not (is_space c)) mode (b' ' ∷ ((c ∷ name) ++ 0x0a ∷ []))
        (not_black mode black) refl)
      (rw plain refl)
