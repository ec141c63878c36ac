-- ===== src/Search/Quote.antt =====
-- search.cpp: a string whose special bytes are quoted, compiled as a regular expression.
use trn_actions.Prelude.{
  ℕ, ◌≡◌, refl, ◌∙◌, inl, inr, Bool, true, false, ◌||◌, [], ◌∷◌, arith, Bytes, ◌==◌, if◌then◌else◌,
  Bool-cases,
}
use trn_actions.Search.{chr, once}
use trn_actions.Search.Compile.{
  Building, emit, defchar, meta, plain_or_meta, one_byte, compile_loop, at_char, go, Mode, escaped,
}

abbrev pub is_special : ℕ → Bool
is_special c = c == 92 || (c == b'.' || (c == b'*' || (c == b'^' || (c == b'$' || c == b'['))))

abbrev pub quoted : Bytes → Bytes
quoted [] = []
quoted (c ∷ s) = if is_special c then 92 ∷ c ∷ quoted s else c ∷ quoted s

meta-special :
    (c : ℕ) (b : Building)
    → is_special c ≡ true
    → meta c b ≡ go at_char (emit (once (chr c)) true b)
unfolding meta
meta-special c b h = ground arith

plain_or_meta-ordinary :
    (c : ℕ) (s : Bytes) (b : Building)
    → is_special c ≡ false
    → plain_or_meta true c s b ≡ go at_char (emit (once (chr c)) true b)
unfolding plain_or_meta defchar
plain_or_meta-ordinary c s b h = ground arith

pub loop-go :
    (re fold : Bool) (mode now : Mode) (c : ℕ) (strp : Bytes) (b built : Building)
    → one_byte re fold mode c strp b ≡ go now built
    → compile_loop re fold mode b (c ∷ strp) ≡ compile_loop re fold now built strp
unfolding compile_loop
loop-go re fold mode now c strp b built e = rw (compile_loop, e) refl

-- A string with a backslash before each of its special bytes compiles as a regular expression to
-- what the string itself compiles to as plain text, from any state of the loop.
pub compile_loop-quoted :
    (fold : Bool) (b : Building) (s : Bytes)
    → compile_loop true fold at_char b (quoted s) ≡ compile_loop false fold at_char b s
unfolding compile_loop one_byte plain_or_meta
compile_loop-quoted fold b [] = refl
compile_loop-quoted fold b (c ∷ s) = elim (Bool-cases (is_special c)) [
  | inl e ↦
      let built = emit (once (chr c)) true b in
      rw e (
        loop-go true fold at_char escaped 92 (c ∷ quoted s) b b refl
        ∙ loop-go true fold escaped at_char c (quoted s) b built (meta-special c b e)
        ∙ compile_loop-quoted fold built s)
  | inr e ↦
      let built = emit (once (chr c)) true b in
      rw e (
        loop-go true fold at_char at_char c (quoted s) b built
          (plain_or_meta-ordinary c (quoted s) b e)
        ∙ compile_loop-quoted fold built s)
]
