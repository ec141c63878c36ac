-- ===== src/Charsubst/Examples.antt =====
-- Inputs for the substitution of characters.
use trn_actions.Prelude.{◌≡◌, refl, some, [], ◌∷◌, ◌++◌, arith, codes}
use trn_actions.Charsubst.{latin1_loop, latin1_to_ascii, strcharsubst}
use trn_actions.Charsubst.Limits.{latin1_to_ascii-take, strcharsubst-line}

-- "Bj", o with a stroke and "rn!", the text of the second table cut at six bytes.
latin1_to_ascii-cut :
    latin1_to_ascii (some (codes "Bj" ++ (0xf8 ∷ codes "rn!"))) 6 2 ≡ (some (codes "Bjoern"), 6)
unfolding latin1_to_ascii latin1_loop
latin1_to_ascii-cut = refl

latin1_to_ascii-single :
    latin1_to_ascii (some (0xa4 ∷ 0x90 ∷ 0xdf ∷ [])) 10 1 ≡ (some (codes " s"), 2)
unfolding latin1_to_ascii latin1_loop
latin1_to_ascii-single = refl

latin1_to_ascii-take_example :
    latin1_to_ascii (some (0xa9 ∷ 0x41 ∷ [])) 3 2 ≡ (some (codes "(c)"), 3)
latin1_to_ascii-take_example = latin1_to_ascii-take (0xa9 ∷ 0x41 ∷ []) 3 2 (omega arith)

strcharsubst-line_example :
    strcharsubst (codes "ab" ++ (10 ∷ codes "cd")) 10 b'd' ≡ (some (codes "ab" ++ (10 ∷ [])), 3)
strcharsubst-line_example =
    strcharsubst-line (codes "ab") (codes "cd") 10 b'd' (ground arith, (ground arith, tt))
      (omega arith) (omega arith) (ground arith) (ground arith)
