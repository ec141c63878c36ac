-- ===== src/StringAlgos/Examples.antt =====
-- Inputs for the scanning loops.
use trn_actions.Prelude.{◌≡◌, refl, some, codes}
use trn_actions.StringAlgos.{skip_while, skip_digits}

digits_then_dash : skip_digits (some (codes "12-40,50")) ≡ some (codes "-40,50")
unfolding skip_digits skip_while
digits_then_dash = refl
