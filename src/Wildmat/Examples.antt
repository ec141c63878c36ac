-- ===== src/Wildmat/Examples.antt =====
-- Inputs for wildmat.
use trn_actions.Prelude.{◌≡◌, refl, true, false, [], ◌∷◌, arith, if◌then◌else◌, codes}
use trn_actions.Wildmat.{consumes, overrun, refuses, answer, wildmat, class_element, same}
use trn_actions.Wildmat.Spec.{Matches}
use trn_actions.Wildmat.Decide.{Decides, wildmat-Decides}
use trn_actions.Wildmat.Class.{print_class, any_admits, class_element-print_class, single, range}

matches_group : wildmat (codes "comp.lang.c++") (codes "comp.*.[a-d]+?") ≡ answer true
unfolding wildmat
matches_group = refl

refuses_group : wildmat (codes "comp.lang.ada") (codes "*[^a-z]") ≡ answer false
unfolding wildmat
refuses_group = refl

open_class : wildmat (codes "foo") (codes "f[a-") ≡ overrun
unfolding wildmat
open_class = refl

wildmat-Decides_example :
    Decides
      (codes "c*.[a-d]")
      (Matches (codes "comp.a") (codes "c*.[a-d]"))
      (wildmat (codes "comp.a") (codes "c*.[a-d]"))
wildmat-Decides_example = wildmat-Decides (codes "comp.a") (codes "c*.[a-d]")

class_element-print_class_example :
    class_element b'q' (print_class true (range b'a' b'm' ∷ single b'z' ∷ []) (codes ".*")) ≡ (
      if same (any_admits b'q' (range b'a' b'm' ∷ single b'z' ∷ [])) true
      then refuses
      else consumes (codes ".*"))
class_element-print_class_example =
    class_element-print_class b'q' true (range b'a' b'm' ∷ single b'z' ∷ []) (codes ".*")
      (omega arith) tt
