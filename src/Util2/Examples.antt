-- ===== src/Util2/Examples.antt =====
-- Inputs for the functions of util2.cpp.
use trn_actions.Prelude.{◌≡◌, refl, false, some, codes}
use trn_actions.Util2.{cpytill, in_string, safecpy}

finds_inside : in_string (codes "Re: Hello") (codes "hell") false ≡ some (codes "Hello")
unfolding in_string
finds_inside = refl

stops_at_colon : cpytill (codes "a\\:b:c") b':' ≡ some (codes "a:b", codes ":c")
unfolding cpytill
stops_at_colon = refl

cuts : safecpy (some (codes "newsgroup")) 5 ≡ codes "news"
unfolding safecpy
cuts = refl
