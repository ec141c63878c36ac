-- ===== src/Lists/Examples.antt =====
-- A sparse list of articles, ten to a node.
use trn_actions.Prelude.{ℕ, ◌≡◌, refl, true, Option, some, [], ◌∷◌, arith}
use trn_actions.Int.{pos}
use trn_actions.Lists.{new_list, listnum2listitem, Node, Nodes}
use trn_actions.Lists.Cells.{cell_of}
use trn_actions.Lists.Moves.{existing_listnum, listitem2listnum}
use trn_actions.Lists.Existing.{number_or_zero, existing_listnum-cell_of}
use trn_actions.Lists.Numbers.{listitem2listnum-cell_of}
use trn_actions.Lists.Valid.{IsValid, listnum2listitem_lem}

-- Nodes for 1-10 and 31-40; the first was allocated last.
abbrev articles : Nodes
articles = record {
  nodes =
      record { address = 1; node_low = 1; node_high = 10 }
      ∷ record { address = 0; node_low = 31; node_high = 40 }
      ∷ [];
  recent = some 1;
  low = 1;
  high = 40;
  items_per_node = 10;
  sparse = true;
  allocated = 2;
}

built :
    (listnum2listitem (listnum2listitem (new_list 1 30 10 true) 35).0 7).0
    ≡ record articles { recent = some 0 }
unfolding listnum2listitem new_list
built = refl

nearest : (existing_listnum articles 15 (pos 1)).1 ≡ pos 31
unfolding existing_listnum
nearest = refl

articles-IsValid : IsValid articles
articles-IsValid = record {
  is_sparse = refl;
  not_empty = omega arith;
  in_order = (omega arith, refl, (omega arith, refl, tt));
  are_aligned = ((omega arith, 0, refl), ((omega arith, 3, refl), tt));
  recent_in = (record { address = 0; node_low = 31; node_high = 40 }, refl);
  unique = ((ground arith, tt), (tt, tt));
}

listnum2listitem_lem_example :
    (l' : Nodes) × (c : ℕ × ℕ) × (init : Option Node) × (listnum2listitem articles 15
      ≡ (l', some c, init))
    × IsValid l'
    × (cell_of l'.nodes 15 ≡ some c)
    × ((m : ℕ) (d : ℕ × ℕ) → cell_of articles.nodes m ≡ some d → cell_of l'.nodes m ≡ some d)
listnum2listitem_lem_example = listnum2listitem_lem articles 15 articles-IsValid (omega arith)

listitem2listnum-cell_of_example :
    (k : ℕ) × (listitem2listnum articles (1, 6) ≡ some (record articles { recent = some k }, 7))
listitem2listnum-cell_of_example =
    listitem2listnum-cell_of articles 7 (1, 6) articles-IsValid (unfold cell_of in refl)

existing_listnum-cell_of_example :
    (existing_listnum articles 15 (pos 0)).1 ≡ pos (number_or_zero 15 (cell_of articles.nodes 15))
existing_listnum-cell_of_example = existing_listnum-cell_of articles 15 articles-IsValid

abbrev at_ten : Nodes
at_ten = record articles { recent = some 0 }

at_ten-IsValid : IsValid at_ten
at_ten-IsValid = record {
  is_sparse = refl;
  not_empty = omega arith;
  in_order = articles-IsValid.in_order;
  are_aligned = ((omega arith, 0, refl), ((omega arith, 3, refl), tt));
  recent_in = (record { address = 1; node_low = 1; node_high = 10 }, refl);
  unique = articles-IsValid.unique;
}
