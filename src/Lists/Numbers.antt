-- ===== src/Lists/Numbers.antt =====
-- listitem2listnum of list.cpp is the inverse of the cells of a list.
use trn_actions.Prelude.{
  ℕ, zero, suc, ◌≡◌, refl, ap, subst, ◌⊎◌, inl, inr, ◌&&◌, Option, none, some, List, [], ◌∷◌, leb,
  Bool-cases, some-eq, drop, All,
}
use trn_actions.Lists.{Node, Nodes}
use trn_actions.Lists.Cells.{cell_of}
use trn_actions.Lists.Addresses.{Differs, Unique, search_items-Differs, search_items-cell}
use trn_actions.Lists.Moves.{search_items, recent_or_first, listitem2listnum}
use trn_actions.Lists.Valid.{IsValid}

abbrev FoundOrNone : ℕ → Option (ℕ × ℕ) → Type 0
FoundOrNone m o = (o ≡ none) ⊎ ((i : ℕ) × (o ≡ some (i, m)))

search_items-drop :
    (j k : ℕ) (ns : List Node) (m : ℕ) (c : ℕ × ℕ)
    → Unique ns
    → cell_of ns m ≡ some c
    → FoundOrNone m (search_items c j (drop k ns))
unfolding cell_of
search_items-drop j zero ns m c u e = inr (search_items-cell j ns m c u e)
search_items-drop j (suc k) [] m c u e = cc
search_items-drop j (suc k) (n ∷ ns) m c u e =
    elim (Bool-cases (leb n.node_low m && leb m n.node_high)) [
      | inl here ↦
          let at = ap (λ (p : ℕ × ℕ). p.0) (some-eq (rw here at e)) in
          inl (search_items-Differs c j k ns (subst (λ (a : ℕ). All (Differs a) ns) at u.0))
      | inr elsewhere ↦ search_items-drop j k ns m c u.1 (rw elsewhere at e)
    ]

-- In a valid list, the number of the cell of a number is that number, wherever the search starts.
pub listitem2listnum-cell_of :
    (l : Nodes) (m : ℕ) (c : ℕ × ℕ)
    → IsValid l
    → cell_of l.nodes m ≡ some c
    → (k : ℕ) × (listitem2listnum l c ≡ some (record l { recent = some k }, m))
unfolding listitem2listnum
listitem2listnum-cell_of l m c v e =
    let k = recent_or_first l.recent in
    let (first, found) = search_items-cell 0 l.nodes m c v.unique e in
    elim (search_items-drop k k l.nodes m c v.unique e) [
      | inl nowhere ↦ (first, rw (nowhere, found) refl)
      | inr (i, there) ↦ (i, rw there refl)
    ]
