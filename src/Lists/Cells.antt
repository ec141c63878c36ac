-- ===== src/Lists/Cells.antt =====
-- The cell of a number in a list of nodes, and nodes in order.
use trn_actions.Prelude.{
  ℕ, ◌+◌, ◌-◌, ◌≤◌, ◌<◌, ◌≡◌, refl, false, ◌&&◌, Option, none, some, List, [], ◌∷◌, arith, leb,
  if◌then◌else◌,
}
use trn_actions.Lists.{Node}

abbrev pub Covers : Node → ℕ → Type 0
Covers n m = (n.node_low ≤ m) × (m ≤ n.node_high)

-- The first node that covers the number, and the number's index there.
unfoldable pub cell_of : List Node → ℕ → Option (ℕ × ℕ)
cell_of [] m = none
cell_of (n ∷ ns) m =
    if leb n.node_low m && leb m n.node_high then some (n.address, m - n.node_low) else cell_of ns m

-- The nodes are of one size, follow each other without overlap, and begin at `b` or later.
abbrev pub Ascend : ℕ → ℕ → List Node → Type 0
Ascend w b [] = Unit {0}
Ascend w b (n ∷ ns) =
    (b ≤ n.node_low) × (n.node_high + 1 ≡ n.node_low + w) × Ascend w (n.node_high + 1) ns

-- No number below the nodes has a cell.
pub cell_of-below :
    (w b : ℕ) (ns : List Node) (m : ℕ) → 0 < w → Ascend w b ns → m < b → cell_of ns m ≡ none
unfolding cell_of
cell_of-below w b [] m pos_w h lt = refl
cell_of-below w b (n ∷ ns) m pos_w h lt =
    let outside : leb n.node_low m ≡ false = ground arith in
    rw outside (cell_of-below w (n.node_high + 1) ns m pos_w h.2 (omega arith))

-- A node to be put among others for a number: it covers the number, and each of the others that
-- does not cover it stays clear of it.
abbrev pub Apart : Node → ℕ → Node → Type 0
Apart new num n =
    (num < n.node_low → new.node_high < n.node_low)
    × (n.node_high < num → n.node_high < new.node_low)
