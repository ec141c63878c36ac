-- ===== src/Lists.antt =====
-- list.cpp: the dynamic lists of numbered items. The items themselves are not modelled: an item's
-- pointer is the address of its node and its index there. Numbers are not negative.
use trn_actions.Prelude.{
  ℕ, suc, ◌+◌, ◌-◌, ◌*◌, ◌/◌, Bool, true, false, not, ◌&&◌, Option, none, some, List, [], ◌∷◌, ◌++◌,
  ltb, leb, if◌then◌else◌, get_elem?, take, drop,
}
pub mod Addresses
pub mod Cells
pub mod Existing
pub mod Moves
pub mod Next
pub mod Numbers
pub mod Places
pub mod Valid
mod Examples

-- LISTNODE: `data_high` is the last index. The k-th node that a list allocates has the address k.
pub record Node : Type 0 where
  pub address : ℕ
  pub node_low : ℕ
  pub node_high : ℕ

-- LIST: `recent` is a position among the nodes.
pub record Nodes : Type 0 where
  pub nodes : List Node
  pub recent : Option ℕ
  pub low : ℕ
  pub high : ℕ
  pub items_per_node : ℕ
  pub sparse : Bool
  pub allocated : ℕ

pub new_list : ℕ → ℕ → ℕ → Bool → Nodes
new_list low high items_per_node sparse = record {
  nodes = [];
  recent = none;
  low = low;
  high = high;
  items_per_node = items_per_node;
  sparse = sparse;
  allocated = 0;
}

-- `node->low` of a node that is allocated for `num`. C's division rounds toward zero.
unfoldable pub aligned : Nodes → ℕ → ℕ
aligned l num =
    if not l.sparse
    then num
    else if ltb num l.low
    then l.low - (l.low - num) / l.items_per_node * l.items_per_node
    else (num - l.low) / l.items_per_node * l.items_per_node + l.low

unfoldable pub new_node : Nodes → ℕ → Node
unfolding aligned
new_node l num = record {
  address = l.allocated;
  node_low = aligned l num;
  node_high = aligned l num + l.items_per_node - 1;
}

-- Where the loop of listnum2listitem ends: the nodes, the node's position, and whether it is new.
pub record Place : Type 0 where
  pub nodes : List Node
  pub at : ℕ
  pub fresh : Bool

abbrev pub behind : Node → Place → Place
behind n r = record { nodes = n ∷ r.nodes; at = suc r.at; fresh = r.fresh }

-- The loop from a node on. `new` is the node that it would allocate.
unfoldable pub place : Node → ℕ → List Node → Place
place new num [] = record { nodes = new ∷ []; at = 0; fresh = true }
place new num (n ∷ ns) =
    let rest = place new num ns in
    if ltb num n.node_low
    then record { nodes = new ∷ n ∷ ns; at = 0; fresh = true }
    else if leb num n.node_high
    then record { nodes = n ∷ ns; at = 0; fresh = false }
    else behind n rest

-- The node at which the search for a number starts: `recent`, or the first where that is behind it.
abbrev pub begin_from : Option Node → ℕ → ℕ → Option ℕ
begin_from none num k = none
begin_from (some n) num k = if ltb num n.node_low then some 0 else some k

abbrev pub begin_at : List Node → Option ℕ → ℕ → Option ℕ
begin_at ns none num = none
begin_at ns (some k) num = begin_from (get_elem? ns k) num k

unfoldable pub place_from : Node → ℕ → List Node → Option ℕ → Place
unfolding place
place_from new num ns none = record { nodes = new ∷ ns; at = 0; fresh = true }
place_from new num ns (some k) =
    let r = place new num (drop k ns) in
    record { nodes = take k ns ++ r.nodes; at = k + r.at; fresh = r.fresh }

abbrev pub item_in : Option Node → ℕ → Option (ℕ × ℕ)
item_in none num = none
item_in (some n) num = some (n.address, num - n.node_low)

abbrev pub store_place : Nodes → Node → Place → Nodes
store_place l new p = record l {
  nodes = p.nodes;
  recent = some p.at;
  high = if p.fresh && ltb l.high new.node_high then new.node_high else l.high;
  allocated = if p.fresh then suc l.allocated else l.allocated;
}

-- The list, the item's pointer, and the node that init_node is called on.
abbrev pub visited : Nodes → ℕ → Node → Place → Nodes × Option (ℕ × ℕ) × Option Node
visited l num new p =
    (store_place l new p, item_in (get_elem? p.nodes p.at) num, if p.fresh then some new else none)

unfoldable pub listnum2listitem : Nodes → ℕ → Nodes × Option (ℕ × ℕ) × Option Node
unfolding place_from new_node
listnum2listitem l num =
    visited l num (new_node l num)
      (place_from (new_node l num) num l.nodes (begin_at l.nodes l.recent num))
