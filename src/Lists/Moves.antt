-- ===== src/Lists/Moves.antt =====
-- list.cpp: the functions that look at the items that are there. An item's pointer is an address and
-- an index; a dereferenced null pointer is `none`.
use trn_actions.Prelude.{
  ℕ, zero, suc, ◌+◌, ◌-◌, Bool, true, false, ◌&&◌, Option, none, some, List, [], ◌∷◌, ltb, leb,
  ◌==◌, if◌then◌else◌, get_elem?, drop,
}
use trn_actions.Int.{ℤ, sub_ℕ, ltb_ℤ, eq_ℤ, pos}
use trn_actions.Lists.{begin_at, Node, Nodes}

-- What the loop of existing_listnum returns from: the new `recent` and the number. `prev` is
-- `prevnode`, and `k` the position of the first node.
abbrev pub before_it : ℕ → Option Node → Option (ℕ × ℕ)
before_it k none = none
before_it k (some p) = some (k - 1, p.node_high)

unfoldable pub existing_loop : ℕ → ℤ → ℕ → Option Node → List Node → Option (ℕ × ℕ)
existing_loop num direction k prev [] = none
existing_loop num direction k prev (n ∷ ns) =
    let rest = existing_loop num direction (suc k) (some n) ns in
    if leb num n.node_high
    then (if ltb_ℤ (pos 0) direction
        then some (k, if ltb num n.node_low then n.node_low else num)
        else if eq_ℤ direction (pos 0)
        then some (k, if ltb num n.node_low then 0 else num)
        else if ltb num n.node_low
        then before_it k prev
        else some (k, num))
    else rest

abbrev pub existing_from : Nodes → ℕ → ℤ → Option ℕ → Option (ℕ × ℕ)
existing_from l num direction none = none
existing_from l num direction (some k) = existing_loop num direction k none (drop k l.nodes)

abbrev pub existing_end : Nodes → ℤ → Option (ℕ × ℕ) → Nodes × ℤ
existing_end l direction (some (k, num)) = (record l { recent = some k }, pos num)
existing_end l direction none = (
  l,
  if eq_ℤ direction (pos 0)
      then pos 0
      else if ltb_ℤ (pos 0) direction
      then pos (l.high + 1)
      else sub_ℕ l.low 1,
)

unfoldable pub existing_listnum : Nodes → ℕ → ℤ → Nodes × ℤ
unfolding existing_loop
existing_listnum l num direction =
    existing_end l direction (existing_from l num direction (begin_at l.nodes l.recent num))

abbrev pub same_item : ℕ × ℕ → ℕ × ℕ → Bool
same_item (a, i) (b, j) = a == b && i == j

abbrev pub first_item : Nodes → ℕ → Option Node → Nodes × Option (ℕ × ℕ)
first_item l k none = (l, none)
first_item l k (some n) = (record l { recent = some k }, some (n.address, 0))

abbrev pub next_in : Nodes → ℕ → Option Node → ℕ × ℕ → Option (Nodes × Option (ℕ × ℕ))
next_in l k none ptr = none
next_in l k (some n) ptr =
    if same_item ptr (n.address, l.items_per_node - 1)
    then some (first_item l (suc k) (get_elem? l.nodes (suc k)))
    else some (l, some (ptr.0, suc ptr.1))

abbrev pub next_at : Nodes → Option ℕ → ℕ × ℕ → Option (Nodes × Option (ℕ × ℕ))
next_at l none ptr = none
next_at l (some k) ptr = next_in l k (get_elem? l.nodes k) ptr

unfoldable pub next_listitem : Nodes → ℕ × ℕ → Option (Nodes × Option (ℕ × ℕ))
next_listitem l ptr = next_at l l.recent ptr

abbrev pub last_item : Nodes → ℕ → Option Node → Nodes × Option (ℕ × ℕ)
last_item l k none = (l, none)
last_item l k (some n) = (record l { recent = some k }, some (n.address, l.items_per_node - 1))

abbrev pub prev_in : Nodes → ℕ → Option Node → ℕ × ℕ → Option (Nodes × Option (ℕ × ℕ))
prev_in l k none ptr = none
prev_in l k (some n) ptr =
    if same_item ptr (n.address, 0)
    then some (if k == 0 then (l, none) else last_item l (k - 1) (get_elem? l.nodes (k - 1)))
    else some (l, some (ptr.0, ptr.1 - 1))

abbrev pub prev_at : Nodes → Option ℕ → ℕ × ℕ → Option (Nodes × Option (ℕ × ℕ))
prev_at l none ptr = none
prev_at l (some k) ptr = prev_in l k (get_elem? l.nodes k) ptr

unfoldable pub prev_listitem : Nodes → ℕ × ℕ → Option (Nodes × Option (ℕ × ℕ))
prev_listitem l ptr = prev_at l l.recent ptr

-- The callback has a state of its own, and its answer `true` ends the walk.
module _ {S : Type 0} (callback : ℕ × ℕ → S → Bool × S) where
  unfoldable pub walk_items : ℕ → ℕ → ℕ → S → Bool × S
  walk_items address i zero s = (false, s)
  walk_items address i (suc left) s =
      let (stop, s') = callback (address, i) s in
      let rest = walk_items address (suc i) left s' in if stop then (true, s') else rest

  unfoldable pub walk_nodes : List Node → S → Bool × S
  unfolding walk_items
  walk_nodes [] s = (false, s)
  walk_nodes (n ∷ ns) s =
      let (stop, s') = walk_items n.address 0 (n.node_high - n.node_low + 1) s in
      let rest = walk_nodes ns s' in if stop then (true, s') else rest

  unfoldable pub walk_list : Nodes → S → Bool × S
  unfolding walk_nodes
  walk_list l s = walk_nodes l.nodes s

-- The position and the number of an item among the nodes from position `k` on.
unfoldable pub search_items : ℕ × ℕ → ℕ → List Node → Option (ℕ × ℕ)
search_items ptr k [] = none
search_items ptr k (n ∷ ns) =
    let rest = search_items ptr (suc k) ns in
    if ptr.0 == n.address && ltb ptr.1 (n.node_high - n.node_low + 1)
    then some (k, ptr.1 + n.node_low)
    else rest

abbrev pub recent_or_first : Option ℕ → ℕ
recent_or_first none = 0
recent_or_first (some k) = k

abbrev pub found_item : Nodes → Option (ℕ × ℕ) → Option (Nodes × ℕ)
found_item l none = none
found_item l (some (k, num)) = some (record l { recent = some k }, num)

abbrev pub or_from_first : Option (ℕ × ℕ) → Option (ℕ × ℕ) → Option (ℕ × ℕ)
or_from_first none o = o
or_from_first (some r) o = some r

-- From `recent` to the end, then from the first node. `none` is the loop that does not end.
unfoldable pub listitem2listnum : Nodes → ℕ × ℕ → Option (Nodes × ℕ)
unfolding search_items
listitem2listnum l ptr =
    let k = recent_or_first l.recent in
    found_item l (or_from_first (search_items ptr k (drop k l.nodes)) (search_items ptr 0 l.nodes))
