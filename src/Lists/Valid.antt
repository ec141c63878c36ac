-- ===== src/Lists/Valid.antt =====
-- listnum2listitem of list.cpp gives every number a cell of its own and keeps it.
use trn_actions.Lists.Addresses.{Differs, Unique, place-Unique}
use trn_actions.Lists.Places.{
  place-drop, place_from-first, place-Ascend, place-All, EndsAt, place-EndsAt, place-keeps,
  place-not_fresh,
}
use native.Mathlib.Nat.{div-mul-le_self, lt-div-mul-add, mul-le-mul_right, lt_of_mul-lt-mul_right}
use trn_actions.Prelude.{
  ℕ, suc, ◌+◌, ◌-◌, ◌*◌, ◌/◌, ◌≤◌, ◌<◌, ◌≡◌, refl, inl, inr, true, false, Option, none, some, List,
  [], ◌∷◌, arith, ltb, if◌then◌else◌, Bool-cases, get_elem?, All,
}
use trn_actions.Lists.{
  new_node, aligned, Node, Nodes, begin_at, place_from, place, begin_from, listnum2listitem,
  store_place,
}
use trn_actions.Lists.Cells.{Covers, Ascend, Apart, cell_of}

-- The node begins a whole number of nodes behind the list's low number, at an address given out.
abbrev pub IsAligned : Nodes → Node → Type 0
IsAligned l n = (n.address < l.allocated) × (q : ℕ) × (n.node_low ≡ l.low + q * l.items_per_node)

abbrev pub RecentIn : List Node → Option ℕ → Type 0
RecentIn ns none = ns ≡ []
RecentIn ns (some k) = (n : Node) × (get_elem? ns k ≡ some n)

-- A sparse list whose nodes are in order, do not overlap, are aligned and have addresses of their own; `recent` is one of them,
-- or null where there is none.
pub record IsValid (l : Nodes) : Type 0 where
  pub is_sparse : l.sparse ≡ true
  pub not_empty : 0 < l.items_per_node
  pub in_order : Ascend l.items_per_node l.low l.nodes
  pub are_aligned : All (IsAligned l) l.nodes
  pub recent_in : RecentIn l.nodes l.recent
  pub unique : Unique l.nodes

aligned_at :
    (l : Nodes) (num : ℕ)
    → l.sparse ≡ true
    → l.low ≤ num
    → aligned l num ≡ (num - l.low) / l.items_per_node * l.items_per_node + l.low
unfolding aligned
aligned_at l num sparse h =
    let not_below : ltb num l.low ≡ false = ground arith in rw (sparse, not_below) refl

new_node-Covers : (l : Nodes) (num : ℕ) → IsValid l → l.low ≤ num → Covers (new_node l num) num
unfolding new_node
new_node-Covers l num v h = rw (aligned_at l num v.is_sparse h) (
  omega (arith, div-mul-le_self (num - l.low) l.items_per_node),
  omega (arith, lt-div-mul-add {a = num - l.low} v.not_empty),
)

-- Multiples of w that are apart are apart by w.
multiples : (w a b : ℕ) → a * w < b * w → a * w + w ≤ b * w
multiples w a b h = omega (arith, mul-le-mul_right w (lt_of_mul-lt-mul_right w h))

-- Nodes that are aligned stay clear of a new node for a number, or cover the number.
aligned-Apart :
    (l : Nodes) (num : ℕ) (n : Node)
    → IsValid l
    → l.low ≤ num
    → n.node_high + 1 ≡ n.node_low + l.items_per_node
    → IsAligned l n
    → Apart (new_node l num) num n
unfolding new_node
aligned-Apart l num n v h size (given, q, low) =
    let w = l.items_per_node in
    let d = (num - l.low) / w in
    let start = aligned_at l num v.is_sparse h in
    let under = div-mul-le_self (num - l.low) w in
    let over = lt-div-mul-add {a = num - l.low} v.not_empty in
    (
      λ below.
          rw start
            (omega (arith, multiples w d q (omega (arith, low, under, below)), low, v.not_empty)),
      λ beyond.
          rw start
            (omega (arith, multiples w q d (omega (arith, low, over, beyond, size)), low, size)),
    )

All-Apart :
    (l : Nodes) (num b : ℕ) (ns : List Node)
    → IsValid l
    → l.low ≤ num
    → Ascend l.items_per_node b ns
    → All (IsAligned l) ns
    → All (Apart (new_node l num) num) ns
All-Apart l num b [] v h order a = tt
All-Apart l num b (n ∷ ns) v h order a =
    (aligned-Apart l num n v h order.1 a.0, All-Apart l num (n.node_high + 1) ns v h order.2 a.1)

-- Where the search starts at `recent`, it ends where it does from the first node.
pub place_from-place :
    (l : Nodes) (num : ℕ) (new : Node)
    → IsValid l
    → place_from new num l.nodes (begin_at l.nodes l.recent num) ≡ place new num l.nodes
unfolding place_from place
place_from-place l num new v = go l.recent v.recent_in
  where
    cached :
        (k : ℕ) (n : Node)
        → get_elem? l.nodes k ≡ some n
        → place_from new num l.nodes (begin_from (some n) num k) ≡ place new num l.nodes
    cached k n e = elim (Bool-cases (ltb num n.node_low)) [
      | inl below ↦ rw below (place_from-first new num l.nodes)
      | inr reached ↦ rw reached (
          place-drop new num l.items_per_node l.low l.nodes k n v.not_empty v.in_order e
            (ground arith))
    ]

    go :
        (r : Option ℕ)
        → RecentIn l.nodes r
        → place_from new num l.nodes (begin_at l.nodes r num) ≡ place new num l.nodes
    go none e = rw e refl
    go (some k) (n, e) = rw e (cached k n e)

more_allocated :
    (l l' : Nodes) (ns : List Node)
    → l.allocated ≤ l'.allocated
    → l'.low ≡ l.low
    → l'.items_per_node ≡ l.items_per_node
    → All (IsAligned l) ns
    → All (IsAligned l') ns
more_allocated l l' [] more low size a = tt
more_allocated l l' (n ∷ ns) more low size ((given, q, at), a) =
    ((omega (arith, given, more), q, rw (low, size) at), more_allocated l l' ns more low size a)

new_node-IsAligned :
    (l : Nodes) (num : ℕ)
    → IsValid l
    → l.low ≤ num
    → (q : ℕ) × ((new_node l num).node_low ≡ l.low + q * l.items_per_node)
unfolding new_node
new_node-IsAligned l num v h =
    ((num - l.low) / l.items_per_node, rw (aligned_at l num v.is_sparse h) (omega arith))

new_node_size :
    (l : Nodes) (num : ℕ)
    → IsValid l
    → l.low ≤ num
    → ((new_node l num).node_high + 1 ≡ (new_node l num).node_low + l.items_per_node)
      × (l.low ≤ (new_node l num).node_low)
unfolding new_node
new_node_size l num v h =
    (omega (arith, v.not_empty), rw (aligned_at l num v.is_sparse h) (omega arith))

not_given : (l : Nodes) (ns : List Node) → All (IsAligned l) ns → All (Differs l.allocated) ns
not_given l [] a = tt
not_given l (n ∷ ns) a = (ground arith, not_given l ns a.1)

module _ (l : Nodes) (num : ℕ) (v : IsValid l) (h : l.low ≤ num) where
  abbrev stored : Nodes
  stored = store_place l (new_node l num) (place (new_node l num) num l.nodes)

  stored-IsAligned : All (IsAligned stored) stored.nodes
  stored-IsAligned = elim (Bool-cases (place (new_node l num) num l.nodes).fresh) [
    | inl fresh ↦
        let given : stored.allocated ≡ suc l.allocated = rw fresh refl in
        place-All (new_node l num) num (IsAligned stored) l.nodes
          (
            unfold new_node in omega (arith, given),
            (new_node-IsAligned l num v h).0,
            (new_node-IsAligned l num v h).1,
          )
          (more_allocated l stored l.nodes (omega (arith, given)) refl refl v.are_aligned)
    | inr old ↦
        let given : stored.allocated ≡ l.allocated = rw old refl in
        rw (place-not_fresh (new_node l num) num l.nodes old)
          (more_allocated l stored l.nodes (omega (arith, given)) refl refl v.are_aligned)
  ]

  ends : EndsAt (new_node l num) num stored.nodes (place (new_node l num) num l.nodes).at
  ends = place-EndsAt (new_node l num) num l.nodes (new_node-Covers l num v h)

  stored-IsValid : IsValid stored
  stored-IsValid = record {
    is_sparse = v.is_sparse;
    not_empty = v.not_empty;
    in_order =
        place-Ascend (new_node l num) num l.items_per_node l.low l.nodes v.not_empty
          (new_node-Covers l num v h) (new_node_size l num v h).0 (new_node_size l num v h).1
          v.in_order (All-Apart l num l.low l.nodes v h v.in_order v.are_aligned);
    are_aligned = stored-IsAligned;
    recent_in = (ends.0, ends.1);
    unique =
        place-Unique (new_node l num) num l.nodes v.unique
          (unfold new_node in not_given l l.nodes v.are_aligned);
  }

-- In a valid sparse list, every number from the list's low number on gets a cell, and the pointer
-- that is returned is that cell. The list stays valid, and a number that has a cell keeps it.
pub listnum2listitem_lem :
    (l : Nodes) (num : ℕ)
    → IsValid l
    → l.low ≤ num
    → (l' : Nodes) × (c : ℕ × ℕ) × (init : Option Node) × (listnum2listitem l num
        ≡ (l', some c, init))
      × IsValid l'
      × (cell_of l'.nodes num ≡ some c)
      × ((m : ℕ) (d : ℕ × ℕ) → cell_of l.nodes m ≡ some d → cell_of l'.nodes m ≡ some d)
unfolding listnum2listitem
listnum2listitem_lem l num v h =
    let new = new_node l num in
    let (n, found, cell) = ends l num v h in
    (
      stored l num v h,
      (n.address, num - n.node_low),
      if (place new num l.nodes).fresh then some new else none,
      rw (place_from-place l num new v, found) refl,
      stored-IsValid l num v h,
      cell,
      λ m d had.
          place-keeps new num l.items_per_node l.low l.nodes m d v.not_empty v.in_order
            (All-Apart l num l.low l.nodes v h v.in_order v.are_aligned) had,
    )
