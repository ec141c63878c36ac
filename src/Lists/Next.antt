-- ===== src/Lists/Next.antt =====
-- next_listitem of list.cpp goes through the cells in the order of their numbers.
use trn_actions.Lists.Valid.{IsValid}
use trn_actions.Lists.Moves.{next_in, next_listitem, next_at}
use trn_actions.Prelude.{
  ℕ, zero, suc, ◌+◌, ◌-◌, ◌≤◌, ◌<◌, ◌≡◌, refl, sym, ap, ◌∙◌, subst, ◌⊎◌, inl, inr, true, false,
  ◌&&◌, Option, none, some, List, [], ◌∷◌, arith, ltb, leb, ◌==◌, Bool-cases, some-eq, get_elem?,
}
use trn_actions.Lists.{Node, Nodes}
use trn_actions.Lists.Cells.{Covers, cell_of, Ascend, cell_of-below}
use trn_actions.Lists.Places.{get_elem?-Ascend}

cell_of-Covers :
    (w b k m : ℕ) (ns : List Node) (n : Node)
    → 0 < w
    → Ascend w b ns
    → get_elem? ns k ≡ some n
    → Covers n m
    → cell_of ns m ≡ some (n.address, m - n.node_low)
unfolding cell_of
cell_of-Covers w b k m [] n pos_w h e c = cc
cell_of-Covers w b zero m (x ∷ ns) n pos_w h e c =
    let same = some-eq e in
    let covered : (leb n.node_low m && leb m n.node_high) ≡ true = ground arith in
    rw same (rw covered refl)
cell_of-Covers w b (suc k) m (x ∷ ns) n pos_w h e c =
    let behind_x = get_elem?-Ascend w (x.node_high + 1) ns k n pos_w h.2 e in
    let missed : (leb x.node_low m && leb m x.node_high) ≡ false = ground arith in
    rw missed (cell_of-Covers w (x.node_high + 1) k m ns n pos_w h.2 e c)

size_at :
    (w b k : ℕ) (ns : List Node) (n : Node)
    → Ascend w b ns
    → get_elem? ns k ≡ some n
    → n.node_high + 1 ≡ n.node_low + w
size_at w b k [] n h e = cc
size_at w b zero (x ∷ ns) n h e =
    subst (λ (y : Node). y.node_high + 1 ≡ y.node_low + w) (some-eq e) h.1
size_at w b (suc k) (x ∷ ns) n h e = size_at w (x.node_high + 1) k ns n h.2 e

-- The number comes before the node, or there is no node.
abbrev Before : ℕ → Option Node → Type 0
Before j none = Unit {0}
Before j (some n) = j < n.node_low

cell_of-between :
    (w b k j : ℕ) (ns : List Node) (n : Node)
    → 0 < w
    → Ascend w b ns
    → get_elem? ns k ≡ some n
    → n.node_high < j
    → Before j (get_elem? ns (suc k))
    → cell_of ns j ≡ none
unfolding cell_of
cell_of-between w b k j [] n pos_w h e beyond before = cc
cell_of-between w b zero j (x ∷ []) n pos_w h e beyond before =
    let same = some-eq e in
    let missed : (leb n.node_low j && leb j n.node_high) ≡ false = ground arith in
    rw same (rw missed refl)
cell_of-between w b zero j (x ∷ y ∷ ns) n pos_w h e beyond before =
    let same = some-eq e in
    let missed : (leb n.node_low j && leb j n.node_high) ≡ false = ground arith in
    let rest : cell_of (y ∷ ns) j ≡ none =
      cell_of-below w y.node_low (y ∷ ns) j pos_w (omega arith, h.2.1, h.2.2) before in
    rw same (rw missed rest)
cell_of-between w b (suc k) j (x ∷ ns) n pos_w h e beyond before =
    let behind_x = get_elem?-Ascend w (x.node_high + 1) ns k n pos_w h.2 e in
    let reach = size_at w (x.node_high + 1) k ns n h.2 e in
    let missed : (leb x.node_low j && leb j x.node_high) ≡ false = ground arith in
    rw missed (cell_of-between w (x.node_high + 1) k j ns n pos_w h.2 e beyond before)

next_low :
    (w b k : ℕ) (ns : List Node) (n n' : Node)
    → Ascend w b ns
    → get_elem? ns k ≡ some n
    → get_elem? ns (suc k) ≡ some n'
    → n.node_high < n'.node_low
next_low w b k [] n n' h e e' = cc
next_low w b zero (x ∷ []) n n' h e e' = cc
next_low w b zero (x ∷ y ∷ ns) n n' h e e' =
    let same = ap (λ (z : Node). z.node_high) (some-eq e) in
    let same' = ap (λ (z : Node). z.node_low) (some-eq e') in omega (arith, same, same', h.2.0)
next_low w b (suc k) (x ∷ ns) n n' h e e' = next_low w (x.node_high + 1) k ns n n' h.2 e e'

-- The list stands at a node that covers the number.
abbrev pub StandsAt : Nodes → ℕ → ℕ → Node → Type 0
StandsAt l m k n = (l.recent ≡ some k) × (get_elem? l.nodes k ≡ some n) × Covers n m

abbrev pub NoneBehind : Nodes → ℕ → Type 0
NoneBehind l m = (j : ℕ) → m < j → cell_of l.nodes j ≡ none

-- The first number behind `m` that has a cell, the cell, and the node that the list stands at.
abbrev pub FirstBehind : Nodes → ℕ → Option (Nodes × Option (ℕ × ℕ)) → Type 0
FirstBehind l m r =
    (m' : ℕ) × (k : ℕ) × (n : Node) × (r
      ≡ some (record l { recent = some k }, some (n.address, m' - n.node_low)))
    × (m < m')
    × StandsAt (record l { recent = some k }) m' k n
    × (cell_of l.nodes m' ≡ some (n.address, m' - n.node_low))
    × ((j : ℕ) → m < j → j < m' → cell_of l.nodes j ≡ none)

module _ (l : Nodes) (v : IsValid l) (k : ℕ) (n : Node) (at : get_elem? l.nodes k ≡ some n) where
  same_address : (n.address == n.address) ≡ true
  same_address = ground arith

  size : n.node_high + 1 ≡ n.node_low + l.items_per_node
  size = size_at l.items_per_node l.low k l.nodes n v.in_order at

  -- Within a node.
  next_in-FirstBehind :
      (m : ℕ)
      → Covers n m
      → m < n.node_high
      → l.recent ≡ some k
      → FirstBehind l m (next_in l k (some n) (n.address, m - n.node_low))
  next_in-FirstBehind m c inner here =
      let not_last : ((m - n.node_low) == (l.items_per_node - 1)) ≡ false = ground (arith, size) in
      let step : suc (m - n.node_low) ≡ suc m - n.node_low = omega arith in
      (
        suc m,
        k,
        n,
        rw (same_address, not_last, step)
            (ap
              (λ (r : Option ℕ).
                some (record l { recent = r }, some (n.address, suc m - n.node_low)))
              here),
        omega arith,
        (refl, at, (omega arith, omega arith)),
        cell_of-Covers l.items_per_node l.low k (suc m) l.nodes n v.not_empty v.in_order at
            (omega arith, omega arith),
        λ j low high. absurd (omega arith),
      )

  -- At the end of a node.
  next_in-last :
      (o : Option Node)
      → get_elem? l.nodes (suc k) ≡ o
      → ((next_in l k (some n) (n.address, n.node_high - n.node_low) ≡ some (l, none))
          × NoneBehind l n.node_high)
        ⊎ FirstBehind l n.node_high (next_in l k (some n) (n.address, n.node_high - n.node_low))
  next_in-last none e =
      let end : (n.node_high - n.node_low == l.items_per_node - 1) ≡ true = ground (arith, size) in
      inl (
        rw (same_address, end, e) refl,
        λ j low.
            cell_of-between l.items_per_node l.low k j l.nodes n v.not_empty v.in_order at low
              (subst (λ (o : Option Node). Before j o) (sym e) tt),
      )
  next_in-last (some n') e =
      let end : (n.node_high - n.node_low == l.items_per_node - 1) ≡ true = ground (arith, size) in
      let size' = size_at l.items_per_node l.low (suc k) l.nodes n' v.in_order e in
      let zero_index : n'.node_low - n'.node_low ≡ 0 = omega arith in
      let top : n'.node_low ≤ n'.node_high = omega (arith, size', v.not_empty) in
      inr (
        n'.node_low,
        suc k,
        n',
        rw (same_address, end, e, zero_index) refl,
        next_low l.items_per_node l.low k l.nodes n n' v.in_order at e,
        (refl, e, (omega arith, top)),
        cell_of-Covers l.items_per_node l.low (suc k) n'.node_low l.nodes n' v.not_empty v.in_order
            e (omega arith, top),
        λ j low high.
            cell_of-between l.items_per_node l.low k j l.nodes n v.not_empty v.in_order at low
              (subst (λ (o : Option Node). Before j o) (sym e) high),
      )

next_listitem-next_in :
    (l : Nodes) (k : ℕ) (n : Node) (ptr : ℕ × ℕ)
    → l.recent ≡ some k
    → get_elem? l.nodes k ≡ some n
    → next_listitem l ptr ≡ next_in l k (some n) ptr
unfolding next_listitem
next_listitem-next_in l k n ptr here at =
    ap (λ (r : Option ℕ). next_at l r ptr) here ∙ ap (λ (o : Option Node). next_in l k o ptr) at

-- From the cell of a number, at whose node a valid list stands, next_listitem goes to the cell of
-- the first number behind that has one, and stands at its node; it returns null exactly where there
-- is none.
pub next_listitem-cell_of :
    (l : Nodes) (m k : ℕ) (n : Node)
    → IsValid l
    → StandsAt l m k n
    → ((next_listitem l (n.address, m - n.node_low) ≡ some (l, none)) × NoneBehind l m)
      ⊎ FirstBehind l m (next_listitem l (n.address, m - n.node_low))
next_listitem-cell_of l m k n v (here, at, c) =
    subst
      (λ (r : Option (Nodes × Option (ℕ × ℕ))).
        ((r ≡ some (l, none)) × NoneBehind l m) ⊎ FirstBehind l m r)
      (sym (next_listitem-next_in l k n (n.address, m - n.node_low) here at))
      (elim (Bool-cases (ltb m n.node_high)) [
        | inl inner ↦ inr (next_in-FirstBehind l v k n at m c (ground arith) here)
        | inr at_end ↦
            let top : m ≡ n.node_high = ground arith in
            rw top (next_in-last l v k n at (get_elem? l.nodes (suc k)) refl)
      ])
