-- ===== src/Lists/Existing.antt =====
-- existing_listnum of list.cpp.
use trn_actions.Prelude.{
  ℕ, zero, suc, ◌+◌, ◌≤◌, ◌<◌, ◌≡◌, refl, ap, ◌∙◌, inl, inr, true, false, ◌&&◌, Option, none, some,
  List, [], ◌∷◌, arith, ltb, leb, Bool-cases, get_elem?, drop,
}
use trn_actions.Int.{pos}
use trn_actions.Lists.{begin_at, Node, Nodes}
use trn_actions.Lists.Cells.{cell_of, Ascend, cell_of-below}
use trn_actions.Lists.Moves.{existing_loop, existing_from, existing_end, existing_listnum}
use trn_actions.Lists.Places.{get_elem?-Ascend}
use trn_actions.Lists.Valid.{RecentIn, IsValid}

-- The number itself where it has a cell, else 0.
abbrev pub number_or_zero : ℕ → Option (ℕ × ℕ) → ℕ
number_or_zero num none = 0
number_or_zero num (some c) = num

abbrev number_of : Option (ℕ × ℕ) → ℕ
number_of none = 0
number_of (some (k, n)) = n

existing_loop-cell_of :
    (w b num k : ℕ) (prev : Option Node) (ns : List Node)
    → 0 < w
    → Ascend w b ns
    → number_of (existing_loop num (pos 0) k prev ns) ≡ number_or_zero num (cell_of ns num)
unfolding existing_loop cell_of
existing_loop-cell_of w b num k prev [] pos_w h = refl
existing_loop-cell_of w b num k prev (n ∷ ns) pos_w h = elim (Bool-cases (leb num n.node_high)) [
  | inl under ↦ elim (Bool-cases (ltb num n.node_low)) [
    | inl below ↦
        let missed : leb n.node_low num ≡ false = ground arith in
        rw (under, below, missed, cell_of-below w (n.node_high + 1) ns num pos_w h.2 (ground arith))
          refl
    | inr reached ↦
        let low : leb n.node_low num ≡ true = ground arith in rw (under, reached, low) refl
  ]
  | inr beyond ↦
      let missed : (leb n.node_low num && leb num n.node_high) ≡ false = ground arith in
      rw (missed, beyond)
        (existing_loop-cell_of w (n.node_high + 1) num (suc k) (some n) ns pos_w h.2)
]

-- Behind a node that begins at or below the number there is no more and no less than in the list.
cell_of-drop :
    (w b num k : ℕ) (ns : List Node) (n : Node)
    → 0 < w
    → Ascend w b ns
    → get_elem? ns k ≡ some n
    → n.node_low ≤ num
    → cell_of (drop k ns) num ≡ cell_of ns num
unfolding cell_of
cell_of-drop w b num zero ns n pos_w h e low = refl
cell_of-drop w b num (suc k) [] n pos_w h e low = cc
cell_of-drop w b num (suc k) (m ∷ ns) n pos_w h e low =
    let behind_m = get_elem?-Ascend w (m.node_high + 1) ns k n pos_w h.2 e in
    let missed : (leb m.node_low num && leb num m.node_high) ≡ false = ground arith in
    rw missed (cell_of-drop w (m.node_high + 1) num k ns n pos_w h.2 e low)

Ascend-drop : (w b k : ℕ) (ns : List Node) → Ascend w b ns → (d : ℕ) × Ascend w d (drop k ns)
Ascend-drop w b zero ns h = (b, h)
Ascend-drop w b (suc k) [] h = (b, tt)
Ascend-drop w b (suc k) (n ∷ ns) h = Ascend-drop w (n.node_high + 1) k ns h.2

existing_end_number :
    (l : Nodes) (o : Option (ℕ × ℕ)) → (existing_end l (pos 0) o).1 ≡ pos (number_of o)
existing_end_number l none = refl
existing_end_number l (some (k, n)) = refl

existing_from-cell_of :
    (l : Nodes) (num : ℕ) (r : Option ℕ)
    → IsValid l
    → RecentIn l.nodes r
    → number_of (existing_from l num (pos 0) (begin_at l.nodes r num))
      ≡ number_or_zero num (cell_of l.nodes num)
existing_from-cell_of l num none v e = unfold cell_of in rw e refl
existing_from-cell_of l num (some k) v (n, e) = rw e (elim (Bool-cases (ltb num n.node_low)) [
  | inl below ↦
      rw below
        (existing_loop-cell_of l.items_per_node l.low num 0 none l.nodes v.not_empty v.in_order)
  | inr reached ↦
      let (d, order) = Ascend-drop l.items_per_node l.low k l.nodes v.in_order in
      rw reached (
        existing_loop-cell_of l.items_per_node d num k none (drop k l.nodes) v.not_empty order
        ∙ ap (number_or_zero num) (
            cell_of-drop l.items_per_node l.low num k l.nodes n v.not_empty v.in_order e
              (ground arith)))
])

-- In a valid list, with the direction 0 the answer is the number itself where it has a cell, and
-- else 0, wherever the search starts.
pub existing_listnum-cell_of :
    (l : Nodes) (num : ℕ)
    → IsValid l
    → (existing_listnum l num (pos 0)).1 ≡ pos (number_or_zero num (cell_of l.nodes num))
unfolding existing_listnum
existing_listnum-cell_of l num v =
    existing_end_number l (existing_from l num (pos 0) (begin_at l.nodes l.recent num))
    ∙ ap pos (existing_from-cell_of l num l.recent v v.recent_in)
