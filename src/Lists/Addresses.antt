-- ===== src/Lists/Addresses.antt =====
-- The addresses of the nodes of a list.
use trn_actions.Prelude.{
  ℕ, zero, suc, ◌+◌, ◌-◌, ◌≤◌, ◌≡◌, refl, sym, ap, ◌∙◌, ◌≢◌, inl, inr, true, false, ◌&&◌, none,
  some, List, [], ◌∷◌, arith, ltb, leb, ◌==◌, Bool-cases, some-eq, drop, All,
}
use trn_actions.Lists.{place, Node}
use trn_actions.Lists.Cells.{cell_of}
use trn_actions.Lists.Places.{place-All}
use trn_actions.Lists.Moves.{search_items}

abbrev pub Differs : ℕ → Node → Type 0
Differs a n = n.address ≢ a

abbrev pub Unique : List Node → Type 0
Unique [] = Unit {0}
Unique (n ∷ ns) = All (Differs n.address) ns × Unique ns

pub place-Unique :
    (new : Node) (num : ℕ) (ns : List Node)
    → Unique ns
    → All (Differs new.address) ns
    → Unique (place new num ns).nodes
unfolding place
place-Unique new num [] u d = (tt, tt)
place-Unique new num (n ∷ ns) u d = elim (Bool-cases (ltb num n.node_low)) [
  | inl before ↦ rw before (d, u)
  | inr not_before ↦ elim (Bool-cases (leb num n.node_high)) [
    | inl inside ↦ rw (not_before, inside) u
    | inr beyond ↦
        rw (not_before, beyond)
          (
            place-All new num (Differs n.address) ns (λ e. d.0 (sym e)) u.0,
            place-Unique new num ns u.1 d.1,
          )
  ]
]

-- A cell is at the address of one of the nodes.
cell_of-Differs :
    (a : ℕ) (ns : List Node) (m : ℕ) (c : ℕ × ℕ)
    → All (Differs a) ns
    → cell_of ns m ≡ some c
    → c.0 ≢ a
unfolding cell_of
cell_of-Differs a [] m c d e = cc
cell_of-Differs a (n ∷ ns) m c d e = elim (Bool-cases (leb n.node_low m && leb m n.node_high)) [
  | inl here ↦
      let same : n.address ≡ c.0 = ap (λ (p : ℕ × ℕ). p.0) (some-eq (rw here at e)) in
      λ k. d.0 (same ∙ k)
  | inr elsewhere ↦ cell_of-Differs a ns m c d.1 (rw elsewhere at e)
]

pub search_items-Differs :
    (ptr : ℕ × ℕ) (j k : ℕ) (ns : List Node)
    → All (Differs ptr.0) ns
    → search_items ptr j (drop k ns) ≡ none
unfolding search_items
search_items-Differs ptr j zero [] d = refl
search_items-Differs ptr j zero (n ∷ ns) d =
    let other : (ptr.0 == n.address) ≡ false = ground arith in
    rw other (search_items-Differs ptr (suc j) zero ns d.1)
search_items-Differs ptr j (suc k) [] d = refl
search_items-Differs ptr j (suc k) (n ∷ ns) d = search_items-Differs ptr j k ns d.1

pub search_items-cell :
    (j : ℕ) (ns : List Node) (m : ℕ) (c : ℕ × ℕ)
    → Unique ns
    → cell_of ns m ≡ some c
    → (i : ℕ) × (search_items c j ns ≡ some (i, m))
unfolding search_items cell_of
search_items-cell j [] m c u e = cc
search_items-cell j (n ∷ ns) m c u e = elim (Bool-cases (leb n.node_low m && leb m n.node_high)) [
  | inl here ↦
      let at = some-eq (rw here at e) in
      let within : ltb (m - n.node_low) (n.node_high - n.node_low + 1) ≡ true = ground arith in
      let same : (n.address == n.address) ≡ true = ground arith in
      (j, rw (← at) (rw (same, within) (ap (λ (x : ℕ). some (j, x)) (back (ground arith)))))
  | inr elsewhere ↦
      let e' = rw elsewhere at e in
      let (i, found) = search_items-cell (suc j) ns m c u.1 e' in
      let other : (c.0 == n.address) ≡ false = go (cell_of-Differs n.address ns m c u.0 e') in
      (i, rw other found)
]
  where
    back : n.node_low ≤ m → m - n.node_low + n.node_low ≡ m
    back h = omega arith

    go : c.0 ≢ n.address → (c.0 == n.address) ≡ false
    go h = ground arith
