-- ===== src/Lists/Places.antt =====
-- Where the loop of listnum2listitem ends, for nodes in order.
use trn_actions.Prelude.{
  ℕ, zero, suc, ◌+◌, ◌-◌, ◌≤◌, ◌<◌, ◌≡◌, refl, ap, ◌∙◌, inl, inr, true, false, ◌&&◌, some, List, [],
  ◌∷◌, ◌++◌, arith, ltb, leb, Bool-cases, some-eq, get_elem?, take, drop, All,
}
use trn_actions.Lists.{place, Node, behind, Place, place_from}
use trn_actions.Lists.Cells.{Covers, cell_of, Ascend, Apart, cell_of-below}

zero_add : (i : ℕ) → 0 + i ≡ i
zero_add i = omega arith

suc_add : (k i : ℕ) → suc k + i ≡ suc (k + i)
suc_add k i = omega arith

pub get_elem?-Ascend :
    (w b : ℕ) (ns : List Node) (k : ℕ) (n : Node)
    → 0 < w
    → Ascend w b ns
    → get_elem? ns k ≡ some n
    → b ≤ n.node_low
get_elem?-Ascend w b [] k n pos_w h e = cc
get_elem?-Ascend w b (m ∷ ns) zero n pos_w h e =
    rw (← ap (λ (x : Node). x.node_low) (some-eq e)) h.0
get_elem?-Ascend w b (m ∷ ns) (suc k) n pos_w h e =
    omega (arith, get_elem?-Ascend w (m.node_high + 1) ns k n pos_w h.2 e, h.0, h.1)

module _ (new : Node) (num : ℕ) where
  pub place-Ascend :
      (w b : ℕ) (ns : List Node)
      → 0 < w
      → Covers new num
      → new.node_high + 1 ≡ new.node_low + w
      → b ≤ new.node_low
      → Ascend w b ns
      → All (Apart new num) ns
      → Ascend w b (place new num ns).nodes
  unfolding place
  place-Ascend w b [] pos_w c size low h apart = (low, size, tt)
  place-Ascend w b (n ∷ ns) pos_w c size low h apart = elim (Bool-cases (ltb num n.node_low)) [
    | inl before ↦ rw before (low, size, (ground arith, h.1, h.2))
    | inr not_before ↦ elim (Bool-cases (leb num n.node_high)) [
      | inl inside ↦ rw (not_before, inside) h
      | inr beyond ↦
          let clear : n.node_high < new.node_low = ground arith in
          rw (not_before, beyond)
            (h.0, h.1, place-Ascend w (n.node_high + 1) ns pos_w c size (omega arith) h.2 apart.1)
    ]
  ]

  pub place-All :
      (P : Node → Type 0) (ns : List Node) → P new → All P ns → All P (place new num ns).nodes
  unfolding place
  place-All P [] p h = (p, tt)
  place-All P (n ∷ ns) p h = elim (Bool-cases (ltb num n.node_low)) [
    | inl before ↦ rw before (p, h)
    | inr not_before ↦ elim (Bool-cases (leb num n.node_high)) [
      | inl inside ↦ rw (not_before, inside) h
      | inr beyond ↦ rw (not_before, beyond) (h.0, place-All P ns p h.1)
    ]
  ]

  -- The loop ends at a node, and that node gives the number its cell.
  abbrev pub EndsAt : List Node → ℕ → Type 0
  EndsAt ns at =
      (n : Node) × (get_elem? ns at ≡ some n)
      × (cell_of ns num ≡ some (n.address, num - n.node_low))

  EndsAt-behind :
      (n : Node) (ns : List Node) (at : ℕ)
      → leb num n.node_high ≡ false
      → EndsAt ns at
      → EndsAt (n ∷ ns) (suc at)
  unfolding cell_of
  EndsAt-behind n ns at beyond (m, found, cell) =
      let missed : (leb n.node_low num && leb num n.node_high) ≡ false = ground arith in
      (m, found, rw missed cell)

  pub place-EndsAt :
      (ns : List Node) → Covers new num → EndsAt (place new num ns).nodes (place new num ns).at
  unfolding place cell_of
  place-EndsAt [] c =
      let covered : (leb new.node_low num && leb num new.node_high) ≡ true = ground arith in
      (new, refl, rw covered refl)
  place-EndsAt (n ∷ ns) c = elim (Bool-cases (ltb num n.node_low)) [
    | inl before ↦
        let covered : (leb new.node_low num && leb num new.node_high) ≡ true = ground arith in
        rw before (new, refl, rw covered refl)
    | inr not_before ↦ elim (Bool-cases (leb num n.node_high)) [
      | inl inside ↦
          let covered : (leb n.node_low num && leb num n.node_high) ≡ true = ground arith in
          rw (not_before, inside) (n, refl, rw covered refl)
      | inr beyond ↦
          rw (not_before, beyond)
            (EndsAt-behind n (place new num ns).nodes (place new num ns).at beyond
              (place-EndsAt ns c))
    ]
  ]

  -- No number of the nodes lies below the first.
  not_below :
      (w : ℕ) (n : Node) (ns : List Node) (b m : ℕ) (c : ℕ × ℕ)
      → 0 < w
      → Ascend w b (n ∷ ns)
      → cell_of (n ∷ ns) m ≡ some c
      → n.node_low ≤ m
  not_below w n ns b m c pos_w h e = elim (Bool-cases (ltb m n.node_low)) [
    | inl below ↦
        let none_here =
          cell_of-below w n.node_low (n ∷ ns) m pos_w (omega arith, h.1, h.2) (ground arith) in
        cc
    | inr not_lower ↦ ground arith
  ]

  keeps_behind :
      (n : Node) (ns ns' : List Node) (m : ℕ) (c : ℕ × ℕ)
      → (cell_of ns m ≡ some c → cell_of ns' m ≡ some c)
      → cell_of (n ∷ ns) m ≡ some c
      → cell_of (n ∷ ns') m ≡ some c
  unfolding cell_of
  keeps_behind n ns ns' m c keep e = elim (Bool-cases (leb n.node_low m && leb m n.node_high)) [
    | inl here ↦ rw here (rw here at e)
    | inr elsewhere ↦ rw elsewhere (keep (rw elsewhere at e))
  ]

  -- A number that has a cell keeps it.
  pub place-keeps :
      (w b : ℕ) (ns : List Node) (m : ℕ) (c : ℕ × ℕ)
      → 0 < w
      → Ascend w b ns
      → All (Apart new num) ns
      → cell_of ns m ≡ some c
      → cell_of (place new num ns).nodes m ≡ some c
  unfolding place cell_of
  place-keeps w b [] m c pos_w h apart e = cc
  place-keeps w b (n ∷ ns) m c pos_w h apart e = elim (Bool-cases (ltb num n.node_low)) [
    | inl before ↦
        let reached = not_below w n ns b m c pos_w h e in
        let clear : new.node_high < n.node_low = apart.0.0 (ground arith) in
        let missed : (leb new.node_low m && leb m new.node_high) ≡ false = ground arith in
        rw (before, missed) e
    | inr not_before ↦ elim (Bool-cases (leb num n.node_high)) [
      | inl inside ↦ rw (not_before, inside) e
      | inr beyond ↦
          rw (not_before, beyond)
            (keeps_behind n ns (place new num ns).nodes m c
              (λ k. place-keeps w (n.node_high + 1) ns m c pos_w h.2 apart.1 k) e)
    ]
  ]

  -- Starting at a node that is not behind the number, the loop ends where it does from the first.
  pub place-drop :
      (w b : ℕ) (ns : List Node) (k : ℕ) (n : Node)
      → 0 < w
      → Ascend w b ns
      → get_elem? ns k ≡ some n
      → n.node_low ≤ num
      → (record {
        nodes = take k ns ++ (place new num (drop k ns)).nodes;
        at = k + (place new num (drop k ns)).at;
        fresh = (place new num (drop k ns)).fresh;
      })
        ≡ place new num ns
  unfolding place
  place-drop w b ns zero n pos_w h e low =
      let r = place new num ns in
      ap (λ (i : ℕ). record { nodes = r.nodes; at = i; fresh = r.fresh }) (zero_add r.at)
  place-drop w b [] (suc k) n pos_w h e low = cc
  place-drop w b (m ∷ ns) (suc k) n pos_w h e low =
      let behind_m = get_elem?-Ascend w (m.node_high + 1) ns k n pos_w h.2 e in
      let not_before : ltb num m.node_low ≡ false = ground arith in
      let beyond : leb num m.node_high ≡ false = ground arith in
      let r = place new num (drop k ns) in
      rw (not_before, beyond)
        (ap (λ (i : ℕ). record { nodes = m ∷ (take k ns ++ r.nodes); at = i; fresh = r.fresh })
            (suc_add k r.at)
          ∙ ap (λ (r : Place). behind m r) (place-drop w (m.node_high + 1) ns k n pos_w h.2 e low))

  -- A search that ends at a node that was there changes no node.
  pub place-not_fresh :
      (ns : List Node) → (place new num ns).fresh ≡ false → (place new num ns).nodes ≡ ns
  unfolding place
  place-not_fresh [] e = cc
  place-not_fresh (n ∷ ns) e = elim (Bool-cases (ltb num n.node_low)) [
    | inl before ↦ absurd (not_both (rw before at e))
    | inr not_before ↦ elim (Bool-cases (leb num n.node_high)) [
      | inl inside ↦ rw (not_before, inside) refl
      | inr beyond ↦
          rw (not_before, beyond)
            (ap (λ (ms : List Node). n ∷ ms) (place-not_fresh ns (rw (not_before, beyond) at e)))
    ]
  ]
    where
      not_both : true ≡ false → ⊥
      not_both h = cc

  pub place_from-first : (ns : List Node) → place_from new num ns (some 0) ≡ place new num ns
  unfolding place_from
  place_from-first ns =
      let r = place new num ns in
      ap (λ (i : ℕ). record { nodes = r.nodes; at = i; fresh = r.fresh }) (zero_add r.at)
