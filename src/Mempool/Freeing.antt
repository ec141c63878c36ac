-- ===== src/Mempool/Freeing.antt =====
-- mempool.cpp: mp_free returns the fragments of a pool, and the pieces of the others stay.
use trn_actions.Prelude.{
  ℕ, zero, suc, ◌+◌, ◌≤◌, ◌<◌, ◌≡◌, refl, sym, ap, ◌∙◌, subst, ◌≢◌, inl, inr, false, List, [], ◌∷◌,
  arith, ◌==◌, Bool-cases, length, All,
}
use trn_actions.Mempool.{
  set_frag, mp_free_frag, same_pool, Pool, frag_size, Frag, Mempool, score1, score2, sathread,
  free_loop, set_current, mp_free, max_mem_frags,
}
use trn_actions.Mempool.Others.{without_pool, without_pool-All, without_pool-Apart, without_pool-ne}
use trn_actions.Mempool.Chains.{
  Owner, Holds, pool-ne-nobody, pool-eq, same_pool-cases, nobody, pool, same_pool_self,
}
use trn_actions.Mempool.State.{
  Piece, IsPlaced, WellFormed, set_owner, set_list, set_start, set_owner-off, set_frag-off,
  Holds-kept, Holds-taken, Holds-put, IsRoomy-kept, In, list_of, IsBounded, IsListed-moved,
  In-behind, IsBounded-list_of, set_list-All,
}

IsPlaced-other :
    (p : Pool) (f : ℕ) (v : Frag) (owner : ℕ → Owner) (frags : ℕ → Frag) (live : List Piece)
    → owner f ≡ pool p
    → All (λ x. x.piece_pool ≢ p) live
    → All (IsPlaced owner frags) live
    → All (IsPlaced (set_owner f nobody owner) (set_frag f v frags)) live
IsPlaced-other p f v owner frags [] e ne h = tt
IsPlaced-other p f v owner frags (x ∷ live) e (ne, nes) ((own, fits), h) =
    let off : x.frag ≢ f = λ same. ne (pool-eq x.piece_pool p (sym own ∙ ap owner same ∙ e)) in
    (
      (
        set_owner-off f x.frag nobody owner off ∙ own,
        subst (λ w. x.place + x.size ≤ w.lastfree) (sym (set_frag-off f x.frag v frags off)) fits,
      ),
      IsPlaced-other p f v owner frags live e nes h,
    )

length-set_list :
    (p : Pool) (fs : List ℕ) (lists : Pool → List ℕ)
    → length (set_list p fs lists score1)
        + length (set_list p fs lists score2)
        + length (set_list p fs lists sathread)
        + length (lists p)
      ≡ length (lists score1) + length (lists score2) + length (lists sathread) + length fs
length-set_list score1 fs lists = omega arith
length-set_list score2 fs lists = omega arith
length-set_list sathread fs lists = omega arith

module _ (p : Pool) (base : Pool → ℕ) (live : List Piece)
    (other : All (λ x. x.piece_pool ≢ p) live) where
  -- The memory in the middle of the loop, with what is left of the pool's list.
  abbrev Left : ℕ → Mempool → List ℕ → Type 0
  Left i m fs = (w : WellFormed (set_start p i base) m live) × (w.lists p ≡ fs)

  free_one :
      (i f : ℕ) (rest : List ℕ) (m : Mempool)
      → Left i m (f ∷ rest)
      → Left (m.frags f).next (mp_free_frag f m) rest
  unfolding mp_free_frag
  free_one i f rest m (w, eq) = (
    record {
      owner = set_owner f nobody w.owner;
      free = f ∷ w.free;
      lists = set_list p rest w.lists;
      holds_free =
          Holds-put f nobody v w.owner m.frags m.first_free_frag w.free
            (λ e. pool-ne-nobody p (sym own ∙ e)) pos refl w.holds_free;
      holds = λ q. elim (same_pool-cases q p) [
        | inl (e, same) ↦ rw e (
            subst
              (λ r.
                Holds (set_owner f nobody w.owner) (set_frag f v m.frags) (pool r) (m.frags f).next
                  rest)
              (sym same) (Holds-taken f nobody v w.owner m.frags (pool p) f rest mine))
        | inr (e, ne) ↦ rw e (
            Holds-kept f nobody v w.owner m.frags (pool q) (base q) (w.lists q)
              (λ k. ne (sym (pool-eq p q (sym own ∙ k)))) (theirs q e))
      ];
      total = omega (arith, w.total, length-set_list p rest w.lists, ap length eq);
      listed =
          IsListed-moved f nobody v w.owner m.frags (list_of w.free w.lists)
            (list_of (f ∷ w.free) (set_list p rest w.lists)) (inl refl) behind w.listed;
      bounded =
          IsBounded-list_of (f ∷ w.free) (set_list p rest w.lists)
            ((bounded_own w.bounded).0, w.bounded nobody)
            (set_list-All (λ k. k < max_mem_frags) p rest w.lists (bounded_own w.bounded).1
              (λ q. w.bounded (pool q)));
      roomy = IsRoomy-kept f nobody v w.owner m.frags w.roomy (inr (refl, refl));
      placed = IsPlaced-other p f v w.owner m.frags live own other w.placed;
      apart = w.apart;
    },
    rw (same_pool_self p) refl,
  )
    where
      v : Frag
      v = record (m.frags f) { lastfree = 0; bytesfree = frag_size; next = m.first_free_frag }

      bounded_own : IsBounded (list_of w.free w.lists) → All (λ k. k < max_mem_frags) (f ∷ rest)
      bounded_own h = subst (λ fs. All (λ k. k < max_mem_frags) fs) eq (h (pool p))

      behind :
          (q : Owner) (k : ℕ)
          → k ≢ f
          → In k (list_of w.free w.lists q)
          → In k (list_of (f ∷ w.free) (set_list p rest w.lists) q)
      behind nobody k ne h = inr h
      behind (pool q) k ne h = elim (same_pool-cases q p) [
        | inl (e, same) ↦
            rw e (In-behind k f rest ne (subst (λ fs. In k fs) (ap w.lists same ∙ eq) h))
        | inr (e, other) ↦ rw e h
      ]

      start_self : set_start p i base p ≡ i
      start_self = rw (same_pool_self p) refl

      start_other : (q : Pool) → same_pool q p ≡ false → set_start p i base q ≡ base q
      start_other q e = rw e refl

      mine_at : Holds w.owner m.frags (pool p) i (f ∷ rest)
      mine_at =
          subst (λ fs. Holds w.owner m.frags (pool p) i fs) eq
            (subst (λ j. Holds w.owner m.frags (pool p) j (w.lists p)) start_self (w.holds p))

      pos : 0 < f
      pos = mine_at.0.1

      mine : Holds w.owner m.frags (pool p) f (f ∷ rest)
      mine = subst (λ j. Holds w.owner m.frags (pool p) j (f ∷ rest)) mine_at.0.0 mine_at

      own : w.owner f ≡ pool p
      own = mine_at.1.0

      theirs :
          (q : Pool) → same_pool q p ≡ false → Holds w.owner m.frags (pool q) (base q) (w.lists q)
      theirs q e =
          subst (λ j. Holds w.owner m.frags (pool q) j (w.lists q)) (start_other q e) (w.holds q)

  left_list :
      (i : ℕ) (m : Mempool) (fs : List ℕ) (l : Left i m fs) → Holds l.0.owner m.frags (pool p) i fs
  left_list i m fs (w, eq) =
      let start_self : set_start p i base p ≡ i = rw (same_pool_self p) refl in
      subst (λ gs. Holds w.owner m.frags (pool p) i gs) eq
        (subst (λ j. Holds w.owner m.frags (pool p) j (w.lists p)) start_self (w.holds p))

  loop_at_zero : (n : ℕ) (m : Mempool) → free_loop n 0 m ≡ m
  unfolding free_loop
  loop_at_zero zero m = refl
  loop_at_zero (suc n) m = refl

  loop_once :
      (n f : ℕ) (m : Mempool)
      → 0 < f
      → free_loop (suc n) f m ≡ free_loop n (m.frags f).next (mp_free_frag f m)
  unfolding free_loop
  loop_once n f m pos = let more : (f == 0) ≡ false = ground (arith, pos) in rw more refl

  free_loop-Left :
      (n i : ℕ) (fs : List ℕ) (m : Mempool)
      → length fs ≤ n
      → Left i m fs
      → Left 0 (free_loop n i m) []
  free_loop-Left n i [] m le l =
      let z : i ≡ 0 = (left_list i m [] l).0 in
      subst (λ j. Left 0 (free_loop n j m) []) (sym z)
        (subst (λ k. Left 0 k []) (sym (loop_at_zero n m)) (subst (λ j. Left j m []) z l))
  free_loop-Left zero i (f ∷ rest) m le l = absurd (omega (arith, le))
  free_loop-Left (suc n) i (f ∷ rest) m le l =
      let (first, pos, once, chain) = (left_list i m (f ∷ rest) l).0 in
      subst (λ j. Left 0 (free_loop (suc n) j m) []) (sym first)
        (subst (λ k. Left 0 k []) (sym (loop_once n f m pos))
          (free_loop-Left n (m.frags f).next rest (mp_free_frag f m) (omega (arith, le))
            (free_one i f rest m l)))

free_loop-current : (n i : ℕ) (m : Mempool) → (free_loop n i m).current ≡ m.current
unfolding free_loop mp_free_frag
free_loop-current zero i m = refl
free_loop-current (suc n) i m = elim (Bool-cases (i == 0)) [
  | inl e ↦ rw e refl
  | inr e ↦ rw e (free_loop-current n (m.frags i).next (mp_free_frag i m))
]

with_current :
    (cur : Pool → ℕ) (m : Mempool) (live : List Piece)
    → WellFormed cur m live
    → WellFormed cur (record m { current = cur }) live
with_current cur m live w = record {
  owner = w.owner;
  free = w.free;
  lists = w.lists;
  holds_free = w.holds_free;
  holds = w.holds;
  total = w.total;
  listed = w.listed;
  bounded = w.bounded;
  roomy = w.roomy;
  placed = w.placed;
  apart = w.apart;
}

length-pool-le :
    (lists : Pool → List ℕ) (p : Pool) (k : ℕ)
    → suc (k + length (lists score1) + length (lists score2) + length (lists sathread))
      ≡ max_mem_frags
    → length (lists p) ≤ max_mem_frags
length-pool-le lists score1 k h = omega (arith, h)
length-pool-le lists score2 k h = omega (arith, h)
length-pool-le lists sathread k h = omega (arith, h)

-- In a well-formed memory mp_free empties the pool: the memory is well-formed with the pieces of the
-- other pools.
pub mp_free-WellFormed :
    (p : Pool) (m : Mempool) (live : List Piece)
    → WellFormed m.current m live
    → WellFormed (mp_free p m).current (mp_free p m) (without_pool p live)
unfolding mp_free
mp_free-WellFormed p m live w =
    subst
      (λ c. WellFormed (set_current p 0 c) (record freed { current = set_current p 0 c }) others)
      (sym (free_loop-current max_mem_frags (m.current p) m))
      (with_current (set_current p 0 m.current) freed others
        (free_loop-Left p m.current others (without_pool-ne p live) max_mem_frags (m.current p)
          (w.lists p) m (length-pool-le w.lists p (length w.free) w.total) (begin, refl)).0)
  where
    others : List Piece
    others = without_pool p live

    freed : Mempool
    freed = free_loop max_mem_frags (m.current p) m

    begin : WellFormed (set_start p (m.current p) m.current) m others
    begin = record {
      owner = w.owner;
      free = w.free;
      lists = w.lists;
      holds_free = w.holds_free;
      holds = λ q. elim (same_pool-cases q p) [
        | inl (e, same) ↦ rw e (
            subst (λ j. Holds w.owner m.frags (pool q) j (w.lists q)) (ap m.current same)
              (w.holds q))
        | inr (e, ne) ↦ rw e (w.holds q)
      ];
      total = w.total;
      listed = w.listed;
      bounded = w.bounded;
      roomy = w.roomy;
      placed = without_pool-All (IsPlaced w.owner m.frags) p live w.placed;
      apart = without_pool-Apart p live w.apart;
    }
