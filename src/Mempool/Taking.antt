-- ===== src/Mempool/Taking.antt =====
-- mempool.cpp: a pool takes a fragment from the free list.
use mathlib.Core.Path.{fun_ext}
use trn_actions.Prelude.{
  ℕ, suc, ◌+◌, ◌≤◌, ◌<◌, ◌≡◌, refl, sym, ap, ◌∙◌, subst, ◌≢◌, inl, inr, false, none, some, List, [],
  ◌∷◌, arith, ◌==◌, Bool-cases, length, All,
}
use trn_actions.Mempool.{
  frag_size, new_current, Pool, mp_alloc_frag, set_current, fresh, max_mem_frags, set_frag, Frag,
  Mempool, score1, score2, sathread,
}
use trn_actions.Mempool.Chains.{
  Owner, Holds, nobody-ne-pool, nobody, pool, same_pool-cases, same_pool_self,
}
use trn_actions.Mempool.State.{
  Piece, IsRoomy, IsPlaced, WellFormed, set_owner, set_list, set_owner-off, set_frag-off,
  set_frag_self, Holds-kept, Holds-taken, Holds-put, IsRoomy-kept, In, list_of, IsListed, IsBounded,
  IsListed-moved, In-behind, IsBounded-list_of, set_list-All,
}

abbrev pub taken_frag : Pool → Mempool → Frag
taken_frag p m = record (fresh (m.frags m.first_free_frag)) { next = m.current p }

abbrev pub taken : Pool → Mempool → Mempool
taken p m = record {
  frags = set_frag m.first_free_frag (taken_frag p m) m.frags;
  first_free_frag = (m.frags m.first_free_frag).next;
  current = set_current p m.first_free_frag m.current;
}

set_frag-twice :
    (f : ℕ) (v w : Frag) (frags : ℕ → Frag) → set_frag f w (set_frag f v frags) ≡ set_frag f w frags
set_frag-twice f v w frags =
    fun_ext (λ k. elim (Bool-cases (k == f)) [ inl e ↦ rw e refl | inr e ↦ rw e refl ])

pub new_current-none : (p : Pool) (m : Mempool) → m.first_free_frag ≡ 0 → new_current p m ≡ none
unfolding mp_alloc_frag
new_current-none p m e = rw e refl

pub new_current-taken :
    (p : Pool) (m : Mempool) → m.first_free_frag ≢ 0 → new_current p m ≡ some (taken p m)
unfolding mp_alloc_frag
new_current-taken p m ne =
    let some_left : (m.first_free_frag == 0) ≡ false = ground (arith, ne) in
    let f = m.first_free_frag in
    let v = fresh (m.frags f) in
    rw (new_current, some_left)
      (ap
        (λ frags. some (record {
          frags = frags;
          first_free_frag = (m.frags f).next;
          current = set_current p f m.current;
        }))
        (ap (λ w. set_frag f (record w { next = m.current p }) (set_frag f v m.frags))
            (set_frag_self f v m.frags)
          ∙ set_frag-twice f v (record v { next = m.current p }) m.frags))

module _ (p : Pool) (m : Mempool) (owner : ℕ → Owner) where
  abbrev now_owner : ℕ → Owner
  now_owner = set_owner m.first_free_frag (pool p) owner

  IsPlaced-kept :
      (f : ℕ) (v : Frag) (o : Owner) (live : List Piece)
      → owner f ≡ nobody
      → All (IsPlaced owner m.frags) live
      → All (IsPlaced (set_owner f o owner) (set_frag f v m.frags)) live
  IsPlaced-kept f v o [] e h = tt
  IsPlaced-kept f v o (x ∷ live) e ((own, fits), h) =
      let ne : x.frag ≢ f =
        λ same. nobody-ne-pool x.piece_pool (sym e ∙ ap owner (sym same) ∙ own) in
      (
        (
          set_owner-off f x.frag o owner ne ∙ own,
          subst (λ w. x.place + x.size ≤ w.lastfree) (sym (set_frag-off f x.frag v m.frags ne))
              fits,
        ),
        IsPlaced-kept f v o live e h,
      )

  pub fresh-IsRoomy :
      (v : Frag) → IsRoomy nobody v → ((fresh v).bytesfree ≡ frag_size) × ((fresh v).lastfree ≡ 0)
  fresh-IsRoomy v (inl e) = rw e (refl, refl)
  fresh-IsRoomy v (inr (e, z)) =
      let left : (v.bytesfree == 0) ≡ false = ground (arith, e) in rw left (e, z)

length-set_list :
    (p : Pool) (fs : List ℕ) (lists : Pool → List ℕ)
    → length (set_list p fs lists score1)
        + length (set_list p fs lists score2)
        + length (set_list p fs lists sathread)
        + length (lists p)
      ≡ length (lists score1) + length (lists score2) + length (lists sathread) + length fs
length-set_list score1 fs lists = omega arith
length-set_list score2 fs lists = omega arith
length-set_list sathread fs lists = omega arith

pub taken-WellFormed :
    (p : Pool) (m : Mempool) (live : List Piece)
    → m.first_free_frag ≢ 0
    → WellFormed m.current m live
    → WellFormed (taken p m).current (taken p m) live
taken-WellFormed p m live ne w = go w.free w.holds_free w.total w.listed w.bounded
  where
    f : ℕ
    f = m.first_free_frag

    v : Frag
    v = taken_frag p m

    others :
        (g : ℕ) (rest : List ℕ)
        → f ≡ g
        → (q : Owner) (k : ℕ) → k ≢ f
        → In k (list_of (g ∷ rest) w.lists q)
        → In k (list_of rest (set_list p (f ∷ w.lists p) w.lists) q)
    others g rest first nobody k ne h = In-behind k g rest (λ e. ne (e ∙ sym first)) h
    others g rest first (pool q) k ne h = elim (same_pool-cases q p) [
      | inl (e, same) ↦ rw e (inr (subst (λ fs. In k fs) (ap w.lists same) h))
      | inr (e, other) ↦ rw e h
    ]

    go :
        (free : List ℕ)
        → Holds w.owner m.frags nobody m.first_free_frag free
        → suc (
            length free
            + length (w.lists score1)
            + length (w.lists score2)
            + length (w.lists sathread))
          ≡ max_mem_frags
        → IsListed w.owner (list_of free w.lists)
        → IsBounded (list_of free w.lists)
        → WellFormed (taken p m).current (taken p m) live
    go [] h total listed bounded = absurd (ne h.0)
    go (g ∷ rest) h total listed bounded =
        let h' : Holds w.owner m.frags nobody f (f ∷ rest) =
          subst (λ j. Holds w.owner m.frags nobody f (j ∷ rest)) (sym h.0.0) h in
        let free_now = h'.1.0 in
        let room =
          fresh-IsRoomy p m w.owner (m.frags f)
            (subst (λ o. IsRoomy o (m.frags f)) free_now (w.roomy f)) in
        record {
          owner = set_owner f (pool p) w.owner;
          free = rest;
          lists = set_list p (f ∷ w.lists p) w.lists;
          holds_free = Holds-taken f (pool p) v w.owner m.frags nobody f rest h';
          holds = λ q. elim (same_pool-cases q p) [
            | inl (e, eq) ↦ rw e (
                subst
                  (λ r.
                    Holds (set_owner f (pool p) w.owner) (set_frag f v m.frags) (pool r) f
                      (f ∷ w.lists p))
                  (sym eq)
                  (Holds-put f (pool p) v w.owner m.frags (m.current p) (w.lists p)
                    (λ k. nobody-ne-pool p (sym free_now ∙ k)) h'.0.1 refl (w.holds p)))
            | inr (e, other) ↦ rw e (
                Holds-kept f (pool p) v w.owner m.frags (pool q) (m.current q) (w.lists q)
                  (λ k. nobody-ne-pool q (sym free_now ∙ k)) (w.holds q))
          ];
          total = omega (arith, total, length-set_list p (f ∷ w.lists p) w.lists);
          listed =
              IsListed-moved f (pool p) v w.owner m.frags (list_of (g ∷ rest) w.lists)
                (list_of rest (set_list p (f ∷ w.lists p) w.lists))
                (rw (same_pool_self p) (inl refl)) (others g rest h.0.0) listed;
          bounded = IsBounded-list_of rest (set_list p (f ∷ w.lists p) w.lists) (bounded nobody).1 (
              set_list-All (λ k. k < max_mem_frags) p (f ∷ w.lists p) w.lists
                (subst (λ j. j < max_mem_frags) (sym h.0.0) (bounded nobody).0, bounded (pool p))
                (λ q. bounded (pool q)));
          roomy = IsRoomy-kept f (pool p) v w.owner m.frags w.roomy (omega (arith, room.0, room.1));
          placed = IsPlaced-kept p m w.owner f v (pool p) live free_now w.placed;
          apart = w.apart;
        }
