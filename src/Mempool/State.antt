-- ===== src/Mempool/State.antt =====
-- mempool.cpp: when the memory is well-formed, and that a pool may take a fragment.
use trn_actions.Prelude.{
  ℕ, suc, ◌+◌, ◌≤◌, ◌<◌, ◌≡◌, refl, sym, ap, ◌∙◌, subst, ◌≢◌, ◌⊎◌, inl, inr, true, false, List, [],
  ◌∷◌, arith, ◌==◌, if◌then◌else◌, Bool-cases, length, All,
}
use trn_actions.Mempool.{
  same_pool, set_frag, frag_size, Pool, max_mem_frags, Frag, Mempool, score1, score2, sathread,
}
use trn_actions.Mempool.Chains.{
  Owner, Chain, Holds, AgreesOff, Holds-off, All-other, nobody, pool, same_pool-cases,
}

-- A piece of memory that was given out for a pool.
pub record Piece : Type 0 where
  pub piece_pool : Pool
  pub frag : ℕ
  pub place : ℕ
  pub size : ℕ

-- A free fragment has no memory yet, or the whole of it; else what is used and what is left fit.
abbrev pub IsRoomy : Owner → Frag → Type 0
IsRoomy nobody v = (v.bytesfree ≡ 0) ⊎ ((v.bytesfree ≡ frag_size) × (v.lastfree ≡ 0))
IsRoomy (pool p) v = v.lastfree + v.bytesfree ≤ frag_size

abbrev pub IsPlaced : (ℕ → Owner) → (ℕ → Frag) → Piece → Type 0
IsPlaced owner frags x =
    (owner x.frag ≡ pool x.piece_pool) × (x.place + x.size ≤ (frags x.frag).lastfree)

-- Each piece lies behind the later pieces of the list that are in its fragment.
abbrev pub Apart : List Piece → Type 0
Apart [] = Unit
Apart (x ∷ xs) = All (λ y. y.frag ≡ x.frag → y.place + y.size ≤ x.place) xs × Apart xs

abbrev pub In : ℕ → List ℕ → Type 0
In k [] = ⊥
In k (f ∷ fs) = (k ≡ f) ⊎ In k fs

abbrev pub list_of : List ℕ → (Pool → List ℕ) → Owner → List ℕ
list_of free lists nobody = free
list_of free lists (pool p) = lists p

-- Each of the fragments from 1 on is on the list of its owner, and the lists hold no others.
abbrev pub IsListed : (ℕ → Owner) → (Owner → List ℕ) → Type 0
IsListed owner list = (k : ℕ) → 0 < k → k < max_mem_frags → In k (list (owner k))

abbrev pub IsBounded : (Owner → List ℕ) → Type 0
IsBounded list = (o : Owner) → All (λ k. k < max_mem_frags) (list o)

-- The fragments from 1 on are shared out among the free list and the pools' lists, which start at
-- `cur` and hold nothing else, and the pieces given out lie in fragments of their pools, apart from
-- each other.
pub record WellFormed (cur : Pool → ℕ) (m : Mempool) (live : List Piece) : Type 0 where
  pub owner : ℕ → Owner
  pub free : List ℕ
  pub lists : Pool → List ℕ
  pub holds_free : Holds owner m.frags nobody m.first_free_frag free
  pub holds : (p : Pool) → Holds owner m.frags (pool p) (cur p) (lists p)
  pub total :
      suc (length free + length (lists score1) + length (lists score2) + length (lists sathread))
      ≡ max_mem_frags
  pub listed : IsListed owner (list_of free lists)
  pub bounded : IsBounded (list_of free lists)
  pub roomy : (k : ℕ) → IsRoomy (owner k) (m.frags k)
  pub placed : All (IsPlaced owner m.frags) live
  pub apart : Apart live

abbrev pub set_owner : ℕ → Owner → (ℕ → Owner) → ℕ → Owner
set_owner f o owner k = if k == f then o else owner k

abbrev pub set_list : Pool → List ℕ → (Pool → List ℕ) → Pool → List ℕ
set_list p fs lists q = if same_pool q p then fs else lists q

abbrev pub set_start : Pool → ℕ → (Pool → ℕ) → Pool → ℕ
set_start p i cur q = if same_pool q p then i else cur q

pub set_owner-off :
    (f k : ℕ) (o : Owner) (owner : ℕ → Owner) → k ≢ f → set_owner f o owner k ≡ owner k
set_owner-off f k o owner ne = let other : (k == f) ≡ false = ground (arith, ne) in rw other refl

pub set_frag-off : (f k : ℕ) (v : Frag) (frags : ℕ → Frag) → k ≢ f → set_frag f v frags k ≡ frags k
set_frag-off f k v frags ne = let other : (k == f) ≡ false = ground (arith, ne) in rw other refl

pub set_owner_self : (f : ℕ) (o : Owner) (owner : ℕ → Owner) → set_owner f o owner f ≡ o
set_owner_self f o owner = let same : (f == f) ≡ true = ground arith in rw same refl

pub set_frag_self : (f : ℕ) (v : Frag) (frags : ℕ → Frag) → set_frag f v frags f ≡ v
set_frag_self f v frags = let same : (f == f) ≡ true = ground arith in rw same refl

-- Fragment f goes from one list to the front of another, and nothing else changes.
module _ (f : ℕ) (o : Owner) (v : Frag) (owner : ℕ → Owner) (frags : ℕ → Frag) where
  abbrev pub owner' : ℕ → Owner
  owner' = set_owner f o owner

  abbrev pub frags' : ℕ → Frag
  frags' = set_frag f v frags

  pub moved-AgreesOff : AgreesOff f owner owner' frags frags'
  moved-AgreesOff k ne =
      (set_owner-off f k o owner ne, ap (λ w. w.next) (set_frag-off f k v frags ne))

  pub Holds-kept :
      (other : Owner) (i : ℕ) (fs : List ℕ)
      → owner f ≢ other
      → Holds owner frags other i fs
      → Holds owner' frags' other i fs
  Holds-kept other i fs ne h =
      Holds-off f i other owner owner' frags frags' fs moved-AgreesOff
        (All-other f other owner fs ne h.1) h

  pub Holds-taken :
      (from : Owner) (i : ℕ) (fs : List ℕ)
      → Holds owner frags from i (f ∷ fs)
      → Holds owner' frags' from (frags f).next fs
  Holds-taken from i fs ((e, pos, once, c), all) =
      Holds-off f (frags f).next from owner owner' frags frags' fs moved-AgreesOff once (c, all.1)

  pub Holds-put :
      (i : ℕ) (fs : List ℕ)
      → owner f ≢ o
      → 0 < f
      → v.next ≡ i
      → Holds owner frags o i fs
      → Holds owner' frags' o f (f ∷ fs)
  Holds-put i fs ne pos e h =
      let (c, all) = Holds-kept o i fs ne h in
      let link : (frags' f).next ≡ i = ap (λ w. w.next) (set_frag_self f v frags) ∙ e in
      (
        (
          refl,
          pos,
          All-other f o owner fs ne h.1,
          subst (λ j. Chain (λ k. (frags' k).next) j fs) (sym link) c,
        ),
        (set_owner_self f o owner, all),
      )

  pub IsRoomy-kept :
      ((k : ℕ) → IsRoomy (owner k) (frags k))
      → IsRoomy o v
      → (k : ℕ) → IsRoomy (owner' k) (frags' k)
  IsRoomy-kept h r k = elim (Bool-cases (k == f)) [ inl e ↦ rw e r | inr e ↦ rw e (h k) ]

  pub IsListed-moved :
      (list list' : Owner → List ℕ)
      → In f (list' o)
      → ((q : Owner) (k : ℕ) → k ≢ f → In k (list q) → In k (list' q))
      → IsListed owner list
      → IsListed owner' list'
  IsListed-moved list list' here others h k pos small = elim (Bool-cases (k == f)) [
    | inl e ↦ rw e (subst (λ j. In j (list' o)) (ground (arith, e)) here)
    | inr e ↦ rw e (others (owner k) k (ground (arith, e)) (h k pos small))
  ]

-- What is not the first of a list is behind it.
pub In-behind : (k f : ℕ) (fs : List ℕ) → k ≢ f → In k (f ∷ fs) → In k fs
In-behind k f fs ne (inl e) = absurd (ne e)
In-behind k f fs ne (inr h) = h

pub IsBounded-list_of :
    (free : List ℕ) (lists : Pool → List ℕ)
    → All (λ k. k < max_mem_frags) free
    → ((q : Pool) → All (λ k. k < max_mem_frags) (lists q))
    → IsBounded (list_of free lists)
IsBounded-list_of free lists h hs nobody = h
IsBounded-list_of free lists h hs (pool q) = hs q

pub set_list-All :
    (P : ℕ → Type 0) (p : Pool) (fs : List ℕ) (lists : Pool → List ℕ)
    → All P fs
    → ((q : Pool) → All P (lists q))
    → (q : Pool) → All P (set_list p fs lists q)
set_list-All P p fs lists h hs q = elim (same_pool-cases q p) [
  | inl (e, same) ↦ rw e h
  | inr (e, other) ↦ rw e (hs q)
]
