-- ===== src/Mempool/Reached.antt =====
-- mempool.cpp: what holds after any sequence of calls.
use trn_actions.Prelude.{
  ℕ, zero, suc, ◌+◌, ◌≤◌, ◌<◌, ◌≡◌, refl, ap, subst, ◌≢◌, inl, inr, true, false, some, List, [],
  ◌∷◌, arith, ◌==◌, if◌then◌else◌, Bool-cases, length, All,
}
use trn_actions.Mempool.{
  mp_malloc, max_mem_frags, mp_savestr, mp_init, at_least_one, mp_free, Pool, Mempool,
}
use trn_actions.Mempool.Chains.{Chain, nobody}
use trn_actions.Mempool.Others.{without_pool}
use trn_actions.Mempool.State.{Piece, WellFormed, In, IsBounded-list_of}
use trn_actions.Mempool.Giving.{piece, IsGiven, mp_savestr-IsGiven, mp_malloc-IsGiven}
use trn_actions.Mempool.Freeing.{mp_free-WellFormed}

-- The memory after calls that succeeded, with the pieces that were given out and not freed.
pub data Reached : Mempool → List Piece → Type 0 where
  begins : Reached mp_init []
  saves :
      {m now : Mempool} {live : List Piece} {p : Pool} {at : ℕ × ℕ} (len : ℕ)
      → Reached m live
      → mp_savestr len p m ≡ some (at, now)
      → Reached now (piece p (len + 1) at ∷ live)
  allocates :
      {m now : Mempool} {live : List Piece} {p : Pool} {at : ℕ × ℕ} (size : ℕ)
      → Reached m live
      → mp_malloc size p m ≡ some (at, now)
      → Reached now (piece p (at_least_one size + 1) at ∷ live)
  frees :
      {m : Mempool} {live : List Piece} (p : Pool)
      → Reached m live
      → Reached (mp_free p m) (without_pool p live)

-- The numbers i, i + 1, ..., so many.
abbrev up_from : ℕ → ℕ → List ℕ
up_from zero i = []
up_from (suc n) i = i ∷ up_from n (suc i)

length-up_from : (n i : ℕ) → length (up_from n i) ≡ n
length-up_from zero i = refl
length-up_from (suc n) i = ap suc (length-up_from n (suc i))

up_from-above : (n i j : ℕ) → j < i → All (λ k. k ≢ j) (up_from n i)
up_from-above zero i j h = tt
up_from-above (suc n) i j h =
    (λ e. omega (arith, e, h), up_from-above n (suc i) j (omega (arith, h)))

All-nobody : (n i : ℕ) → All (λ k. nobody ≡ nobody) (up_from n i)
All-nobody zero i = tt
All-nobody (suc n) i = (refl, All-nobody n (suc i))

abbrev first_link : ℕ → ℕ
first_link i = if suc i == max_mem_frags then 0 else suc i

up_from-Chain :
    (n i : ℕ) → 0 < i → i + suc n ≡ max_mem_frags → Chain first_link i (up_from (suc n) i)
up_from-Chain zero i pos e =
    let last : (suc i == max_mem_frags) ≡ true = ground (arith, e) in (refl, pos, tt, rw last refl)
up_from-Chain (suc n) i pos e =
    let more : (suc i == max_mem_frags) ≡ false = ground (arith, e) in
    (
      refl,
      pos,
      up_from-above (suc n) (suc i) i (omega arith),
      rw more (up_from-Chain n (suc i) (omega arith) (omega (arith, e))),
    )

up_from-In : (n i k : ℕ) → i ≤ k → k < i + n → In k (up_from n i)
up_from-In zero i k le lt = absurd (omega (arith, le, lt))
up_from-In (suc n) i k le lt = elim (Bool-cases (k == i)) [
  | inl e ↦ inl (ground (arith, e))
  | inr e ↦ inr (up_from-In n (suc i) k (ground (arith, e, le)) (omega (arith, lt)))
]

up_from-below : (n i j : ℕ) → i + n ≤ j → All (λ k. k < j) (up_from n i)
up_from-below zero i j h = tt
up_from-below (suc n) i j h = (omega (arith, h), up_from-below n (suc i) j (omega (arith, h)))

mp_init-WellFormed : WellFormed mp_init.current mp_init []
unfolding mp_init
mp_init-WellFormed = record {
  owner = λ k. nobody;
  free = up_from 3999 1;
  lists = λ p. [];
  holds_free = (up_from-Chain 3998 1 (omega arith) (omega arith), All-nobody 3999 1);
  holds = λ p. (refl, tt);
  total = ap suc (omega (arith, length-up_from 3999 1));
  listed = λ k pos small. up_from-In 3999 1 k (omega (arith, pos)) (omega (arith, small));
  bounded =
      IsBounded-list_of (up_from 3999 1) (λ p. [])
        (up_from-below 3999 1 max_mem_frags (omega arith)) (λ p. tt);
  roomy = λ k. inl refl;
  placed = tt;
  apart = tt;
}

-- After any sequence of calls of mp_savestr, mp_malloc and mp_free from the beginning on, each of the
-- fragments from 1 to MAX_MEM_FRAGS - 1 is on the free list or on the list of one pool, once, and no
-- other number is on these lists; the pieces that were given out and not freed lie within the used
-- parts of their pools' fragments, apart from each other.
pub Reached-WellFormed :
    (m : Mempool) (live : List Piece) → Reached m live → WellFormed m.current m live
Reached-WellFormed m live begins = mp_init-WellFormed
Reached-WellFormed now live (saves {m = m} {live = before} {p = p} len r e) =
    subst (IsGiven p (len + 1) m before) e
      (mp_savestr-IsGiven len p m before (Reached-WellFormed m before r))
Reached-WellFormed now live (allocates {m = m} {live = before} {p = p} size r e) =
    subst (IsGiven p (at_least_one size + 1) m before) e
      (mp_malloc-IsGiven size p m before (Reached-WellFormed m before r))
Reached-WellFormed now live (frees {m = m} {live = before} p r) =
    mp_free-WellFormed p m before (Reached-WellFormed m before r)
