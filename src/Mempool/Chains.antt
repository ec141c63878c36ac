-- ===== src/Mempool/Chains.antt =====
-- mempool.cpp: the free list and the pools' lists of fragments, and how a change of one keeps them.
use trn_actions.Prelude.{
  ℕ, ◌<◌, ◌≡◌, refl, sym, ap, ◌∙◌, subst, ◌≢◌, ◌⊎◌, inl, inr, Bool, true, false, List, [], ◌∷◌,
  arith, All,
}
use trn_actions.Mempool.{same_pool, Pool, Frag, score1, score2, sathread}

pub data Owner : Type 0 where
  nobody : Owner
  pool : Pool → Owner

-- The fragments from i on by the links, each of them once, up to the link 0.
abbrev pub Chain : (ℕ → ℕ) → ℕ → List ℕ → Type 0
Chain next i [] = i ≡ 0
Chain next i (f ∷ fs) = (i ≡ f) × (0 < f) × All (λ k. k ≢ f) fs × Chain next (next f) fs

-- The list that starts at i holds fragments of one owner only.
abbrev pub Holds : (ℕ → Owner) → (ℕ → Frag) → Owner → ℕ → List ℕ → Type 0
Holds owner frags o i fs = Chain (λ k. (frags k).next) i fs × All (λ k. owner k ≡ o) fs

-- Two states of the fragments that differ in fragment f only.
abbrev pub AgreesOff : ℕ → (ℕ → Owner) → (ℕ → Owner) → (ℕ → Frag) → (ℕ → Frag) → Type 0
AgreesOff f owner owner' frags frags' =
    (k : ℕ) → k ≢ f → (owner' k ≡ owner k) × ((frags' k).next ≡ (frags k).next)

pub Chain-off :
    (f i : ℕ) (next next' : ℕ → ℕ) (fs : List ℕ)
    → ((k : ℕ) → k ≢ f → next' k ≡ next k)
    → All (λ k. k ≢ f) fs
    → Chain next i fs
    → Chain next' i fs
Chain-off f i next next' [] h off c = c
Chain-off f i next next' (g ∷ fs) h off (e, pos, once, c) = (
  e,
  pos,
  once,
  Chain-off f (next' g) next next' fs h off.1 (subst (λ j. Chain next j fs) (sym (h g off.0)) c),
)

pub All-off :
    (f : ℕ) (o : Owner) (owner owner' : ℕ → Owner) (fs : List ℕ)
    → ((k : ℕ) → k ≢ f → owner' k ≡ owner k)
    → All (λ k. k ≢ f) fs
    → All (λ k. owner k ≡ o) fs
    → All (λ k. owner' k ≡ o) fs
All-off f o owner owner' [] h off c = tt
All-off f o owner owner' (g ∷ fs) h off c =
    (h g off.0 ∙ c.0, All-off f o owner owner' fs h off.1 c.1)

pub Holds-off :
    (f i : ℕ) (o : Owner) (owner owner' : ℕ → Owner) (frags frags' : ℕ → Frag) (fs : List ℕ)
    → AgreesOff f owner owner' frags frags'
    → All (λ k. k ≢ f) fs
    → Holds owner frags o i fs
    → Holds owner' frags' o i fs
Holds-off f i o owner owner' frags frags' fs h off c = (
  Chain-off f i (λ k. (frags k).next) (λ k. (frags' k).next) fs (λ k ne. (h k ne).1) off c.0,
  All-off f o owner owner' fs (λ k ne. (h k ne).0) off c.1,
)

-- Fragments of another owner are other fragments.
pub All-other :
    (f : ℕ) (o : Owner) (owner : ℕ → Owner) (fs : List ℕ)
    → owner f ≢ o
    → All (λ k. owner k ≡ o) fs
    → All (λ k. k ≢ f) fs
All-other f o owner [] ne c = tt
All-other f o owner (g ∷ fs) ne c =
    (λ e. ne (ap owner (sym e) ∙ c.0), All-other f o owner fs ne c.1)

is_nobody : Owner → Bool
is_nobody nobody = true
is_nobody (pool p) = false

pub pool-ne-nobody : (p : Pool) → pool p ≢ nobody
unfolding is_nobody
pool-ne-nobody p e = let b : false ≡ true = ap is_nobody e in ground (arith, b)

pub nobody-ne-pool : (p : Pool) → nobody ≢ pool p
nobody-ne-pool p e = pool-ne-nobody p (sym e)

owned_pool : Pool → Owner → Pool
owned_pool p nobody = p
owned_pool p (pool q) = q

pub pool-eq : (p q : Pool) → pool p ≡ pool q → p ≡ q
unfolding owned_pool
pool-eq p q e = ap (owned_pool p) e

code : Pool → ℕ
code score1 = 0
code score2 = 1
code sathread = 2

pub same_pool-cases :
    (q p : Pool) → ((same_pool q p ≡ true) × (q ≡ p)) ⊎ ((same_pool q p ≡ false) × (q ≢ p))
unfolding code
same_pool-cases score1 score1 = inl (refl, refl)
same_pool-cases score2 score2 = inl (refl, refl)
same_pool-cases sathread sathread = inl (refl, refl)
same_pool-cases score1 score2 = inr (refl, λ e. let n : 0 ≡ 1 = ap code e in omega (arith, n))
same_pool-cases score1 sathread = inr (refl, λ e. let n : 0 ≡ 2 = ap code e in omega (arith, n))
same_pool-cases score2 score1 = inr (refl, λ e. let n : 1 ≡ 0 = ap code e in omega (arith, n))
same_pool-cases score2 sathread = inr (refl, λ e. let n : 1 ≡ 2 = ap code e in omega (arith, n))
same_pool-cases sathread score1 = inr (refl, λ e. let n : 2 ≡ 0 = ap code e in omega (arith, n))
same_pool-cases sathread score2 = inr (refl, λ e. let n : 2 ≡ 1 = ap code e in omega (arith, n))

pub same_pool_self : (p : Pool) → same_pool p p ≡ true
same_pool_self score1 = refl
same_pool_self score2 = refl
same_pool_self sathread = refl
