-- ===== src/Mempool/Others.antt =====
-- mempool.cpp: the pieces that stay when a pool is freed.
use trn_actions.Prelude.{
  ◌+◌, ◌≤◌, ◌≡◌, ◌≢◌, inl, inr, List, [], ◌∷◌, if◌then◌else◌, Bool-cases, All,
}
use trn_actions.Mempool.{same_pool, Pool}
use trn_actions.Mempool.Chains.{same_pool-cases}
use trn_actions.Mempool.State.{Piece, Apart}

-- The pieces of the other pools.
abbrev pub without_pool : Pool → List Piece → List Piece
without_pool p [] = []
without_pool p (x ∷ live) =
    if same_pool x.piece_pool p then without_pool p live else x ∷ without_pool p live

pub without_pool-All :
    (P : Piece → Type 0) (p : Pool) (live : List Piece) → All P live → All P (without_pool p live)
without_pool-All P p [] h = tt
without_pool-All P p (x ∷ live) (hx, h) = elim (Bool-cases (same_pool x.piece_pool p)) [
  | inl e ↦ rw e (without_pool-All P p live h)
  | inr e ↦ rw e (hx, without_pool-All P p live h)
]

pub without_pool-Apart : (p : Pool) (live : List Piece) → Apart live → Apart (without_pool p live)
without_pool-Apart p [] h = tt
without_pool-Apart p (x ∷ live) (hx, h) = elim (Bool-cases (same_pool x.piece_pool p)) [
  | inl e ↦ rw e (without_pool-Apart p live h)
  | inr e ↦ rw e (
    without_pool-All (λ y. y.frag ≡ x.frag → y.place + y.size ≤ x.place) p live hx,
    without_pool-Apart p live h,
  )
]

pub without_pool-ne :
    (p : Pool) (live : List Piece) → All (λ x. x.piece_pool ≢ p) (without_pool p live)
without_pool-ne p [] = tt
without_pool-ne p (x ∷ live) = elim (same_pool-cases x.piece_pool p) [
  | inl (e, eq) ↦ rw e (without_pool-ne p live)
  | inr (e, ne) ↦ rw e (ne, without_pool-ne p live)
]
