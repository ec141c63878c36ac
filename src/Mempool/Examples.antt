-- ===== src/Mempool/Examples.antt =====
-- Inputs for the memory pools.
use trn_actions.Prelude.{
  ℕ, suc, ◌-◌, ◌≡◌, refl, true, false, Option, none, some, [], ◌∷◌, ◌==◌, if◌then◌else◌,
}
use trn_actions.Mempool.{
  max_mem_frags, mp_malloc, mp_init, mp_alloc_frag, mp_savestr, mp_free, frag_size, Mempool, score1,
  score2, sathread,
}
use trn_actions.Mempool.Others.{without_pool}
use trn_actions.Mempool.State.{WellFormed}
use trn_actions.Mempool.Giving.{piece, IsGiven, mp_savestr-IsGiven}
use trn_actions.Mempool.Reached.{Reached-WellFormed, begins, saves, frees}

-- Fragment 1 with ten bytes of score1, and the others free.
abbrev one_taken : Mempool
one_taken = record {
  frags = λ i.
      if i == 1
      then record { has_data = true; lastfree = 10; bytesfree = frag_size - 10; next = 0 }
      else record {
        has_data = false;
        lastfree = 0;
        bytesfree = 0;
        next = if suc i == max_mem_frags then 0 else suc i;
      };
  first_free_frag = 2;
  current = λ p. elim p [ score1 ↦ 1 | score2 ↦ 0 | sathread ↦ 0 ];
}

abbrev place_of : Option ((ℕ × ℕ) × Mempool) → Option (ℕ × ℕ)
place_of none = none
place_of (some (at, m)) = some at

same_fragment : place_of (mp_savestr 4 score1 one_taken) ≡ some (1, 10)
unfolding mp_savestr
same_fragment = refl

new_fragment : place_of (mp_malloc 0 score2 one_taken) ≡ some (2, 0)
unfolding mp_malloc mp_alloc_frag
new_fragment = refl

abbrev after : Option ((ℕ × ℕ) × Mempool) → Mempool
after none = mp_init
after (some (at, m)) = m

-- A string of nine bytes, a piece of four, then the pool of the string freed.
abbrev saved : Mempool
saved = after (mp_savestr 9 score1 mp_init)

saved_at : mp_savestr 9 score1 mp_init ≡ some ((1, 0), saved)
unfolding mp_savestr mp_init mp_alloc_frag
saved_at = refl

Reached-WellFormed_example :
    WellFormed
      (mp_free score1 saved).current
      (mp_free score1 saved)
      (without_pool score1 (piece score1 10 (1, 0) ∷ []))
Reached-WellFormed_example =
    Reached-WellFormed (mp_free score1 saved) _
      (frees {m = saved} score1 (saves {m = mp_init} {p = score1} {at = (1, 0)} 9 begins saved_at))

mp_savestr-IsGiven_example :
    IsGiven score2 6 saved (piece score1 10 (1, 0) ∷ []) (mp_savestr 5 score2 saved)
mp_savestr-IsGiven_example =
    mp_savestr-IsGiven 5 score2 saved (piece score1 10 (1, 0) ∷ []) (
      Reached-WellFormed saved _ (saves {m = mp_init} {p = score1} {at = (1, 0)} 9 begins saved_at))
