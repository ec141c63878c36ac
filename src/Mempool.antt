-- ===== src/Mempool.antt =====
-- mempool.cpp: strings of the scoring code in fragments of memory, which are freed a pool at a time.
-- A piece of memory is its fragment and its place there; what is written into it is not modelled.
pub mod Chains
pub mod State
pub mod Taking
pub mod Giving
pub mod Others
pub mod Freeing
pub mod Reached
mod Examples
use trn_actions.Prelude.{
  ℕ, zero, suc, ◌+◌, ◌-◌, ◌*◌, Bool, true, false, ◌||◌, Option, none, some, leb, ◌==◌,
  if◌then◌else◌,
}

-- MAX_MEM_FRAGS
abbrev pub max_mem_frags : ℕ
max_mem_frags = 4000

-- FRAG_SIZE
abbrev pub frag_size : ℕ
frag_size = 1024 * 64 - 32

-- memory_pool
pub data Pool : Type 0 where
  score1 score2 sathread : Pool

-- MP_FRAG; `lastfree` counts from `data`.
pub record Frag : Type 0 where
  pub has_data : Bool
  pub lastfree : ℕ
  pub bytesfree : ℕ
  pub next : ℕ

-- s_mpfrags, s_mp_first_free_frag and the `current` of s_mpheads
pub record Mempool : Type 0 where
  pub frags : ℕ → Frag
  pub first_free_frag : ℕ
  pub current : Pool → ℕ

abbrev pub same_pool : Pool → Pool → Bool
same_pool score1 score1 = true
same_pool score2 score2 = true
same_pool sathread sathread = true
same_pool p q = false

abbrev pub set_frag : ℕ → Frag → (ℕ → Frag) → ℕ → Frag
set_frag f v frags k = if k == f then v else frags k

abbrev pub set_current : Pool → ℕ → (Pool → ℕ) → Pool → ℕ
set_current p f current q = if same_pool q p then f else current q

unfoldable pub mp_init : Mempool
mp_init = record {
  frags = λ i. record {
    has_data = false;
    lastfree = 0;
    bytesfree = 0;
    next = if suc i == max_mem_frags then 0 else suc i;
  };
  first_free_frag = 1;
  current = λ p. 0;
}

abbrev pub fresh : Frag → Frag
fresh v =
    if v.bytesfree == 0
    then record { has_data = true; lastfree = 0; bytesfree = frag_size; next = v.next }
    else v

-- The fragment and the memory afterwards; `none`: trn ends, as it does for a string too long.
unfoldable pub mp_alloc_frag : Mempool → Option (ℕ × Mempool)
mp_alloc_frag m =
    let f = m.first_free_frag in
    if f == 0
    then none
    else some (
      f,
      record m {
        first_free_frag = (m.frags f).next;
        frags = set_frag f (fresh (m.frags f)) m.frags;
      },
    )

unfoldable pub mp_free_frag : ℕ → Mempool → Mempool
mp_free_frag f m = record m {
  frags =
      set_frag f
        (record (m.frags f) { lastfree = 0; bytesfree = frag_size; next = m.first_free_frag })
        m.frags;
  first_free_frag = f;
}

-- `oldf = f; f = mp_alloc_frag(); ...`
abbrev pub new_current : Pool → Mempool → Option Mempool
new_current p m = elim (mp_alloc_frag m) [
  | none ↦ none
  | some (f, now) ↦ some (record now {
    frags = set_frag f (record (now.frags f) { next = m.current p }) now.frags;
    current = set_current p f now.current;
  })
]

-- The last lines of mp_savestr and mp_malloc: the fragment and the place of the memory.
abbrev pub take_bytes : ℕ → Pool → Mempool → (ℕ × ℕ) × Mempool
take_bytes size p m =
    let f = m.current p in
    let v = m.frags f in
    (
      (f, v.lastfree),
      record m {
        frags =
            set_frag f (record v { lastfree = v.lastfree + size; bytesfree = v.bytesfree - size })
              m.frags;
      },
    )

abbrev pub take_from : ℕ → Pool → Option Mempool → Option ((ℕ × ℕ) × Mempool)
take_from size p none = none
take_from size p (some m) = some (take_bytes size p m)

-- For a string of `len` bytes; `len >= bytesfree - 2` on a `long`.
unfoldable pub mp_savestr : ℕ → Pool → Mempool → Option ((ℕ × ℕ) × Mempool)
mp_savestr len p m =
    let f = m.current p in
    if leb frag_size len
    then none
    else take_from (len + 1) p
        (if f == 0 || leb (m.frags f).bytesfree (len + 2) then new_current p m else some m)

abbrev pub at_least_one : ℕ → ℕ
at_least_one zero = 1
at_least_one (suc n) = suc n

unfoldable pub mp_malloc : ℕ → Pool → Mempool → Option ((ℕ × ℕ) × Mempool)
mp_malloc size p m =
    let len = at_least_one size in
    let f = m.current p in
    if leb frag_size len
    then none
    else take_from (len + 1) p
        (if f == 0 || leb (m.frags f).bytesfree len then new_current p m else some m)

-- The loop of mp_free, over at most so many fragments.
unfoldable pub free_loop : ℕ → ℕ → Mempool → Mempool
free_loop zero f m = m
free_loop (suc n) f m =
    let oldnext = (m.frags f).next in
    let rest = free_loop n oldnext (mp_free_frag f m) in if f == 0 then m else rest

unfoldable pub mp_free : Pool → Mempool → Mempool
mp_free p m =
    let freed = free_loop max_mem_frags (m.current p) m in
    record freed { current = set_current p 0 freed.current }
