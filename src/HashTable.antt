-- ===== src/HashTable.antt =====
-- hash.cpp: chained hash tables over data that hold their own keys. A chain is the list of its
-- entries; a `HASHENT **` is the index of a bucket and a position in its chain.
pub mod Chain
pub mod Laws
pub mod Walk
pub mod Pool
mod Examples
use trn_actions.Prelude.{
  ℕ, zero, suc, ◌+◌, ◌-◌, ◌%◌, ◌^◌, Bool, true, false, not, ◌&&◌, Option, none, some, List, [], ◌∷◌,
  Bytes, ltb, ◌==◌, if◌then◌else◌, length, get_elem?, get_or, set, replicate, has_prefix,
}

pub record Entry (D : Type 0) : Type 0 where
  pub dat : D
  pub keylen : ℕ

-- `ht_magic == HASHMAG` is `certified`; `ht_addr` is the list of chains.
pub record Table (D : Type 0) : Type 0 where
  pub addr : List (List (Entry D))
  pub size : ℕ
  pub certified : Bool

-- The free list, as its length, with the counter kept beside it, and what the last hashfetch left.
pub record Globals : Type 0 where
  pub hereuse : ℕ
  pub reusables : ℕ
  pub last_nextp : Option (ℕ × ℕ)
  pub last_keylen : ℕ

abbrev pub heblocksize : ℕ
heblocksize = 1000

-- `hash += *key++`: a `char` is signed and the sum is an `unsigned`.
abbrev pub char_value : ℕ → ℕ
char_value c = if ltb c 128 then c else c + (2 ^ 32 - 256)

pub hash_loop : ℕ → Bytes → ℕ
hash_loop sum [] = sum
hash_loop sum (c ∷ key) = hash_loop ((sum + char_value c) % 2 ^ 32) key

pub hash : Bytes → ℕ
hash key = hash_loop 0 key

unfoldable pub healloc : Globals → Globals
healloc g =
    if g.hereuse == 0
    then record g { hereuse = heblocksize - 1; reusables = g.reusables + heblocksize - 1 }
    else record g { hereuse = g.hereuse - 1; reusables = g.reusables - 1 }

unfoldable pub hefree : Globals → Globals
hefree g = record g { hereuse = g.hereuse + 1; reusables = g.reusables + 1 }

pub free_all : ℕ → Globals → Globals
unfolding hefree
free_all zero g = g
free_all (suc n) g = free_all n (hefree g)

pub hashcreate : {D : Type 0} → ℕ → Table D
hashcreate size =
    let n = if ltb size 1 then 1 else size in
    record { addr = replicate n []; size = n; certified = true }

pub entries : {D : Type 0} → List (List (Entry D)) → ℕ
entries [] = 0
entries (chain ∷ chains) = length chain + entries chains

-- The chains are freed entry by entry, and the table is not to be used again.
pub hashdestroy : {D : Type 0} → Table D → Globals → Table D × Globals
unfolding free_all entries
hashdestroy t g = if not t.certified then (t, g) else (
  record { addr = []; size = t.size; certified = false },
  record (free_all (entries t.addr) g) { last_nextp = none },
)

-- `memcmp(key, data.dat_ptr, keylen)` is 0, for a datum that is the bytes at `dat_ptr`.
abbrev pub default_cmp : Bytes → Bytes → Bool
default_cmp key d = has_prefix key d

-- `cmp key data` is true where the table's comparison returns 0.
module _ {D : Type 0} (cmp : Bytes → D → Bool) where
  abbrev pub is_for : Bytes → Entry D → Bool
  is_for key e = e.keylen == length key && cmp key e.dat

  -- The position of the first entry for the key, or the end of the chain.
  pub find_pos : Bytes → List (Entry D) → ℕ
  find_pos key [] = 0
  find_pos key (e ∷ chain) = let rest = find_pos key chain in if is_for key e then 0 else suc rest

  pub bucket : Table D → Bytes → ℕ
  bucket t key = hash key % t.size

  -- `none` is the call of finalize(1) for an invalid table.
  pub hashfind : Table D → Bytes → Option (ℕ × ℕ)
  unfolding find_pos bucket
  hashfind t key =
      if t.certified
      then some (bucket t key, find_pos key (get_or t.addr (bucket t key) []))
      else none

  abbrev pub link : Table D → ℕ × ℕ → Option (Entry D)
  link t (i, n) = get_elem? (get_or t.addr i []) n

  -- `*nextp = hp` with a new entry at the end of the chain, or new data in the entry there.
  pub put_at : ℕ → D → List (Entry D) → ℕ → List (Entry D)
  put_at keylen d [] n = record { dat = d; keylen = keylen } ∷ []
  put_at keylen d (e ∷ chain) zero = record e { dat = d } ∷ chain
  put_at keylen d (e ∷ chain) (suc n) = e ∷ put_at keylen d chain n

  pub remove_at : List (Entry D) → ℕ → List (Entry D)
  remove_at [] n = []
  remove_at (e ∷ chain) zero = chain
  remove_at (e ∷ chain) (suc n) = e ∷ remove_at chain n

  abbrev pub with_chain : Table D → ℕ → List (Entry D) → Table D
  with_chain t i chain = record t { addr = set t.addr i chain }

  abbrev pub alloc_if_absent : Option (Entry D) → Globals → Globals
  alloc_if_absent none g = healloc g
  alloc_if_absent (some e) g = g

  abbrev pub store_at : Table D → Globals → ℕ → D → ℕ × ℕ → Table D × Globals
  store_at t g keylen d (i, n) =
      (with_chain t i (put_at keylen d (get_or t.addr i []) n), alloc_if_absent (link t (i, n)) g)

  abbrev and_then {ℓ} : {A B : Type ℓ} → Option A → (A → B) → Option B
  and_then none f = none
  and_then (some a) f = some (f a)

  pub hashstore : Table D → Globals → Bytes → D → Option (Table D × Globals)
  unfolding hashfind put_at healloc
  hashstore t g key d = and_then (hashfind t key) (store_at t g (length key) d)

  abbrev pub delete_at : Table D → Globals → ℕ × ℕ → Option (Entry D) → Table D × Globals
  delete_at t g (i, n) none = (t, g)
  delete_at t g (i, n) (some e) =
      (with_chain t i (remove_at (get_or t.addr i []) n), record (hefree g) { last_nextp = none })

  -- A removal may leave the pointer that hashfetch saved dangling: it is forgotten.
  pub hashdelete : Table D → Globals → Bytes → Option (Table D × Globals)
  unfolding hashfind remove_at hefree
  hashdelete t g key = and_then (hashfind t key) (λ p. delete_at t g p (link t p))

  abbrev pub datum : Option (Entry D) → Option D
  datum none = none
  datum (some e) = some e.dat

  -- The datum (`errdatum` is `none`), and the pointer saved for hashstorelast.
  pub hashfetch : Table D → Globals → Bytes → Option (Option D × Globals)
  unfolding hashfind
  hashfetch t g key =
      and_then (hashfind t key)
        (λ p. (datum (link t p), record g { last_nextp = some p; last_keylen = length key }))

  -- `none` where no pointer is saved.
  pub hashstorelast : Table D → Globals → D → Option (Table D × Globals)
  unfolding put_at healloc
  hashstorelast t g d = and_then g.last_nextp (store_at t g g.last_keylen d)

  -- The callback sees the key length and the datum, may change the datum, has a state of its own, and
  -- says whether its result is negative.
  module _ {S : Type 0} (nodefunc : ℕ → D → S → D × Bool × S) where
    abbrev keep : Entry D → D → Bool → List (Entry D) → List (Entry D)
    keep e d true rest = rest
    keep e d false rest = record e { dat = d } ∷ rest

    pub walk_chain : List (Entry D) → S → List (Entry D) × S
    walk_chain [] s = ([], s)
    walk_chain (e ∷ chain) s =
        let (d, negative, s') = nodefunc e.keylen e.dat s in
        let (rest, s'') = walk_chain chain s' in (keep e d negative rest, s'')

    pub walk_chains : List (List (Entry D)) → S → List (List (Entry D)) × S
    walk_chains [] s = ([], s)
    walk_chains (chain ∷ chains) s =
        let (c, s') = walk_chain chain s in let (cs, s'') = walk_chains chains s' in (c ∷ cs, s'')

    -- The saved pointer is left at the end of the last chain.
    pub hashwalk : Table D → Globals → S → Table D × Globals × S
    unfolding walk_chain walk_chains free_all entries
    hashwalk t g s =
        if not t.certified
        then (t, g, s)
        else let (chains, s') = walk_chains t.addr s in
          (
            record t { addr = chains },
            record (free_all (entries t.addr - entries chains) g) {
              last_nextp = some (t.size - 1, length (get_or chains (t.size - 1) []));
            },
            s',
          )
