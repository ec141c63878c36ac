-- ===== src/HashTable/Pool.antt =====
-- The free list of hash.cpp: no operation loses an entry or counts one twice.
use trn_actions.Prelude.{
  ℕ, zero, suc, ◌+◌, ◌%◌, ◌<◌, ◌≡◌, refl, ap, subst, ◌⊎◌, inl, Bool, true, false, not, Option, none,
  some, List, [], ◌∷◌, arith, Bytes, if◌then◌else◌, some-eq, length, get_elem?, get_or, set,
}
use trn_actions.HashTable.{
  entries, hashfetch, put_at, healloc, with_chain, hefree, store_at, hashdestroy, link, hashfind,
  hashdelete, bucket, hashstore, heblocksize, free_all, remove_at, alloc_if_absent, Entry, Table,
  Globals, delete_at, hash, find_pos,
}
use trn_actions.HashTable.Laws.{IsValid, hashfind-live}

-- The counter is the length of the free list.
abbrev pub IsBalanced : Globals → Type 0
IsBalanced g = g.reusables ≡ g.hereuse

free_all-hereuse :
    (n : ℕ) (g : Globals)
    → ((free_all n g).hereuse ≡ n + g.hereuse) × ((free_all n g).reusables ≡ n + g.reusables)
unfolding free_all
free_all-hereuse zero g = (omega arith, omega arith)
free_all-hereuse (suc n) g = omega (arith, free_all-hereuse n (hefree g))

module _ {D : Type 0} (cmp : Bytes → D → Bool) where
  entries-set :
      (chains : List (List (Entry D))) (i : ℕ) (c : List (Entry D))
      → i < length chains
      → entries (set chains i c) + length (get_or chains i []) ≡ entries chains + length c
  unfolding entries
  entries-set [] i c h = elim h [ ]
  entries-set (x ∷ chains) zero c h = omega arith
  entries-set (x ∷ chains) (suc i) c h = omega (arith, entries-set chains i c (omega arith))

  abbrev added : Option (Entry D) → ℕ
  added none = 1
  added (some e) = 0

  length-put_at :
      (keylen : ℕ) (d : D) (chain : List (Entry D)) (n : ℕ)
      → length (put_at cmp keylen d chain n) ≡ length chain + added (get_elem? chain n)
  unfolding put_at
  length-put_at keylen d [] n = refl
  length-put_at keylen d (e ∷ chain) zero = omega arith
  length-put_at keylen d (e ∷ chain) (suc n) = omega (arith, length-put_at keylen d chain n)

  length-remove_at :
      (chain : List (Entry D)) (n : ℕ) {e : Entry D}
      → get_elem? chain n ≡ some e
      → length (remove_at cmp chain n) + 1 ≡ length chain
  unfolding remove_at
  length-remove_at [] n h = cc
  length-remove_at (x ∷ chain) zero h = omega arith
  length-remove_at (x ∷ chain) (suc n) h = omega (arith, length-remove_at chain n h)

  -- The entries of the table and those on the free list stay as many, or a block is added.
  abbrev pub Conserves : Table D → Globals → Table D → Globals → Type 0
  Conserves t g t' g' =
      IsBalanced g'
      × ((entries t'.addr + g'.hereuse ≡ entries t.addr + g.hereuse)
          ⊎ (entries t'.addr + g'.hereuse ≡ entries t.addr + g.hereuse + heblocksize))

  -- The entries of the table and those on the free list stay as many.
  abbrev pub Keeps : Table D → Globals → Table D → Globals → Type 0
  Keeps t g t' g' = IsBalanced g' × (entries t'.addr + g'.hereuse ≡ entries t.addr + g.hereuse)

  alloc-Conserves :
      (t : Table D) (g : Globals) (i n keylen : ℕ) (d : D)
      → i < length t.addr
      → IsBalanced g
      → Conserves t g (store_at cmp t g keylen d (i, n)).0 (store_at cmp t g keylen d (i, n)).1
  alloc-Conserves t g i n keylen d room h =
      go (link cmp t (i, n)) (length-put_at keylen d (get_or t.addr i []) n)
        (entries-set t.addr i (put_at cmp keylen d (get_or t.addr i []) n) room)
    where
      c : List (Entry D)
      c = put_at cmp keylen d (get_or t.addr i []) n

      go :
          (o : Option (Entry D))
          → length c ≡ length (get_or t.addr i []) + added o
          → entries (set t.addr i c) + length (get_or t.addr i []) ≡ entries t.addr + length c
          → Conserves t g (with_chain cmp t i c) (alloc_if_absent cmp o g)
      go none e e' = unfold healloc in (ground arith, ground arith)
      go (some x) e e' = (h, inl (omega arith))

  -- On a valid table, with the counter of the free list at its length, a store takes an entry from
  -- the list exactly where it adds one to the table, the list grows only by a whole block, and the
  -- counter stays its length.
  pub hashstore-Conserves :
      (t : Table D) (g : Globals) (key : Bytes) (d : D) {t' : Table D} {g' : Globals}
      → IsValid cmp t
      → IsBalanced g
      → hashstore cmp t g key d ≡ some (t', g')
      → Conserves t g t' g'
  unfolding hashstore bucket
  hashstore-Conserves t g key d {t'} {g'} v h e =
      let i = bucket cmp t key in
      let n = find_pos cmp key (get_or t.addr i []) in
      let room : hash key % t.size < length t.addr = omega (arith, v.sized, v.not_empty) in
      subst (λ r. Conserves t g r.0 r.1)
        (some-eq (rw (hashfind-live cmp t key v.is_certified) at e))
        (alloc-Conserves t g i n (length key) d room h)

  delete-Keeps :
      (t : Table D) (g : Globals) (i n : ℕ) (o : Option (Entry D))
      → i < length t.addr
      → IsBalanced g
      → link cmp t (i, n) ≡ o
      → Keeps t g (delete_at cmp t g (i, n) o).0 (delete_at cmp t g (i, n) o).1
  unfolding hefree
  delete-Keeps t g i n none room h e = (h, refl)
  delete-Keeps t g i n (some x) room h e =
      let fewer = length-remove_at (get_or t.addr i []) n e in
      let total = entries-set t.addr i (remove_at cmp (get_or t.addr i []) n) room in
      (omega arith, omega (arith, fewer, total))

  -- On a valid table, with the counter of the free list at its length, a delete loses no entry: the
  -- entries in the table and in the list together stay as many, and the counter stays the length.
  pub hashdelete-Keeps :
      (t : Table D) (g : Globals) (key : Bytes) {t' : Table D} {g' : Globals}
      → IsValid cmp t
      → IsBalanced g
      → hashdelete cmp t g key ≡ some (t', g')
      → Keeps t g t' g'
  unfolding hashdelete bucket
  hashdelete-Keeps t g key {t'} {g'} v h e =
      let i = bucket cmp t key in
      let n = find_pos cmp key (get_or t.addr i []) in
      let room : hash key % t.size < length t.addr = omega (arith, v.sized, v.not_empty) in
      subst (λ r. Keeps t g r.0 r.1) (some-eq (rw (hashfind-live cmp t key v.is_certified) at e))
        (delete-Keeps t g i n (link cmp t (i, n)) room h refl)

  destroyed : Table D → Globals → Table D × Globals
  destroyed t g = (
    record { addr = []; size = t.size; certified = false },
    record (free_all (entries t.addr) g) { last_nextp = none },
  )

  hashdestroy-live :
      (t : Table D) (g : Globals) → t.certified ≡ true → hashdestroy t g ≡ destroyed t g
  unfolding hashdestroy destroyed
  hashdestroy-live t g e = ap (λ (b : Bool). if not b then (t, g) else destroyed t g) e

  hashdestroy_dead : (t : Table D) (g : Globals) → t.certified ≡ false → hashdestroy t g ≡ (t, g)
  unfolding hashdestroy destroyed
  hashdestroy_dead t g e = ap (λ (b : Bool). if not b then (t, g) else destroyed t g) e

  hashfetch_dead :
      (t : Table D) (g : Globals) (key : Bytes) → t.certified ≡ false → hashfetch cmp t g key ≡ none
  unfolding hashfetch hashfind
  hashfetch_dead t g key e = rw e

  -- With the counter of the free list at its length, destroying a live table gives all its entries
  -- back, and the table is invalid from then on: a fetch from it ends the program, and destroying it
  -- again does nothing.
  pub hashdestroy-Keeps :
      (t : Table D) (g : Globals)
      → t.certified ≡ true
      → IsBalanced g
      → Keeps t g (hashdestroy t g).0 (hashdestroy t g).1
        × (hashdestroy (hashdestroy t g).0 (hashdestroy t g).1 ≡ hashdestroy t g)
        × ((key : Bytes) → hashfetch cmp (hashdestroy t g).0 (hashdestroy t g).1 key ≡ none)
  unfolding destroyed
  hashdestroy-Keeps t g live h = rw (hashdestroy-live t g live) (
    (
      omega (arith, free_all-hereuse (entries t.addr) g),
      unfold entries in omega (arith, free_all-hereuse (entries t.addr) g),
    ),
    hashdestroy_dead _ _ refl,
    λ key. hashfetch_dead _ _ key refl,
  )
