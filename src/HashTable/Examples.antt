-- ===== src/HashTable/Examples.antt =====
-- A table of three keys, of which two share a chain.
use trn_actions.HashTable.Pool.{Conserves, hashstore-Conserves}
use trn_actions.Prelude.{
  ℕ, zero, suc, ◌≤◌, ◌≡◌, refl, ◌≢◌, Bool, true, Option, none, some, [], ◌∷◌, arith, Bytes, ◌==◌,
  codes, length, get_or,
}
use trn_actions.HashTable.{
  default_cmp, bucket, hashdelete, hashwalk, find_pos, hashfetch, hashstore, hashfind, Table,
  Globals, hash, hash_loop, healloc, hefree,
}
use trn_actions.HashTable.Chain.{count, default_cmp-IsComparison}
use trn_actions.HashTable.Laws.{IsValid, fetched, hashstore-fetched, hashdelete-fetched}
use trn_actions.HashTable.Walk.{sweep, unless, hashwalk-fetched}

abbrev empty_pool : Globals
empty_pool = record { hereuse = 0; reusables = 0; last_nextp = none; last_keylen = 0 }

abbrev small : Table Bytes
small = record {
  addr =
      (record { dat = codes "d"; keylen = 1 } ∷ [])
      ∷ (record { dat = codes "ab"; keylen = 2 } ∷ record { dat = codes "q"; keylen = 1 } ∷ [])
      ∷ [];
  size = 2;
  certified = true;
}

finds_ab : fetched default_cmp small empty_pool (codes "ab") ≡ some (some (codes "ab"))
unfolding hashfetch bucket hashfind find_pos hash hash_loop
finds_ab = refl

finds_d : fetched default_cmp small empty_pool (codes "d") ≡ some (some (codes "d"))
unfolding hashfetch bucket hashfind find_pos hash hash_loop
finds_d = refl

finds_q : fetched default_cmp small empty_pool (codes "q") ≡ some (some (codes "q"))
unfolding hashfetch bucket hashfind find_pos hash hash_loop
finds_q = refl

at_most_one : (i : ℕ) (key : Bytes) → count default_cmp key (get_or small.addr i []) ≤ 1
unfolding count
at_most_one (suc zero) [] = omega arith
at_most_one (suc zero) (c ∷ []) = ground arith
at_most_one (suc zero) (c ∷ d ∷ []) = ground arith
at_most_one (suc zero) (c ∷ d ∷ e ∷ s) = ground arith
at_most_one zero key = ground arith
at_most_one (suc (suc i)) key = ground arith

small-IsValid : IsValid default_cmp small
small-IsValid = record {
  is_certified = refl;
  sized = refl;
  not_empty = omega arith;
  no_twice = at_most_one;
}

abbrev key_x : Bytes
key_x = codes "x"

hashstore-fetched_example :
    (t' : Table Bytes) × (g' : Globals) × (hashstore default_cmp small empty_pool key_x key_x
      ≡ some (t', g'))
    × IsValid default_cmp t'
    × (fetched default_cmp t' g' key_x ≡ some (some key_x))
    × ((j : Bytes)
        → j ≢ key_x
        → fetched default_cmp t' g' j ≡ fetched default_cmp small empty_pool j)
hashstore-fetched_example =
    hashstore-fetched default_cmp default_cmp-IsComparison small empty_pool key_x key_x
      small-IsValid refl

hashdelete-fetched_example :
    (t' : Table Bytes) × (g' : Globals) × (hashdelete default_cmp small empty_pool (codes "ab")
      ≡ some (t', g'))
    × IsValid default_cmp t'
    × (fetched default_cmp t' g' (codes "ab") ≡ some none)
    × ((j : Bytes)
        → j ≢ codes "ab"
        → fetched default_cmp t' g' j ≡ fetched default_cmp small empty_pool j)
hashdelete-fetched_example =
    hashdelete-fetched default_cmp default_cmp-IsComparison small empty_pool (codes "ab")
      small-IsValid

abbrev is_short : Bytes → Bool
is_short d = length d == 1

hashwalk-fetched_example :
    (o : Option Bytes) × (fetched default_cmp small empty_pool (codes "d") ≡ some o)
    × (fetched default_cmp
          (hashwalk default_cmp (sweep default_cmp is_short) small empty_pool tt).0
          (hashwalk default_cmp (sweep default_cmp is_short) small empty_pool tt).1
          (codes "d")
        ≡ some (unless default_cmp is_short o))
hashwalk-fetched_example =
    hashwalk-fetched default_cmp is_short small empty_pool (codes "d") small-IsValid

-- The small table with one more key, and the pool after the store and after a delete.
abbrev four : Table Bytes
four = record small {
  addr =
      (record { dat = codes "d"; keylen = 1 } ∷ record { dat = key_x; keylen = 1 } ∷ [])
      ∷ (record { dat = codes "ab"; keylen = 2 } ∷ record { dat = codes "q"; keylen = 1 } ∷ [])
      ∷ [];
}

abbrev four_pool : Globals
four_pool = record { hereuse = 999; reusables = 999; last_nextp = none; last_keylen = 0 }

store_x : hashstore default_cmp small empty_pool key_x key_x ≡ some (four, four_pool)
unfolding hashstore hashfind find_pos bucket hash hash_loop healloc hefree
store_x = refl

hashstore-Conserves_example : Conserves default_cmp small empty_pool four four_pool
hashstore-Conserves_example =
    hashstore-Conserves default_cmp small empty_pool key_x key_x small-IsValid refl store_x

abbrev two : Table Bytes
two = record small {
  addr =
      (record { dat = codes "d"; keylen = 1 } ∷ [])
      ∷ (record { dat = codes "ab"; keylen = 2 } ∷ [])
      ∷ [];
}

abbrev two_pool : Globals
two_pool = record { hereuse = 1; reusables = 1; last_nextp = none; last_keylen = 0 }

delete_q : hashdelete default_cmp small empty_pool (codes "q") ≡ some (two, two_pool)
unfolding hashdelete hashfind find_pos bucket hash hash_loop hefree
delete_q = refl

after_fetch :
    hashfetch default_cmp small empty_pool (codes "q")
    ≡ some (some (codes "q"), record empty_pool { last_nextp = some (1, 1); last_keylen = 1 })
unfolding hashfetch hashfind find_pos bucket hash hash_loop
after_fetch = refl
