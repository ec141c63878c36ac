-- ===== src/HashTable/Laws.antt =====
-- A hash.cpp table behaves as a finite map from keys to data.
use native.Mathlib.Nat.{le_trans}
use native.Mathlib.Decide.{ℕ_discrete}
use trn_actions.Prelude.{
  ℕ, zero, suc, ◌%◌, ◌≤◌, ◌<◌, ◌≡◌, refl, sym, ap, ◌∙◌, ◌≢◌, inl, inr, Bool, true, Option, none,
  some, List, [], arith, Bytes, ltb, if◌then◌else◌, Option-cases, length, get_or, set, replicate,
  length-replicate, length-set, get_or-set_self, get_or-set_ne,
}
use trn_actions.HashTable.{
  hashfetch, bucket, put_at, remove_at, hashfind, hashcreate, find_pos, hashstore, hashdelete,
  with_chain, Entry, Table, Globals, hash, hefree, link, datum, alloc_if_absent,
}
use trn_actions.HashTable.Chain.{
  IsComparison, find, count, datum-find_pos, find-put_at_self, find-put_at_ne, count-put_at,
  find-remove_at_self, find-remove_at_ne, count-remove_at,
}

abbrev pub value {ℓ} : {A : Type ℓ} {B : Type ℓ} → Option (A × B) → Option A
value none = none
value (some (a, b)) = some a

module _ {D : Type 0} (cmp : Bytes → D → Bool) where
  -- Created and not destroyed, with as many chains as its size says, and no key twice in a chain.
  pub record IsValid (t : Table D) : Type 0 where
    pub is_certified : t.certified ≡ true
    pub sized : length t.addr ≡ t.size
    pub not_empty : 0 < t.size
    pub no_twice : (i : ℕ) (key : Bytes) → count cmp key (get_or t.addr i []) ≤ 1

  pub hashfind-live :
      (t : Table D) (key : Bytes)
      → t.certified ≡ true
      → hashfind cmp t key
        ≡ some (bucket cmp t key, find_pos cmp key (get_or t.addr (bucket cmp t key) []))
  unfolding hashfind
  hashfind-live t key live = rw live

  -- What hashfetch returns.
  abbrev pub fetched : Table D → Globals → Bytes → Option (Option D)
  fetched t g key = value (hashfetch cmp t g key)

  pub hashfetch-find :
      (t : Table D) (g : Globals) (key : Bytes)
      → t.certified ≡ true
      → fetched t g key ≡ some (find cmp key (get_or t.addr (bucket cmp t key) []))
  unfolding hashfetch hashfind
  hashfetch-find t g key live = rw live (ap some (datum-find_pos cmp key _))

  bucket-lt : (t : Table D) (key : Bytes) → 0 < t.size → bucket cmp t key < t.size
  unfolding bucket
  bucket-lt t key h = omega arith

  pub hashcreate-IsValid : (size : ℕ) → IsValid (hashcreate size)
  unfolding hashcreate
  hashcreate-IsValid size = record {
    is_certified = refl;
    sized = length-replicate (if ltb size 1 then 1 else size) [];
    not_empty = ground arith;
    no_twice = λ i key. empty_chain (if ltb size 1 then 1 else size) i key;
  }
    where
      empty_chain : (n i : ℕ) (key : Bytes) → count cmp key (get_or (replicate n []) i []) ≤ 1
      empty_chain zero i key = unfold count in omega arith
      empty_chain (suc n) zero key = unfold count in omega arith
      empty_chain (suc n) (suc i) key = empty_chain n i key

  fetched-with_chain_self :
      (t : Table D) (g : Globals) (key : Bytes) (chain : List (Entry D))
      → IsValid t
      → fetched (with_chain cmp t (bucket cmp t key) chain) g key ≡ some (find cmp key chain)
  fetched-with_chain_self t g key chain v =
      hashfetch-find (with_chain cmp t (bucket cmp t key) chain) g key v.is_certified
      ∙ ap (λ c. some (find cmp key c)) (same_bucket (bucket-lt t key v.not_empty))
    where
      same_bucket :
          bucket cmp t key < t.size
          → get_or
              (set t.addr (bucket cmp t key) chain)
              (bucket cmp (with_chain cmp t (bucket cmp t key) chain) key)
              []
            ≡ chain
      same_bucket room =
          unfold bucket in
          get_or-set_self t.addr (hash key % t.size) chain [] (omega (arith, v.sized, v.not_empty))

  fetched-with_chain_ne :
      (t : Table D) (g g' : Globals) (key j : Bytes) (chain : List (Entry D))
      → IsValid t
      → find cmp j chain ≡ find cmp j (get_or t.addr (bucket cmp t key) [])
      → fetched (with_chain cmp t (bucket cmp t key) chain) g' j ≡ fetched t g j
  fetched-with_chain_ne t g g' key j chain v h =
      hashfetch-find (with_chain cmp t (bucket cmp t key) chain) g' j v.is_certified
      ∙ ap (λ (o : Option D). some o)
          (elim (ℕ_discrete (bucket cmp t key) (bucket cmp t j)) [
            | yes e ↦ same e
            | no ne ↦ ap (find cmp j) (other_bucket ne)
          ])
      ∙ sym (hashfetch-find t g j v.is_certified)
    where
      t' : Table D
      t' = with_chain cmp t (bucket cmp t key) chain

      bucket' : bucket cmp t' j ≡ bucket cmp t j
      bucket' = unfold bucket in refl

      same :
          bucket cmp t key ≡ bucket cmp t j
          → find cmp j (get_or t'.addr (bucket cmp t' j) [])
            ≡ find cmp j (get_or t.addr (bucket cmp t j) [])
      same e =
          rw
            (
              bucket',
              ← e,
              get_or-set_self t.addr (bucket cmp t key) chain []
                  (omega (arith, v.sized, bucket-lt t key v.not_empty)),
            )
            h

      other_bucket :
          bucket cmp t key ≢ bucket cmp t j
          → get_or t'.addr (bucket cmp t' j) [] ≡ get_or t.addr (bucket cmp t j) []
      other_bucket ne =
          rw bucket' (get_or-set_ne t.addr (bucket cmp t key) (bucket cmp t j) chain [] ne)

  module _ (unique : IsComparison cmp) where
    with_chain-no_twice :
        (t : Table D) (i : ℕ) (chain : List (Entry D))
        → IsValid t
        → i < t.size
        → ((key : Bytes) → count cmp key chain ≤ 1)
        → IsValid (with_chain cmp t i chain)
    with_chain-no_twice t i chain v room h = record {
      is_certified = v.is_certified;
      sized = length-set t.addr i chain ∙ v.sized;
      not_empty = v.not_empty;
      no_twice = λ j key. elim (ℕ_discrete i j) [
        | yes e ↦ rw (← e, get_or-set_self t.addr i chain [] (omega (arith, v.sized))) (h key)
        | no ne ↦ rw (get_or-set_ne t.addr i j chain [] ne) (v.no_twice j key)
      ];
    }

    -- On a valid table, where keys of one length that match the same datum are equal, storing a
    -- datum that matches its key succeeds and keeps the table valid. Afterwards the key fetches that
    -- datum, and every other key what it fetched before.
    pub hashstore-fetched :
        (t : Table D) (g : Globals) (key : Bytes) (d : D)
        → IsValid t
        → cmp key d ≡ true
        → (t' : Table D) × (g' : Globals) × (hashstore cmp t g key d ≡ some (t', g'))
          × IsValid t'
          × (fetched t' g' key ≡ some (some d))
          × ((j : Bytes) → j ≢ key → fetched t' g' j ≡ fetched t g j)
    unfolding hashstore hashfind
    hashstore-fetched t g key d v own =
        let i = bucket cmp t key in
        let old = get_or t.addr i [] in
        let n = find_pos cmp key old in
        let chain = put_at cmp (length key) d old n in
        let g' = alloc_if_absent cmp (link cmp t (i, n)) g in
        (
          with_chain cmp t i chain,
          g',
          rw v.is_certified,
          with_chain-no_twice t i chain v (bucket-lt t key v.not_empty)
              (λ j. count-put_at cmp unique key d own j old (v.no_twice i)),
          fetched-with_chain_self t g' key chain v
              ∙ ap (λ (o : Option D). some o) (find-put_at_self cmp unique key d own old),
          λ j ne.
              fetched-with_chain_ne t g g' key j chain v
                (find-put_at_ne cmp unique key d own j old ne),
        )

    -- A key with no entry fetches nothing.
    absent :
        (t : Table D) (g : Globals) (key : Bytes)
        → IsValid t
        → link cmp t (bucket cmp t key, find_pos cmp key (get_or t.addr (bucket cmp t key) []))
          ≡ none
        → fetched t g key ≡ some none
    absent t g key v e =
        hashfetch-find t g key v.is_certified
        ∙ ap (λ (o : Option D). some o)
            (sym (datum-find_pos cmp key (get_or t.addr (bucket cmp t key) [])) ∙ ap (datum cmp) e)

    fetched_any :
        (t : Table D) (g g' : Globals) (key : Bytes)
        → IsValid t
        → fetched t g' key ≡ fetched t g key
    fetched_any t g g' key v =
        hashfetch-find t g' key v.is_certified ∙ sym (hashfetch-find t g key v.is_certified)

    -- On a valid table, where keys of one length that match the same datum are equal, a delete
    -- succeeds and keeps the table valid. Afterwards the key fetches nothing, and every other key
    -- what it fetched before.
    pub hashdelete-fetched :
        (t : Table D) (g : Globals) (key : Bytes)
        → IsValid t
        → (t' : Table D) × (g' : Globals) × (hashdelete cmp t g key ≡ some (t', g'))
          × IsValid t'
          × (fetched t' g' key ≡ some none)
          × ((j : Bytes) → j ≢ key → fetched t' g' j ≡ fetched t g j)
    unfolding hashdelete hashfind
    hashdelete-fetched t g key v = elim (Option-cases (link cmp t (i, n))) [
      | inl e ↦ (t, g, rw (v.is_certified, e), v, absent t g key v e, λ j ne. refl)
      | inr (e, at) ↦ (
        with_chain cmp t i chain,
        record (hefree g) { last_nextp = none },
        rw (v.is_certified, at),
        with_chain-no_twice t i chain v (bucket-lt t key v.not_empty)
            (λ j. le_trans (count-remove_at cmp unique key j old n) (v.no_twice i j)),
        fetched-with_chain_self t _ key chain v
            ∙ ap (λ (o : Option D). some o)
                (find-remove_at_self cmp unique key old (v.no_twice i key)),
        λ j ne.
            fetched-with_chain_ne t g _ key j chain v (find-remove_at_ne cmp unique key j old ne),
      )
    ]
      where
        i : ℕ
        i = bucket cmp t key

        old : List (Entry D)
        old = get_or t.addr i []

        n : ℕ
        n = find_pos cmp key old

        chain : List (Entry D)
        chain = remove_at cmp old n
