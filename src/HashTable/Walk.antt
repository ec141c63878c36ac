-- ===== src/HashTable/Walk.antt =====
-- hashwalk and hashstorelast of hash.cpp.
use trn_actions.Prelude.{
  ℕ, zero, suc, ◌-◌, ◌≤◌, ◌≡◌, refl, ap, ◌∙◌, Bool, true, not, Option, none, some, List, [], ◌∷◌,
  arith, Bytes, if◌then◌else◌, some-eq, length, get_or,
}
use trn_actions.HashTable.{
  hashstore, hashstorelast, hashwalk, walk_chain, walk_chains, hashfetch, Entry, Table, Globals,
  datum, free_all, and_then, entries, link, hashfind, bucket,
}
use trn_actions.HashTable.Chain.{find, count}
use trn_actions.HashTable.Laws.{value, IsValid, fetched, hashfetch-find}

module _ {D : Type 0} (cmp : Bytes → D → Bool) where
  -- A callback that keeps the data, and asks for removal by a test of the datum.
  abbrev pub sweep : (D → Bool) → ℕ → D → Unit {0} → D × Bool × Unit {0}
  sweep drop_test keylen d s = (d, drop_test d, tt)

  abbrev pub unless : (D → Bool) → Option D → Option D
  unless drop_test none = none
  unless drop_test (some d) = if drop_test d then none else some d

  module _ (drop_test : D → Bool) where
    find-none-walk_chain :
        (key : Bytes) (chain : List (Entry D))
        → find cmp key chain ≡ none
        → find cmp key (walk_chain cmp (sweep drop_test) chain tt).0 ≡ none
    unfolding find walk_chain
    find-none-walk_chain key [] h = refl
    find-none-walk_chain key (e ∷ chain) h = ground (arith, find-none-walk_chain key chain)

    count_zero-find :
        (key : Bytes) (chain : List (Entry D)) → count cmp key chain ≡ 0 → find cmp key chain ≡ none
    unfolding find count
    count_zero-find key [] h = refl
    count_zero-find key (e ∷ chain) h = ground (arith, count_zero-find key chain)

    find-walk_chain :
        (key : Bytes) (chain : List (Entry D))
        → count cmp key chain ≤ 1
        → find cmp key (walk_chain cmp (sweep drop_test) chain tt).0
          ≡ unless drop_test (find cmp key chain)
    unfolding find count walk_chain
    find-walk_chain key [] h = refl
    find-walk_chain key (e ∷ chain) h = ground (
      arith,
      find-walk_chain key chain,
      find-none-walk_chain key chain,
      count_zero-find key chain,
    )

    get_or-walk_chains :
        (chains : List (List (Entry D))) (i : ℕ)
        → get_or (walk_chains cmp (sweep drop_test) chains tt).0 i []
          ≡ (walk_chain cmp (sweep drop_test) (get_or chains i []) tt).0
    unfolding walk_chains walk_chain
    get_or-walk_chains [] i = refl
    get_or-walk_chains (chain ∷ chains) zero = refl
    get_or-walk_chains (chain ∷ chains) (suc i) = get_or-walk_chains chains i

    swept : Table D → Table D
    swept t = record t { addr = (walk_chains cmp (sweep drop_test) t.addr tt).0 }

    swept_globals : Table D → Globals → Globals
    swept_globals t g = record (free_all (entries t.addr - entries (swept t).addr) g) {
      last_nextp = some (t.size - 1, length (get_or (swept t).addr (t.size - 1) []));
    }

    hashwalk-live :
        (t : Table D) (g : Globals)
        → t.certified ≡ true
        → hashwalk cmp (sweep drop_test) t g tt ≡ (swept t, swept_globals t g, tt)
    unfolding hashwalk swept swept_globals
    hashwalk-live t g e =
        ap (λ (b : Bool). if not b then (t, g, tt) else (swept t, swept_globals t g, tt)) e

    -- On a valid table, after a walk that removes the data that a test picks, a key fetches what it
    -- fetched before where the test spares that, and nothing where the test picks it.
    pub hashwalk-fetched :
        (t : Table D) (g : Globals) (key : Bytes)
        → IsValid cmp t
        → (o : Option D) × (fetched cmp t g key ≡ some o)
          × (fetched cmp
                (hashwalk cmp (sweep drop_test) t g tt).0
                (hashwalk cmp (sweep drop_test) t g tt).1
                key
              ≡ some (unless drop_test o))
    unfolding swept bucket
    hashwalk-fetched t g key v = (
      find cmp key (get_or t.addr (bucket cmp t key) []),
      hashfetch-find cmp t g key v.is_certified,
      rw (hashwalk-live t g v.is_certified) (
          hashfetch-find cmp (swept t) _ key v.is_certified
          ∙ ap (λ (o : Option D). some o) (in_bucket (v.no_twice (bucket cmp t key) key))),
    )
      where
        in_bucket :
            count cmp key (get_or t.addr (bucket cmp t key) []) ≤ 1
            → find cmp key (get_or (swept t).addr (bucket cmp (swept t) key) [])
              ≡ unless drop_test (find cmp key (get_or t.addr (bucket cmp t key) []))
        in_bucket once =
            ap (find cmp key) (get_or-walk_chains t.addr (bucket cmp t key))
            ∙ find-walk_chain key (get_or t.addr (bucket cmp t key) []) once

  -- After a fetch, storing through the pointer that it saved gives the table that storing under the
  -- fetched key gives.
  pub hashstorelast-hashstore :
      (t : Table D) (g : Globals) (key : Bytes) (d : D) {o : Option D} {g' : Globals}
      → hashfetch cmp t g key ≡ some (o, g')
      → value (hashstorelast cmp t g' d) ≡ value (hashstore cmp t g' key d)
  unfolding hashfetch hashstorelast hashstore
  hashstorelast-hashstore t g key d {o} {g'} h = go (hashfind cmp t key) refl h
    where
      go :
          (p : Option (ℕ × ℕ))
          → hashfind cmp t key ≡ p
          → and_then cmp {B = Option D × Globals} p (λ p.
            (datum cmp (link cmp t p), record g { last_nextp = some p; last_keylen = length key }))
            ≡ some (o, g')
          → value (hashstorelast cmp t g' d) ≡ value (hashstore cmp t g' key d)
      go none e h = cc
      go (some (i, n)) e h = rw e (let same = some-eq h in rw (← ap (λ q. q.1) same))
