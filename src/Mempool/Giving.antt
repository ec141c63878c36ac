-- ===== src/Mempool/Giving.antt =====
-- mempool.cpp: mp_savestr and mp_malloc give out pieces that lie apart from those given out before.
use trn_actions.Mempool.Taking.{
  taken, new_current-none, new_current-taken, taken-WellFormed, taken_frag, fresh-IsRoomy,
}
use mathlib.Core.Path.{fun_ext}
use trn_actions.Prelude.{
  ℕ, ◌+◌, ◌-◌, ◌≤◌, ◌<◌, ◌≡◌, refl, sym, ap, ◌∙◌, subst, ◌≢◌, ◌⊎◌, inl, inr, Bool, true, false,
  Option, none, some, List, [], ◌∷◌, arith, leb, ◌==◌, if◌then◌else◌, Bool-cases, All,
}
use trn_actions.Mempool.{
  frag_size, Pool, take_bytes, set_frag, Frag, Mempool, new_current, take_from, mp_malloc,
  mp_savestr, at_least_one,
}
use trn_actions.Mempool.Chains.{Owner, Chain, Holds, pool, nobody, same_pool_self}
use trn_actions.Mempool.State.{Piece, IsPlaced, WellFormed, set_frag-off, IsRoomy, set_frag_self}

abbrev links : (ℕ → Frag) → ℕ → ℕ
links frags k = (frags k).next

module _ (f : ℕ) (v : Frag) (frags : ℕ → Frag) where
  links-kept : v.next ≡ (frags f).next → links (set_frag f v frags) ≡ links frags
  links-kept e = fun_ext (λ k. elim (Bool-cases (k == f)) [
    | inl same ↦ rw (links, same) (e ∙ ap (λ j. (frags j).next) (ground (arith, same)))
    | inr other ↦ ap (λ w. w.next) (set_frag-off f k v frags (ground (arith, other)))
  ])

  still_fits :
      (x : Piece)
      → (frags f).lastfree ≤ v.lastfree
      → x.place + x.size ≤ (frags x.frag).lastfree
      → x.place + x.size ≤ (set_frag f v frags x.frag).lastfree
  still_fits x le fits = elim (Bool-cases (x.frag == f)) [
    | inl same ↦
        let here : x.frag ≡ f = ground (arith, same) in
        rw same (omega (arith, le, subst (λ k. x.place + x.size ≤ (frags k).lastfree) here fits))
    | inr other ↦ rw other fits
  ]

  IsPlaced-raised :
      (owner : ℕ → Owner) (live : List Piece)
      → (frags f).lastfree ≤ v.lastfree
      → All (IsPlaced owner frags) live
      → All (IsPlaced owner (set_frag f v frags)) live
  IsPlaced-raised owner [] le h = tt
  IsPlaced-raised owner (x ∷ live) le ((own, fits), h) =
      ((own, still_fits x le fits), IsPlaced-raised owner live le h)

  apart-from :
      (owner : ℕ → Owner) (live : List Piece)
      → All (IsPlaced owner frags) live
      → All (λ y. y.frag ≡ f → y.place + y.size ≤ (frags f).lastfree) live
  apart-from owner [] h = tt
  apart-from owner (x ∷ live) ((own, fits), h) =
      (λ e. subst (λ k. x.place + x.size ≤ (frags k).lastfree) e fits, apart-from owner live h)

pub first_owner :
    (i : ℕ) (o : Owner) (owner : ℕ → Owner) (frags : ℕ → Frag) (fs : List ℕ)
    → i ≢ 0
    → Holds owner frags o i fs
    → owner i ≡ o
first_owner i o owner frags [] ne h = absurd (ne h.0)
first_owner i o owner frags (g ∷ fs) ne h = ap owner h.0.0 ∙ h.1.0

abbrev pub piece : Pool → ℕ → ℕ × ℕ → Piece
piece p size (f, at) = record { piece_pool = p; frag = f; place = at; size = size }

-- A piece was given out, and the memory is well-formed with it; or the piece is too large, or no
-- fragment is free.
abbrev pub IsGiven : Pool → ℕ → Mempool → List Piece → Option ((ℕ × ℕ) × Mempool) → Type 0
IsGiven p size m live none = (frag_size < size) ⊎ (m.first_free_frag ≡ 0)
IsGiven p size m live (some (at, now)) = WellFormed now.current now (piece p size at ∷ live)

take_bytes-WellFormed :
    (size : ℕ) (p : Pool) (m : Mempool) (live : List Piece)
    → m.current p ≢ 0
    → size ≤ (m.frags (m.current p)).bytesfree
    → WellFormed m.current m live
    → WellFormed m.current (take_bytes size p m).1 (piece p size (take_bytes size p m).0 ∷ live)
take_bytes-WellFormed size p m live ne fits w = record {
  owner = w.owner;
  free = w.free;
  lists = w.lists;
  holds_free = (
    subst (λ n. Chain n m.first_free_frag w.free) (sym same_links) w.holds_free.0,
    w.holds_free.1,
  );
  holds = λ q. (
    subst (λ n. Chain n (m.current q) (w.lists q)) (sym same_links) (w.holds q).0,
    (w.holds q).1,
  );
  total = w.total;
  listed = w.listed;
  bounded = w.bounded;
  roomy = λ k. elim (Bool-cases (k == f)) [
    | inl same ↦ rw same (
        subst (λ j. IsRoomy (w.owner j) v) (ground (arith, same))
          (subst (λ o. IsRoomy o v) (sym own) room))
    | inr other ↦ rw other (w.roomy k)
  ];
  placed = ((own, end), IsPlaced-raised f v m.frags w.owner live (omega arith) w.placed);
  apart = (apart-from f v m.frags w.owner live w.placed, w.apart);
}
  where
    f : ℕ
    f = m.current p

    v : Frag
    v = record (m.frags f) {
      lastfree = (m.frags f).lastfree + size;
      bytesfree = (m.frags f).bytesfree - size;
    }

    same_links : links (set_frag f v m.frags) ≡ links m.frags
    same_links = links-kept f v m.frags refl

    own : w.owner f ≡ pool p
    own = first_owner f (pool p) w.owner m.frags (w.lists p) ne (w.holds p)

    old_room : (m.frags f).lastfree + (m.frags f).bytesfree ≤ frag_size
    old_room = subst (λ o. IsRoomy o (m.frags f)) own (w.roomy f)

    room : v.lastfree + v.bytesfree ≤ frag_size
    room = omega (arith, old_room, fits)

    end : (m.frags f).lastfree + size ≤ (set_frag f v m.frags f).lastfree
    end =
        subst (λ u. (m.frags f).lastfree + size ≤ u.lastfree) (sym (set_frag_self f v m.frags))
          (omega arith)

taken-current : (p : Pool) (m : Mempool) → (taken p m).current p ≡ m.first_free_frag
taken-current p m = rw (same_pool_self p) refl

taken-bytesfree :
    (p : Pool) (m : Mempool) (live : List Piece)
    → m.first_free_frag ≢ 0
    → WellFormed m.current m live
    → ((taken p m).frags ((taken p m).current p)).bytesfree ≡ frag_size
taken-bytesfree p m live ne w =
    let f = m.first_free_frag in
    let free_now = first_owner f nobody w.owner m.frags w.free ne w.holds_free in
    ap (λ k. ((taken p m).frags k).bytesfree) (taken-current p m)
    ∙ ap (λ v. v.bytesfree) (set_frag_self f (taken_frag p m) m.frags)
    ∙ (fresh-IsRoomy p m w.owner (m.frags f)
        (subst (λ o. IsRoomy o (m.frags f)) free_now (w.roomy f))).0

-- What both functions do from the test on.
IsGiven-from :
    (size : ℕ) (p : Pool) (m : Mempool) (live : List Piece) (full : Bool)
    → size ≤ frag_size
    → (full ≡ false → (m.current p ≢ 0) × (size ≤ (m.frags (m.current p)).bytesfree))
    → WellFormed m.current m live
    → IsGiven p size m live (take_from size p (if full then new_current p m else some m))
IsGiven-from size p m live false fits h w =
    take_bytes-WellFormed size p m live (h refl).0 (h refl).1 w
IsGiven-from size p m live true fits h w = elim (Bool-cases (m.first_free_frag == 0)) [
  | inl e ↦
      let none_left : m.first_free_frag ≡ 0 = ground (arith, e) in
      subst (λ o. IsGiven p size m live (take_from size p o)) (sym (new_current-none p m none_left))
        (inr none_left)
  | inr e ↦
      let some_left : m.first_free_frag ≢ 0 = ground (arith, e) in
      let now = taken-WellFormed p m live some_left w in
      subst (λ o. IsGiven p size m live (take_from size p o))
        (sym (new_current-taken p m some_left))
        (take_bytes-WellFormed size p (taken p m) live
          (λ e. some_left (sym (taken-current p m) ∙ e))
          (omega (arith, fits, taken-bytesfree p m live some_left w)) now)
]

IsGiven-or_large :
    (len : ℕ) (p : Pool) (m : Mempool) (live : List Piece) (o : Option ((ℕ × ℕ) × Mempool))
    → (len < frag_size → IsGiven p (len + 1) m live o)
    → IsGiven p (len + 1) m live (if leb frag_size len then none else o)
IsGiven-or_large len p m live o h = elim (Bool-cases (leb frag_size len)) [
  | inl e ↦ rw e (inl (ground (arith, e)))
  | inr e ↦ rw e (h (ground (arith, e)))
]

-- In a well-formed memory mp_savestr gives a place for a string and its terminator in a fragment of
-- the pool, apart from all pieces given out before, and leaves the memory well-formed; or the string
-- with its terminator is larger than a fragment, or no fragment is free.
pub mp_savestr-IsGiven :
    (len : ℕ) (p : Pool) (m : Mempool) (live : List Piece)
    → WellFormed m.current m live
    → IsGiven p (len + 1) m live (mp_savestr len p m)
unfolding mp_savestr
mp_savestr-IsGiven len p m live w = IsGiven-or_large len p m live _ (λ small.
    IsGiven-from (len + 1) p m live _ (omega (arith, small))
      (λ e. (λ z. ground (arith, e, z), ground (arith, e))) w)

-- mp_malloc does likewise with a piece of one byte more than it was asked for, or of two bytes where
-- it was asked for none.
pub mp_malloc-IsGiven :
    (size : ℕ) (p : Pool) (m : Mempool) (live : List Piece)
    → WellFormed m.current m live
    → IsGiven p (at_least_one size + 1) m live (mp_malloc size p m)
unfolding mp_malloc
mp_malloc-IsGiven size p m live w = IsGiven-or_large (at_least_one size) p m live _ (λ small.
    IsGiven-from (at_least_one size + 1) p m live _ (omega (arith, small))
      (λ e. (λ z. ground (arith, e, z), ground (arith, e))) w)
