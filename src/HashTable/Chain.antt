-- ===== src/HashTable/Chain.antt =====
-- One chain of a hash.cpp table.
use native.Mathlib.Decide.{ℕ_discrete}
use trn_actions.Prelude.{
  ℕ, zero, suc, ◌≤◌, ◌≡◌, refl, ap, ◌≢◌, inl, inr, Bool, true, false, ◌&&◌, Option, none, some,
  List, [], ◌∷◌, arith, Bytes, ◌==◌, if◌then◌else◌, Bool-cases, length, get_elem?,
}
use trn_actions.HashTable.{find_pos, remove_at, is_for, datum, put_at, Entry, default_cmp}

pub Bytes-discrete : Discrete Bytes
Bytes-discrete = hlevel ℕ_discrete

-- Keys of one length that compare equal to the same datum are the same key, as it is for a
-- comparison with the key that the datum holds.
abbrev pub IsComparison : {D : Type 0} → (Bytes → D → Bool) → Type 0
IsComparison {D} cmp =
    (k j : Bytes) (d : D) → length k ≡ length j → cmp k d ≡ true → cmp j d ≡ true → k ≡ j

module _ {D : Type 0} (cmp : Bytes → D → Bool) where
  unfoldable pub find : Bytes → List (Entry D) → Option D
  find key [] = none
  find key (e ∷ chain) = if is_for cmp key e then some e.dat else find key chain

  unfoldable pub count : Bytes → List (Entry D) → ℕ
  count key [] = 0
  count key (e ∷ chain) = if is_for cmp key e then suc (count key chain) else count key chain

  pub datum-find_pos :
      (key : Bytes) (chain : List (Entry D))
      → datum cmp (get_elem? chain (find_pos cmp key chain)) ≡ find key chain
  unfolding find find_pos
  datum-find_pos key [] = refl
  datum-find_pos key (e ∷ chain) = elim (Bool-cases (is_for cmp key e)) [
    | inl h ↦ rw h
    | inr h ↦ rw h (datum-find_pos key chain)
  ]

  module _ (unique : IsComparison cmp) (key : Bytes) where
    -- An entry of one key is no entry of another.
    pub is_for_ne :
        (j : Bytes) (d : D) (n : ℕ)
        → j ≢ key
        → n ≡ length key
        → cmp key d ≡ true
        → (n == length j && cmp j d) ≡ false
    is_for_ne j d n ne e own = elim (Bool-cases (n == length j && cmp j d)) [
      | inl h ↦ absurd (ne (unique j key d (ground arith) (ground arith) own))
      | inr h ↦ h
    ]

    module _ (d : D) (own : cmp key d ≡ true) where
      pub find-put_at_self :
          (chain : List (Entry D))
          → find key (put_at cmp (length key) d chain (find_pos cmp key chain)) ≡ some d
      unfolding find find_pos put_at
      find-put_at_self [] = ground arith
      find-put_at_self (e ∷ chain) = elim (Bool-cases (is_for cmp key e)) [
        | inl h ↦ rw h (ground arith)
        | inr h ↦ rw (h, h) (find-put_at_self chain)
      ]

      pub find-put_at_ne :
          (j : Bytes) (chain : List (Entry D))
          → j ≢ key
          → find j (put_at cmp (length key) d chain (find_pos cmp key chain)) ≡ find j chain
      unfolding find find_pos put_at
      find-put_at_ne j [] ne = rw (is_for_ne j d (length key) ne refl own)
      find-put_at_ne j (e ∷ chain) ne = elim (Bool-cases (is_for cmp key e)) [
        | inl h ↦
            let here : e.keylen ≡ length key = ground arith in
            let mine : cmp key e.dat ≡ true = ground arith in
            rw (h, is_for_ne j d e.keylen ne here own, is_for_ne j e.dat e.keylen ne here mine)
        | inr h ↦ rw h (
            ap (λ (o : Option D). if is_for cmp j e then some e.dat else o)
              (find-put_at_ne j chain ne))
      ]

      count-put_at_self :
          (chain : List (Entry D))
          → count key chain ≤ 1
          → count key (put_at cmp (length key) d chain (find_pos cmp key chain)) ≤ 1
      unfolding count find_pos put_at
      count-put_at_self [] h = ground arith
      count-put_at_self (e ∷ chain) h = elim (Bool-cases (is_for cmp key e)) [
        | inl is ↦ rw is (ground arith)
        | inr is ↦ rw (is, is) (count-put_at_self chain (rw is at h))
      ]

      count-put_at_ne :
          (j : Bytes) (chain : List (Entry D))
          → j ≢ key
          → count j (put_at cmp (length key) d chain (find_pos cmp key chain)) ≡ count j chain
      unfolding count find_pos put_at
      count-put_at_ne j [] ne = rw (is_for_ne j d (length key) ne refl own)
      count-put_at_ne j (e ∷ chain) ne = elim (Bool-cases (is_for cmp key e)) [
        | inl h ↦
            let here : e.keylen ≡ length key = ground arith in
            let mine : cmp key e.dat ≡ true = ground arith in
            rw (h, is_for_ne j d e.keylen ne here own, is_for_ne j e.dat e.keylen ne here mine)
        | inr h ↦
            rw h (ap (λ (n : ℕ). if is_for cmp j e then suc n else n) (count-put_at_ne j chain ne))
      ]

      pub count-put_at :
          (j : Bytes) (chain : List (Entry D))
          → ((i : Bytes) → count i chain ≤ 1)
          → count j (put_at cmp (length key) d chain (find_pos cmp key chain)) ≤ 1
      count-put_at j chain h = elim (Bytes-discrete j key) [
        | yes e ↦ rw e (count-put_at_self chain (h key))
        | no ne ↦ rw (count-put_at_ne j chain ne) (h j)
      ]

    pub find-remove_at_self :
        (chain : List (Entry D))
        → count key chain ≤ 1
        → find key (remove_at cmp chain (find_pos cmp key chain)) ≡ none
    unfolding find count find_pos remove_at
    find-remove_at_self [] h = refl
    find-remove_at_self (e ∷ chain) h = elim (Bool-cases (is_for cmp key e)) [
      | inl is ↦
          let none_left : count key chain ≤ 0 = ground arith in rw is (absent chain none_left)
      | inr is ↦ rw (is, is) (find-remove_at_self chain (rw is at h))
    ]
      where
        absent : (c : List (Entry D)) → count key c ≤ 0 → find key c ≡ none
        absent [] k = refl
        absent (x ∷ c) k = elim (Bool-cases (is_for cmp key x)) [
          | inl is ↦ absurd (ground arith)
          | inr is ↦ rw is (absent c (rw is at k))
        ]

    pub find-remove_at_ne :
        (j : Bytes) (chain : List (Entry D))
        → j ≢ key
        → find j (remove_at cmp chain (find_pos cmp key chain)) ≡ find j chain
    unfolding find find_pos remove_at
    find-remove_at_ne j [] ne = refl
    find-remove_at_ne j (e ∷ chain) ne = elim (Bool-cases (is_for cmp key e)) [
      | inl h ↦
          let here : e.keylen ≡ length key = ground arith in
          let mine : cmp key e.dat ≡ true = ground arith in
          rw (h, is_for_ne j e.dat e.keylen ne here mine)
      | inr h ↦ rw h (
          ap (λ (o : Option D). if is_for cmp j e then some e.dat else o)
            (find-remove_at_ne j chain ne))
    ]

    pub count-remove_at :
        (j : Bytes) (chain : List (Entry D)) (n : ℕ)
        → count j (remove_at cmp chain n) ≤ count j chain
    unfolding count remove_at
    count-remove_at j [] n = omega arith
    count-remove_at j (e ∷ chain) zero = ground arith
    count-remove_at j (e ∷ chain) (suc n) = ground (arith, count-remove_at j chain n)

-- The comparison that hashcreate installs by default is one.
pub default_cmp-IsComparison : IsComparison default_cmp
default_cmp-IsComparison [] [] d e h k = refl
default_cmp-IsComparison [] (y ∷ j) d e h k = absurd (omega arith)
default_cmp-IsComparison (x ∷ i) [] d e h k = absurd (omega arith)
default_cmp-IsComparison (x ∷ i) (y ∷ j) [] e h k = cc
default_cmp-IsComparison (x ∷ i) (y ∷ j) (z ∷ d) e h k =
    ground (arith, default_cmp-IsComparison i j d)
