-- ===== src/Search/Classes.antt =====
-- search.cpp: the bytes that a character class of one range admits.
use trn_actions.Prelude.{
  ℕ, zero, suc, ◌+◌, ◌-◌, ◌%◌, ◌≤◌, ◌<◌, ◌≡◌, refl, sym, ◌∙◌, subst, ◌≢◌, ◌↔◌, ◌⊎◌, inl, inr, Bool,
  true, false, [], ◌∷◌, arith, ◌==◌, if◌then◌else◌, Bool-cases,
}
use trn_actions.StringAlgos.{is_alpha}
use trn_actions.Search.{accepts, Bitmap, cclass, ccl, once}
use trn_actions.Search.Quote.{loop-go}
use trn_actions.Search.Compile.{
  no_bits, other_case, range_bits, add_range, emit, class_byte, plain_or_meta, one_byte,
  compile_loop, start, compiled, at_char, with_bit, item, dash, between, class_begin, in_class,
}

-- j lies in the range, and k is j, or the same letter of the other case where case is folded.
abbrev pub IsFrom : Bool → ℕ → ℕ → Type 0
IsFrom fold j k = (k ≡ j) ⊎ ((fold ≡ true) × (is_alpha j ≡ true) × (k ≡ other_case j))

abbrev pub InRange : Bool → ℕ → ℕ → ℕ → Type 0
InRange fold c n k = (j : ℕ) × (c ≤ j) × (j < c + n) × IsFrom fold j k

with_bit_iff :
    (fold : Bool) (c : ℕ) (bits : Bitmap) (k : ℕ)
    → (with_bit fold c bits k ≡ true) ↔ ((bits k ≡ true) ⊎ IsFrom fold c k)
with_bit_iff fold c bits k = ground arith

range_bits_sound :
    (fold : Bool) (n c : ℕ) (bits : Bitmap) (k : ℕ)
    → range_bits fold c n bits k ≡ true
    → (bits k ≡ true) ⊎ InRange fold c n k
range_bits_sound fold zero c bits k h = inl h
range_bits_sound fold (suc n) c bits k h =
    elim (range_bits_sound fold n (suc c) (with_bit fold c bits) k h) [
      | inl b ↦ elim ((with_bit_iff fold c bits k).0 b) [
        | inl old ↦ inl old
        | inr new ↦ inr (c, omega arith, omega arith, new)
      ]
      | inr (j, le, lt, r) ↦ inr (j, omega (arith, le), omega (arith, lt), r)
    ]

range_bits_complete :
    (fold : Bool) (n c : ℕ) (bits : Bitmap) (k : ℕ)
    → (bits k ≡ true) ⊎ InRange fold c n k
    → range_bits fold c n bits k ≡ true
range_bits_complete fold zero c bits k (inl h) = h
range_bits_complete fold zero c bits k (inr (j, le, lt, r)) = absurd (omega arith)
range_bits_complete fold (suc n) c bits k (inl h) =
    range_bits_complete fold n (suc c) (with_bit fold c bits) k
      (inl ((with_bit_iff fold c bits k).1 (inl h)))
range_bits_complete fold (suc n) c bits k (inr (j, le, lt, r)) = elim (Bool-cases (j == c)) [
  | inl e ↦
      range_bits_complete fold n (suc c) (with_bit fold c bits) k
        (inl ((with_bit_iff fold c bits k).1 (inr (subst (λ i. IsFrom fold i k) (ground arith) r))))
  | inr ne ↦
      range_bits_complete fold n (suc c) (with_bit fold c bits) k
        (inr (j, ground arith, omega (arith, lt), r))
]

cclass_iff :
    (fold : Bool) (c n k : ℕ)
    → ((if range_bits fold c n no_bits k then true else false) ≡ true) ↔ InRange fold c n k
cclass_iff fold c n k = (
  λ h. elim (range_bits_sound fold n c no_bits k (ground (arith, h))) [
    | inl b ↦ ground (arith, b)
    | inr r ↦ r
  ],
  λ r. rw (range_bits_complete fold n c no_bits k (inr r)) refl,
)

-- The pattern `[c-i]` of two ASCII bytes, where c is no caret and i no closing bracket, compiles to
-- one class, which admits just the ASCII bytes from c to i and, where case is folded, the letters
-- among them in the other case.
pub compile_loop-class :
    (trt : ℕ → ℕ) (fold : Bool) (c i : ℕ)
    → c < 128
    → i < 128
    → c ≢ b'^'
    → i ≢ b']'
    → let bits = range_bits fold c (suc i - c) no_bits in
      (compile_loop true fold at_char start (b'[' ∷ c ∷ b'-' ∷ i ∷ b']' ∷ [])
        ≡ compiled ((once (ccl bits) ∷ []) ∷ []) 0)
      × ((k : ℕ) → k < 128 → (accepts trt (ccl bits) k ≡ true) ↔ InRange fold c (suc i - c) k)
unfolding compile_loop one_byte plain_or_meta class_byte add_range emit accepts cclass
compile_loop-class trt fold c i cb ib ne nb =
    let bits = range_bits fold c (suc i - c) no_bits in
    (
      loop-go true fold at_char class_begin b'[' (c ∷ b'-' ∷ i ∷ b']' ∷ []) start start refl
          ∙ loop-go true fold class_begin (in_class false (item c) no_bits) c (b'-' ∷ i ∷ b']' ∷ [])
              start start (ground arith)
          ∙ loop-go true fold (in_class false (item c) no_bits) (in_class false (dash c) no_bits)
              b'-' (i ∷ b']' ∷ []) start start refl
          ∙ loop-go true fold (in_class false (dash c) no_bits) (in_class false between bits) i
              (b']' ∷ []) start start (ground arith),
      λ k kb.
          let same : k % 128 ≡ k = omega (arith, kb) in
          subst (λ j. ((if bits j then true else false) ≡ true) ↔ InRange fold c (suc i - c) k)
            (sym same) (cclass_iff fold c (suc i - c) k),
    )
