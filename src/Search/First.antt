-- ===== src/Search/First.antt =====
-- search.cpp: execute finds the first position where an alternative matches.
use trn_actions.Prelude.{
  ℕ, zero, suc, ◌+◌, ◌≤◌, ◌<◌, ◌≡◌, refl, sym, ap, subst, ◌⊎◌, inl, inr, Bool, true, false, none,
  some, List, [], ◌∷◌, arith, Bytes, leb, ◌==◌, Bool-cases, some-eq, length, get_elem?, get_or, All,
}
use trn_actions.Search.{
  advance, Alternatives, chr, Op, undefined, Outcome, accepts, Marks, once, matched, failed, anchor,
  dot, word, nword, ccl, nccl, starred, bra, ket, back, case_fold, nbra_limit, Fold,
}
use trn_actions.Search.Spec.{
  Matches, MatchesAny, IsReferenceFree, Decides, one, this, other, IsFirst,
}
use trn_actions.Search.Execute.{
  try_alternatives, try_first, by_first, position_loop, literal, try_from, found, overrun, Compex,
  Found, no_marks, execute, not_found, while_more,
}
use trn_actions.Search.Decide.{advance-Decides, Decides-map}

module _ (trt : ℕ → ℕ) (text : Bytes) where
  this_or_other :
      {lp : ℕ} {ops : List Op} {rest : Alternatives}
      → ¬ Matches trt text lp ops
      → MatchesAny trt text lp (ops ∷ rest)
      → MatchesAny trt text lp rest
  this_or_other h (this m) = absurd (h m)
  this_or_other h (other m) = m

  nothing_matches : {lp : ℕ} → ¬ MatchesAny trt text lp []
  nothing_matches m = elim m [ ]

  tried :
      (ops : List Op) (rest : Alternatives) (lp : ℕ) (err : Bool) (o : Outcome)
      → Decides (Matches trt text lp ops) err o
      → ((m : Marks)
          → Decides (MatchesAny trt text lp rest) m.err (try_alternatives trt text rest lp m))
      → Decides (MatchesAny trt text lp (ops ∷ rest)) err (elim o [
        | failed kept ↦ try_alternatives trt text rest lp kept
        | matched marks ↦ matched marks
        | undefined ↦ undefined
      ])
  tried ops rest lp err (matched marks) r h = this r
  tried ops rest lp err (failed kept) r h =
      Decides-map (try_alternatives trt text rest lp kept) other (this_or_other r.0) r.1 (h kept)
  tried ops rest lp err undefined r h = r

  try_alternatives-Decides :
      (alternatives : Alternatives) (lp : ℕ)
      → All IsReferenceFree alternatives
      → (m : Marks)
      → Decides
          (MatchesAny trt text lp alternatives)
          m.err
          (try_alternatives trt text alternatives lp m)
  unfolding try_alternatives
  try_alternatives-Decides [] lp h m = (nothing_matches, refl)
  try_alternatives-Decides (ops ∷ rest) lp h m =
      tried ops rest lp m.err (advance trt text ops lp m) (advance-Decides trt text ops lp m h.0)
        (try_alternatives-Decides rest lp h.1)

  get_or-some : (s : Bytes) (lp c : ℕ) → get_elem? s lp ≡ some c → get_or s lp 0 ≡ c
  get_or-some [] lp c e = ground arith
  get_or-some (d ∷ s) zero c e = some-eq e
  get_or-some (d ∷ s) (suc lp) c e = get_or-some s lp c e

  -- A first byte that differs is no match.
  first_differs :
      (d : ℕ) (ops : List Op) (lp : ℕ)
      → (trt (get_or text lp 0) == trt d) ≡ false
      → ¬ MatchesAny trt text lp ((once (chr d) ∷ ops) ∷ [])
  unfolding accepts
  first_differs d ops lp e (this (one at a m)) =
      ground (arith, e, a, ap trt (get_or-some text lp _ at))
  first_differs d ops lp e (other m) = elim m [ ]

  pub only : {lp : ℕ} {ops : List Op} → MatchesAny trt text lp (ops ∷ []) → Matches trt text lp ops
  only (this m) = m
  only (other m) = elim m [ ]

  try_first-Decides :
      (d : ℕ) (ops : List Op) (lp : ℕ)
      → IsReferenceFree ops
      → (m : Marks)
      → Decides
          (MatchesAny trt text lp ((once (chr d) ∷ ops) ∷ []))
          m.err
          (try_first trt text d (once (chr d) ∷ ops) lp m)
  unfolding try_first
  try_first-Decides d ops lp h m = elim (Bool-cases (trt (get_or text lp 0) == trt d)) [
    | inl e ↦ rw e (
        Decides-map (advance trt text (once (chr d) ∷ ops) lp m) this only refl
          (advance-Decides trt text (once (chr d) ∷ ops) lp m h))
    | inr e ↦ rw e (first_differs d ops lp e, refl)
  ]

  literal-cases :
      (ops : List Op)
      → (literal ops ≡ none) ⊎ ((d : ℕ) × (rest : List Op) × (ops ≡ once (chr d) ∷ rest))
  literal-cases [] = inl refl
  literal-cases (once (chr d) ∷ ops) = inr (d, ops, refl)
  literal-cases (once dot ∷ ops) = inl refl
  literal-cases (once word ∷ ops) = inl refl
  literal-cases (once nword ∷ ops) = inl refl
  literal-cases (once (ccl bits) ∷ ops) = inl refl
  literal-cases (once (nccl bits) ∷ ops) = inl refl
  literal-cases (starred x ∷ ops) = inl refl
  literal-cases (anchor a ∷ ops) = inl refl
  literal-cases (bra n ∷ ops) = inl refl
  literal-cases (ket n ∷ ops) = inl refl
  literal-cases (back n ∷ ops) = inl refl

  by_first-Decides :
      (alternatives : Alternatives)
      → All IsReferenceFree alternatives
      → (lp : ℕ) (m : Marks)
      → Decides (MatchesAny trt text lp alternatives) m.err (by_first trt text alternatives lp m)
  unfolding by_first
  by_first-Decides [] h lp m = try_alternatives-Decides [] lp h m
  by_first-Decides (ops ∷ b ∷ rest) h lp m = try_alternatives-Decides (ops ∷ b ∷ rest) lp h m
  by_first-Decides (ops ∷ []) h lp m = elim (literal-cases ops) [
    | inl e ↦ rw e (try_alternatives-Decides (ops ∷ []) lp h m)
    | inr (d, rest, e) ↦
        subst
          (λ x.
            Decides (MatchesAny trt text lp (x ∷ [])) m.err (try_from trt text (literal x) x lp m))
          (sym e) (try_first-Decides d rest lp (subst IsReferenceFree e h.0) m)
  ]

-- The loop over positions, for a test that decides a property at each.
module _ (P : ℕ → Type 0) (try : ℕ → Marks → Outcome) where
  not_from :
      (p q : ℕ) → ¬ P p → ((r : ℕ) → suc p ≤ r → r < q → ¬ P r) → (r : ℕ) → p ≤ r → r < q → ¬ P r
  not_from p q h later r le lt = elim (Bool-cases (r == p)) [
    | inl e ↦ subst (λ j. ¬ P j) (ground arith) h
    | inr ne ↦ later r (ground arith) lt
  ]

  IsFirst-behind :
      (p size : ℕ) (f : Found)
      → ¬ P p
      → 0 < size
      → IsFirst P (suc p) size f
      → IsFirst P p (suc size) f
  IsFirst-behind p size (found q marks) h pos i =
      (omega (arith, i.0), omega (arith, i.1), i.2, not_from p q h i.3)
  IsFirst-behind p size not_found h pos i =
      (omega arith, λ r le lt. not_from p (suc p + size) h i.1 r le (omega arith))
  IsFirst-behind p size overrun h pos i = absurd (omega (arith, i.0))

  one_failed :
      (p : ℕ) (rest : Bytes) (kept : Marks)
      → ¬ P p
      → IsFirst P (suc p) (length rest) (position_loop try (suc p) rest kept)
      → IsFirst P p (suc (length rest)) (while_more rest (position_loop try (suc p) rest kept))
  one_failed p [] kept h i = (omega arith, λ r le lt. subst (λ j. ¬ P j) (omega arith) h)
  one_failed p (d ∷ behind) kept h i =
      IsFirst-behind p (length (d ∷ behind)) (position_loop try (suc p) (d ∷ behind) kept) h
        (omega arith) i

  at_byte :
      (p : ℕ) (rest : Bytes) (o : Outcome)
      → Decides (P p) false o
      → ((m : Marks)
          → m.err ≡ false
          → IsFirst P (suc p) (length rest) (position_loop try (suc p) rest m))
      → IsFirst P p (suc (length rest)) (elim o [
        | matched marks ↦ found p marks
        | failed kept ↦ elim kept.err [
          | true ↦ not_found
          | false ↦ while_more rest (position_loop try (suc p) rest kept)
        ]
        | undefined ↦ overrun
      ])
  at_byte p rest (matched marks) r h =
      (omega arith, omega arith, r, λ q le lt. absurd (omega arith))
  at_byte p rest (failed kept) r h = rw r.1 (one_failed p rest kept r.0 (h kept r.1))
  at_byte p rest undefined r h = absurd r

  at_terminator :
      (p : ℕ) (o : Outcome)
      → Decides (P p) false o
      → IsFirst P p 0
          (elim o [ matched marks ↦ found p marks | failed kept ↦ overrun | undefined ↦ overrun ])
  at_terminator p (matched marks) r = (omega arith, omega arith, r, λ q le lt. absurd (omega arith))
  at_terminator p (failed kept) r = (refl, r.0)
  at_terminator p undefined r = absurd r

  position_loop-IsFirst :
      ((p : ℕ) (m : Marks) → Decides (P p) m.err (try p m))
      → (rest : Bytes) (p : ℕ) (m : Marks) → m.err ≡ false
      → IsFirst P p (length rest) (position_loop try p rest m)
  unfolding position_loop
  position_loop-IsFirst h [] p m e =
      at_terminator p (try p m) (subst (λ b. Decides (P p) b (try p m)) e (h p m))
  position_loop-IsFirst h (c ∷ rest) p m e =
      at_byte p rest (try p m) (subst (λ b. Decides (P p) b (try p m)) e (h p m))
        (position_loop-IsFirst h rest (suc p))

-- The answer of execute for an expression without back-references and with fewer than ten pairs of
-- brackets, where no error is left from before: the first position, among those before the end of
-- the text, where one of the alternatives matches; none, where there is no such position; and a
-- read past the terminator just where the text is empty and no alternative matches it.
pub execute-IsFirst :
    (f : Fold) (x : Compex) (text : Bytes)
    → All IsReferenceFree x.alternatives
    → x.nbra < nbra_limit
    → IsFirst
        (λ p. MatchesAny (case_fold x.do_folding f).trans text p x.alternatives)
        0
        (length text)
        (execute f x text false)
unfolding execute
execute-IsFirst f x text free few =
    let trt = (case_fold x.do_folding f).trans in
    let enough : leb nbra_limit x.nbra ≡ false = ground (arith, few) in
    rw enough (
      position_loop-IsFirst (λ p. MatchesAny trt text p x.alternatives)
        (by_first trt text x.alternatives) (by_first-Decides trt text x.alternatives free) text 0
        (no_marks false) refl)
