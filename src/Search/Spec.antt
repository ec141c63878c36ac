-- ===== src/Search/Spec.antt =====
-- What it means for a text to match instructions of search.cpp, with no order of trials in it.
use trn_actions.Prelude.{
  ℕ, suc, ◌+◌, ◌-◌, ◌≤◌, ◌<◌, ◌≡◌, Bool, true, some, List, [], ◌∷◌, Bytes, get_elem?,
}
use trn_actions.Search.{
  undefined, anchor, Anchor, Outcome, Item, holds, accepts, Alternatives, Op, once, starred, bra,
  ket, back, matched, failed,
}
use trn_actions.Search.Execute.{Found, found, not_found, overrun}

-- The text from a position on against instructions, of which none is a back-reference.
pub data Matches (trt : ℕ → ℕ) (text : Bytes) : ℕ → List Op → Type 0 where
  done : {lp : ℕ} → Matches trt text lp []
  one :
      {lp c : ℕ} {x : Item} {ops : List Op}
      → get_elem? text lp ≡ some c
      → accepts trt x c ≡ true
      → Matches trt text (suc lp) ops
      → Matches trt text lp (once x ∷ ops)
  leave :
      {lp : ℕ} {x : Item} {ops : List Op}
      → Matches trt text lp ops
      → Matches trt text lp (starred x ∷ ops)
  repeat :
      {lp c : ℕ} {x : Item} {ops : List Op}
      → get_elem? text lp ≡ some c
      → accepts trt x c ≡ true
      → Matches trt text (suc lp) (starred x ∷ ops)
      → Matches trt text lp (starred x ∷ ops)
  stand :
      {lp : ℕ} {a : Anchor} {ops : List Op}
      → holds text lp a ≡ true
      → Matches trt text lp ops
      → Matches trt text lp (anchor a ∷ ops)
  enter : {lp n : ℕ} {ops : List Op} → Matches trt text lp ops → Matches trt text lp (bra n ∷ ops)
  quit : {lp n : ℕ} {ops : List Op} → Matches trt text lp ops → Matches trt text lp (ket n ∷ ops)

pub data MatchesAny (trt : ℕ → ℕ) (text : Bytes) (lp : ℕ) : Alternatives → Type 0 where
  this :
      {ops : List Op} {rest : Alternatives}
      → Matches trt text lp ops
      → MatchesAny trt text lp (ops ∷ rest)
  other :
      {ops : List Op} {rest : Alternatives}
      → MatchesAny trt text lp rest
      → MatchesAny trt text lp (ops ∷ rest)

abbrev pub IsReferenceFree : List Op → Type 0
IsReferenceFree [] = Unit
IsReferenceFree (back n ∷ ops) = ⊥
IsReferenceFree (op ∷ ops) = IsReferenceFree ops

-- An answer is right about a property, and leaves s_err as it was.
abbrev pub Decides : Type 0 → Bool → Outcome → Type 0
Decides P err (matched kept) = P
Decides P err (failed kept) = (¬ P) × (kept.err ≡ err)
Decides P err undefined = ⊥

-- The place of the first of the positions p, p + 1, ... with a property, among `size` of them, or
-- the one position p where `size` is 0.
abbrev pub IsFirst : (ℕ → Type 0) → ℕ → ℕ → Found → Type 0
IsFirst P p size (found q marks) =
    (p ≤ q) × (q ≤ p + (size - 1)) × P q × ((r : ℕ) → p ≤ r → r < q → ¬ P r)
IsFirst P p size not_found = (0 < size) × ((r : ℕ) → p ≤ r → r < p + size → ¬ P r)
IsFirst P p size overrun = (size ≡ 0) × (¬ P p)
