-- ===== src/Wildmat/Spec.antt =====
-- What it means for a text to match a pattern of wildmat.cpp, with no search order in it.
use trn_actions.Prelude.{ℕ, ◌≡◌, ◌≢◌, [], ◌∷◌, Bytes}
use trn_actions.Wildmat.{backslash, class_element, consumes, overruns}

-- One byte of text against the pattern's first element, a byte `c` with the bytes `p` behind it;
-- `rest` is the pattern after the element.
pub data Takes (x : ℕ) : ℕ → Bytes → Bytes → Type 0 where
  quoted : {c y : ℕ} {p rest : Bytes} → c ≡ backslash → y ≡ x → p ≡ rest → Takes x c (y ∷ p) rest
  any : {c : ℕ} {p rest : Bytes} → c ≡ b'?' → p ≡ rest → Takes x c p rest
  class : {c : ℕ} {p rest : Bytes} → c ≡ b'[' → class_element x p ≡ consumes rest → Takes x c p rest
  literal :
      {c : ℕ} {p rest : Bytes}
      → c ≢ backslash
      → c ≢ b'?'
      → c ≢ b'['
      → c ≡ x
      → p ≡ rest
      → Takes x c p rest

pub data Matches : Bytes → Bytes → Type 0 where
  end : Matches [] []
  one :
      {x c : ℕ} {t p rest : Bytes}
      → c ≢ b'*'
      → Takes x c p rest
      → Matches t rest
      → Matches (x ∷ t) (c ∷ p)
  leave : {c : ℕ} {t p : Bytes} → c ≡ b'*' → Matches t p → Matches t (c ∷ p)
  take_one : {x c : ℕ} {t p : Bytes} → c ≡ b'*' → Matches t (c ∷ p) → Matches (x ∷ t) (c ∷ p)

-- Somewhere in the pattern a class begins that the scan for some byte runs past the end of.
pub data HasOpenClass : Bytes → Type 0 where
  found :
      {c : ℕ} {p : Bytes} (x : ℕ) → c ≡ b'[' → class_element x p ≡ overruns → HasOpenClass (c ∷ p)
  after : {c : ℕ} {p : Bytes} → HasOpenClass p → HasOpenClass (c ∷ p)
