-- ===== src/Wildmat/Stars.antt =====
-- Laws of stars in the matching relation, and the run of stars that wildmat.cpp skips.
use trn_actions.Prelude.{
  ℕ, ◌≡◌, refl, sym, ◌∙◌, ◌≢◌, ◌⊎◌, inl, inr, [], ◌∷◌, arith, Bytes, ◌==◌, ==_iff, Bool-cases,
}
use trn_actions.Wildmat.{skip_stars}
use trn_actions.Wildmat.Spec.{Takes, Matches, end, one, leave, take_one}
use trn_actions.Wildmat.Elements.{Behind, Behind-cons}

pub star_inv :
    {x c : ℕ} {t p : Bytes}
    → c ≡ b'*'
    → Matches (x ∷ t) (c ∷ p)
    → Matches (x ∷ t) p ⊎ Matches t (c ∷ p)
star_inv e (one ne tk m) = absurd (ne e)
star_inv e (leave e' m) = inl m
star_inv e (take_one e' m) = inr m

pub star_end_inv : {c : ℕ} {p : Bytes} → Matches [] (c ∷ p) → (c ≡ b'*') × Matches [] p
star_end_inv (leave e m) = (e, m)

pub one_inv :
    {x c : ℕ} {t p : Bytes}
    → c ≢ b'*'
    → Matches (x ∷ t) (c ∷ p)
    → (rest : Bytes) × Takes x c p rest × Matches t rest
one_inv ne (one {rest = rest} _ tk m) = (rest, tk, m)
one_inv ne (leave e m) = absurd (ne e)
one_inv ne (take_one e m) = absurd (ne e)

pub star_matches_all : (c : ℕ) (t : Bytes) → c ≡ b'*' → Matches t (c ∷ [])
star_matches_all c [] e = leave e end
star_matches_all c (x ∷ t) e = take_one e (star_matches_all c t e)

-- Consecutive stars act as one.
pub stars_join :
    (c d : ℕ) (p t : Bytes) → c ≡ b'*' → d ≡ b'*' → Matches t (c ∷ d ∷ p) → Matches t (c ∷ p)
stars_join c d p [] e e' m = leave e (star_end_inv (star_end_inv m).1).1
stars_join c d p (x ∷ t) e e' m = elim (star_inv e m) [
  | inl m' ↦ elim (star_inv e' m') [
    | inl n ↦ leave e n
    | inr n ↦ take_one e (stars_join c d p t e e' (leave e n))
  ]
  | inr m' ↦ take_one e (stars_join c d p t e e' m')
]

pub stars_split :
    (c d : ℕ) (p t : Bytes) → c ≡ b'*' → d ≡ b'*' → Matches t (c ∷ p) → Matches t (c ∷ d ∷ p)
stars_split c d p t e e' m = leave e (rw (e' ∙ sym e) m)

pub skip_stars_sound :
    (c : ℕ) (p t : Bytes) → c ≡ b'*' → Matches t (c ∷ skip_stars p) → Matches t (c ∷ p)
unfolding skip_stars
skip_stars_sound c [] t e m = m
skip_stars_sound c (d ∷ p) t e m = elim (Bool-cases (d == b'*')) [
  | inl s ↦ stars_split c d p t e ((==_iff _ _).0 s) (skip_stars_sound c p t e (rw s at m))
  | inr s ↦ rw s at m
]

pub skip_stars_complete :
    (c : ℕ) (p t : Bytes) → c ≡ b'*' → Matches t (c ∷ p) → Matches t (c ∷ skip_stars p)
unfolding skip_stars
skip_stars_complete c [] t e m = m
skip_stars_complete c (d ∷ p) t e m = elim (Bool-cases (d == b'*')) [
  | inl s ↦ rw s (skip_stars_complete c p t e (stars_join c d p t e ((==_iff _ _).0 s) m))
  | inr s ↦ rw s m
]

pub skip_stars-Behind : (p : Bytes) → Behind p (skip_stars p)
unfolding skip_stars
skip_stars-Behind [] = ([], refl)
skip_stars-Behind (d ∷ p) = elim (Bool-cases (d == b'*')) [
  | inl s ↦ rw s (Behind-cons d p _ (skip_stars-Behind p))
  | inr s ↦ rw s ([], refl)
]

abbrev pub NoStarFirst : Bytes → Type 0
NoStarFirst [] = Unit {0}
NoStarFirst (d ∷ p) = d ≢ b'*'

pub skip_stars-NoStarFirst : (p : Bytes) → NoStarFirst (skip_stars p)
unfolding skip_stars
skip_stars-NoStarFirst [] = tt
skip_stars-NoStarFirst (d ∷ p) = elim (Bool-cases (d == b'*')) [
  | inl s ↦ rw s (skip_stars-NoStarFirst p)
  | inr s ↦ rw s (λ e. ground arith)
]
