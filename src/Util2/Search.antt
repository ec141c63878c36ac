-- ===== src/Util2/Search.antt =====
-- in_string of util2.cpp finds the first occurrence.
use trn_actions.Prelude.{
  ℕ, ◌≤◌, ◌<◌, ◌≡◌, inl, inr, Bool, Option, none, some, [], ◌∷◌, arith, Bytes, ◌==◌, ==_iff,
  Bool-cases, length,
}
use trn_actions.Util2.{Outcome, matched, ran_out, differ, key, compare_at, in_string}

-- `little` is a prefix of the text, as the comparison sees bytes.
abbrev pub BeginsWith : Bool → Bytes → Bytes → Type 0
BeginsWith m [] text = Unit {0}
BeginsWith m (l ∷ little) [] = ⊥
BeginsWith m (l ∷ little) (x ∷ text) = (key m l ≡ key m x) × BeginsWith m little text

-- The first suffix, the empty one left out, that begins with `little`, or none where none does.
pub data FirstMatch (m : Bool) (little : Bytes) : Bytes → Option Bytes → Type 0 where
  ended : FirstMatch m little [] none
  here :
      {c : ℕ} {t : Bytes} → BeginsWith m little (c ∷ t) → FirstMatch m little (c ∷ t) (some (c ∷ t))
  later :
      {c : ℕ} {t : Bytes} {r : Option Bytes}
      → ¬ BeginsWith m little (c ∷ t)
      → FirstMatch m little t r
      → FirstMatch m little (c ∷ t) r

abbrev Means : Bool → Bytes → Bytes → Outcome → Type 0
Means m little text matched = BeginsWith m little text
Means m little text ran_out = length text < length little
Means m little text differ = ¬ BeginsWith m little text

Means-cons :
    (m : Bool) (l x : ℕ) (little text : Bytes) (o : Outcome)
    → key m l ≡ key m x
    → Means m little text o
    → Means m (l ∷ little) (x ∷ text) o
Means-cons m l x little text matched e h = (e, h)
Means-cons m l x little text ran_out e h = omega arith
Means-cons m l x little text differ e h = λ b. h b.1

compare_at-Means : (m : Bool) (text little : Bytes) → Means m little text (compare_at text little m)
unfolding compare_at
compare_at-Means m text [] = tt
compare_at-Means m [] (l ∷ little) = omega arith
compare_at-Means m (x ∷ text) (l ∷ little) = elim (Bool-cases (key m l == key m x)) [
  | inl same ↦
      rw same
        (Means-cons m l x little text _ ((==_iff _ _).0 same) (compare_at-Means m text little))
  | inr other ↦ rw other (λ b. ground arith)
]

length-BeginsWith :
    (m : Bool) (little text : Bytes) → BeginsWith m little text → length little ≤ length text
length-BeginsWith m [] text h = omega arith
length-BeginsWith m (l ∷ little) [] h = absurd h
length-BeginsWith m (l ∷ little) (x ∷ text) h = omega (arith, length-BeginsWith m little text h.1)

too_short-FirstMatch :
    (m : Bool) (little text : Bytes) → length text < length little → FirstMatch m little text none
too_short-FirstMatch m little [] h = ended
too_short-FirstMatch m little (c ∷ text) h =
    later (λ b. omega (arith, length-BeginsWith m little (c ∷ text) b))
      (too_short-FirstMatch m little text (omega arith))

-- The search returns the first non-empty suffix of `big` that begins with `little`, and null
-- exactly when no such suffix does: giving up early where `big` ends loses no match.
pub in_string-FirstMatch :
    (big little : Bytes) (m : Bool) → FirstMatch m little big (in_string big little m)
unfolding in_string
in_string-FirstMatch [] little m = ended
in_string-FirstMatch (t ∷ big) little m =
    step (compare_at (t ∷ big) little m) (compare_at-Means m (t ∷ big) little)
      (in_string-FirstMatch big little m)
  where
    step :
        (o : Outcome)
        → Means m little (t ∷ big) o
        → FirstMatch m little big (in_string big little m)
        → FirstMatch m little
            (t ∷ big)
            (elim o [ matched ↦ some (t ∷ big) | ran_out ↦ none | differ ↦ in_string big little m ])
    step matched h ih = here h
    step ran_out h ih = too_short-FirstMatch m little (t ∷ big) h
    step differ h ih = later h ih
