-- ===== src/Wildmat/Decide.antt =====
-- wildmat of wildmat.cpp decides the matching relation.
use trn_actions.Prelude.{
  ℕ, zero, suc, ◌≤◌, ◌≡◌, refl, sym, ◌∙◌, subst, ◌≢◌, inl, inr, true, false, [], ◌∷◌, ◌++◌, arith,
  Bytes, ◌==◌, ==_iff, Bool-cases, length, length-append,
}
use trn_actions.Wildmat.{
  overruns, out_of_fuel, skip_stars, Element, or_else, wildmat, do_match, star, Verdict, star_loop,
  overrun, element, answer, consumes, refuses,
}
use trn_actions.Wildmat.Spec.{Matches, HasOpenClass, end, one, leave, take_one, found, after}
use trn_actions.Wildmat.Elements.{
  Behind, element-Behind, element-Takes, Takes-element, element-overruns,
}
use trn_actions.Wildmat.Stars.{
  star_inv, star_end_inv, one_inv, star_matches_all, skip_stars_sound, skip_stars_complete,
  skip_stars-Behind, NoStarFirst, skip_stars-NoStarFirst,
}

-- A verdict answers the question `G`, or reports an open class in the pattern.
abbrev pub Decides : Bytes → Type 0 → Verdict → Type 0
Decides p G (answer true) = G
Decides p G (answer false) = ¬ G
Decides p G overrun = HasOpenClass p
Decides p G out_of_fuel = ⊥

Decides-map :
    {G H : Type 0} (p q : Bytes) (v : Verdict)
    → (G → H)
    → (H → G)
    → (HasOpenClass p → HasOpenClass q)
    → Decides p G v
    → Decides q H v
Decides-map p q (answer true) to from open_ d = to d
Decides-map p q (answer false) to from open_ d = λ h. d (from h)
Decides-map p q overrun to from open_ d = open_ d
Decides-map p q out_of_fuel to from open_ d = d

HasOpenClass-append : (run p : Bytes) → HasOpenClass p → HasOpenClass (run ++ p)
HasOpenClass-append [] p h = h
HasOpenClass-append (c ∷ run) p h = after (HasOpenClass-append run p h)

HasOpenClass-Behind : (p rest : Bytes) → Behind p rest → HasOpenClass rest → HasOpenClass p
HasOpenClass-Behind p rest (run, e) h = rw e (HasOpenClass-append run rest h)

length-Behind : (p rest : Bytes) → Behind p rest → length rest ≤ length p
length-Behind p rest (run, e) = rw (e, length-append run rest) (omega arith)

star_loop-Decides :
    (c d : ℕ) (q : Bytes) (match : Bytes → Verdict)
    → c ≡ b'*'
    → d ≢ b'*'
    → ((t : Bytes) → Decides (d ∷ q) (Matches t (d ∷ q)) (match t))
    → (text : Bytes) → Decides (d ∷ q) (Matches text (c ∷ d ∷ q)) (star_loop match text)
unfolding star_loop
star_loop-Decides c d q match e ne ih [] = λ m. ne (star_end_inv (star_end_inv m).1).0
star_loop-Decides c d q match e ne ih (x ∷ text) =
    step (match (x ∷ text)) (ih (x ∷ text)) (star_loop match text)
      (star_loop-Decides c d q match e ne ih text)
  where
    step :
        (v : Verdict)
        → Decides (d ∷ q) (Matches (x ∷ text) (d ∷ q)) v
        → (w : Verdict) → Decides (d ∷ q) (Matches text (c ∷ d ∷ q)) w
        → Decides (d ∷ q) (Matches (x ∷ text) (c ∷ d ∷ q)) (or_else v w)
    step (answer true) h w k = leave e h
    step (answer false) h w k =
        Decides-map (d ∷ q) (d ∷ q) w (take_one e)
          (λ m. elim (star_inv e m) [ inl m' ↦ absurd (h m') | inr m' ↦ m' ]) (λ o. o) k
    step overrun h w k = h
    step out_of_fuel h w k = absurd h

star-Decides :
    (c : ℕ) (q : Bytes) (match : Bytes → Bytes → Verdict)
    → c ≡ b'*'
    → NoStarFirst q
    → ((t : Bytes) → Decides q (Matches t q) (match t q))
    → (text : Bytes) → Decides q (Matches text (c ∷ q)) (star match text q)
unfolding star
star-Decides c [] match e ne ih text = star_matches_all c text e
star-Decides c (d ∷ q) match e ne ih text =
    star_loop-Decides c d q (λ t. match t (d ∷ q)) e ne ih text

-- A star with the stars behind it skipped.
skipped-Decides :
    (c : ℕ) (p : Bytes) (match : Bytes → Bytes → Verdict)
    → c ≡ b'*'
    → ((t q : Bytes) → length q ≤ length p → Decides q (Matches t q) (match t q))
    → (text : Bytes) → Decides (c ∷ p) (Matches text (c ∷ p)) (star match text (skip_stars p))
skipped-Decides c p match e ih text =
    let behind = skip_stars-Behind p in
    let q = skip_stars p in
    Decides-map q (c ∷ p) (star match text q) (skip_stars_sound c p text e)
      (skip_stars_complete c p text e) (λ o. after (HasOpenClass-Behind p q behind o))
      (star-Decides c q match e (skip_stars-NoStarFirst p) (λ t. ih t q (length-Behind p q behind))
        text)

abbrev after_element : (Bytes → Verdict) → Element → Verdict
after_element match e = elim e [
  | consumes rest ↦ match rest
  | refuses ↦ answer false
  | overruns ↦ overrun
]

element-Decides :
    (x c : ℕ) (t p : Bytes) (match : Bytes → Verdict)
    → c ≢ b'*'
    → ((rest : Bytes) → length rest ≤ length p → Decides rest (Matches t rest) (match rest))
    → Decides (c ∷ p) (Matches (x ∷ t) (c ∷ p)) (after_element match (element x c p))
element-Decides x c t p match ne ih = step (element x c p) refl
  where
    takes :
        (rest : Bytes) → Matches (x ∷ t) (c ∷ p) → element x c p ≡ consumes rest → Matches t rest
    takes rest m eq =
        let (r, tk, m') = one_inv ne m in
        let same : r ≡ rest = cc (Takes-element tk) in subst (Matches t) same m'

    step :
        (el : Element)
        → element x c p ≡ el
        → Decides (c ∷ p) (Matches (x ∷ t) (c ∷ p)) (after_element match el)
    step (consumes rest) eq =
        let behind : Behind p rest = rw eq at (element-Behind x c p) in
        Decides-map rest (c ∷ p) (match rest) (one ne (element-Takes x c p rest eq))
          (λ m. takes rest m eq) (λ o. after (HasOpenClass-Behind p rest behind o))
          (ih rest (length-Behind p rest behind))
    step refuses eq = λ m.
        let (r, tk, m') = one_inv ne m in
        let same : refuses ≡ consumes r = sym eq ∙ Takes-element tk in cc
    step overruns eq = let (open_, over) = element-overruns x c p eq in found x open_ over

do_match-Decides :
    (f : ℕ) (text p : Bytes) → length p ≤ f → Decides p (Matches text p) (do_match f text p)
unfolding do_match
do_match-Decides f [] [] h = end
do_match-Decides f (x ∷ text) [] h = λ m. elim m [ ]
do_match-Decides zero text (c ∷ p) h = absurd (omega arith)
do_match-Decides (suc f) [] (c ∷ p) h = elim (Bool-cases (c == b'*')) [
  | inl s ↦ rw s (
      skipped-Decides c p (do_match f) ((==_iff _ _).0 s)
        (λ t q k. do_match-Decides f t q (omega arith)) [])
  | inr s ↦ rw s (λ m. ground (arith, (star_end_inv m).0))
]
do_match-Decides (suc f) (x ∷ text) (c ∷ p) h = elim (Bool-cases (c == b'*')) [
  | inl s ↦
      rw (s, do_match)
        (skipped-Decides c p (do_match f) ((==_iff _ _).0 s)
          (λ t q k. do_match-Decides f t q (omega arith)) (x ∷ text))
  | inr s ↦
      rw (s, do_match)
        (element-Decides x c text p (do_match f text) (λ e. ground arith)
          (λ rest k. do_match-Decides f text rest (omega arith)))
]

-- On every text and pattern the matcher stops within its fuel. If it answers, the answer is true
-- exactly when the text matches the pattern; it reads past the pattern's end only if a class
-- somewhere in the pattern is left open.
pub wildmat-Decides : (text p : Bytes) → Decides p (Matches text p) (wildmat text p)
unfolding wildmat
wildmat-Decides text [] = do_match-Decides 0 text [] (omega arith)
wildmat-Decides text (c ∷ []) = elim (Bool-cases (c == b'*')) [
  | inl s ↦ rw s (star_matches_all c text ((==_iff _ _).0 s))
  | inr s ↦ rw s (do_match-Decides 1 text (c ∷ []) (omega arith))
]
wildmat-Decides text (c ∷ d ∷ p) =
    do_match-Decides (length (c ∷ d ∷ p)) text (c ∷ d ∷ p) (omega arith)
