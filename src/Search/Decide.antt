-- ===== src/Search/Decide.antt =====
-- search.cpp: advance decides whether the text matches.
use trn_actions.Prelude.{
  ℕ, zero, suc, ◌+◌, ◌≤◌, ◌≡◌, refl, sym, ◌∙◌, subst, inl, inr, Bool, true, false, Option, none,
  some, List, [], ◌∷◌, arith, Bytes, leb, leb→le, Bool-cases, Option-cases, some-eq, get_elem?,
  drop,
}
use trn_actions.Search.{
  Op, Outcome, accepts, holds, undefined, anchor, Anchor, Item, run, Marks, once, starred, bra, ket,
  matched, failed, open_bracket, try_down, advance, close_bracket, back,
}
use trn_actions.Search.Spec.{
  Matches, Decides, one, leave, repeat, stand, enter, quit, IsReferenceFree, done,
}

run-at_end :
    (p : ℕ → Bool) (text : Bytes) (lp : ℕ) → get_elem? text lp ≡ none → run p (drop lp text) ≡ 0
unfolding run
run-at_end p [] zero e = refl
run-at_end p [] (suc lp) e = refl
run-at_end p (c ∷ text) zero e = ground arith
run-at_end p (c ∷ text) (suc lp) e = run-at_end p text lp e

run-pass :
    (p : ℕ → Bool) (text : Bytes) (lp c : ℕ)
    → get_elem? text lp ≡ some c
    → p c ≡ true
    → run p (drop lp text) ≡ suc (run p (drop (suc lp) text))
unfolding run
run-pass p [] lp c e a = ground arith
run-pass p (d ∷ text) zero c e a = rw (some-eq e, a) refl
run-pass p (d ∷ text) (suc lp) c e a = run-pass p text lp c e a

run-stop :
    (p : ℕ → Bool) (text : Bytes) (lp c : ℕ)
    → get_elem? text lp ≡ some c
    → p c ≡ false
    → run p (drop lp text) ≡ 0
unfolding run
run-stop p [] lp c e a = ground arith
run-stop p (d ∷ text) zero c e a = rw (some-eq e, a) refl
run-stop p (d ∷ text) (suc lp) c e a = run-stop p text lp c e a

pub Decides-map :
    {P Q : Type 0} {d e : Bool} (o : Outcome)
    → (P → Q)
    → (Q → P)
    → d ≡ e
    → Decides P d o
    → Decides Q e o
Decides-map (matched kept) f g e h = f h
Decides-map (failed kept) f g e h = (λ q. h.0 (g q), h.1 ∙ e)
Decides-map undefined f g e h = h

module _ (trt : ℕ → ℕ) (text : Bytes) where
  one_inv :
      {lp : ℕ} {x : Item} {ops : List Op}
      → Matches trt text lp (once x ∷ ops)
      → (c : ℕ) × (get_elem? text lp ≡ some c)
        × (accepts trt x c ≡ true)
        × Matches trt text (suc lp) ops
  one_inv (one e a m) = (_, e, a, m)

  stand_inv :
      {lp : ℕ} {a : Anchor} {ops : List Op}
      → Matches trt text lp (anchor a ∷ ops)
      → (holds text lp a ≡ true) × Matches trt text lp ops
  stand_inv (stand e m) = (e, m)

  enter_inv :
      {lp n : ℕ} {ops : List Op} → Matches trt text lp (bra n ∷ ops) → Matches trt text lp ops
  enter_inv (enter m) = m

  quit_inv :
      {lp n : ℕ} {ops : List Op} → Matches trt text lp (ket n ∷ ops) → Matches trt text lp ops
  quit_inv (quit m) = m

  -- Matching behind at most n bytes.
  abbrev Within : List Op → ℕ → ℕ → Type 0
  Within ops lp n = (k : ℕ) × (k ≤ n) × Matches trt text (lp + k) ops

  abbrev longest : Item → ℕ → ℕ
  longest x lp = run (accepts trt x) (drop lp text)

  Within-run :
      {lp : ℕ} {x : Item} {ops : List Op}
      → Matches trt text lp (starred x ∷ ops)
      → Within ops lp (longest x lp)
  Within-run {lp} {x} {ops} (leave m) =
      (0, omega arith, subst (λ k. Matches trt text k ops) (omega arith) m)
  Within-run {lp} {x} {ops} (repeat {c = c} e a m) =
      let (k, le, r) = Within-run m in
      (
        suc k,
        omega (arith, le, run-pass (accepts trt x) text lp c e a),
        subst (λ j. Matches trt text j ops) (omega arith) r,
      )

  Matches-starred :
      (x : Item) (ops : List Op) (k lp : ℕ)
      → k ≤ longest x lp
      → Matches trt text (lp + k) ops
      → Matches trt text lp (starred x ∷ ops)
  Matches-starred x ops zero lp le m = leave (subst (λ j. Matches trt text j ops) (omega arith) m)
  Matches-starred x ops (suc k) lp le m = elim (Option-cases (get_elem? text lp)) [
    | inl e ↦ absurd (omega (arith, le, run-at_end (accepts trt x) text lp e))
    | inr (c, e) ↦ elim (Bool-cases (accepts trt x c)) [
      | inl a ↦ repeat e a (
          Matches-starred x ops k (suc lp)
            (omega (arith, le, run-pass (accepts trt x) text lp c e a))
            (subst (λ j. Matches trt text j ops) (omega arith) m))
      | inr a ↦ absurd (omega (arith, le, run-stop (accepts trt x) text lp c e a))
    ]
  ]

  Within-lower :
      (ops : List Op) (lp n : ℕ)
      → ¬ Matches trt text (lp + suc n) ops
      → Within ops lp (suc n)
      → Within ops lp n
  Within-lower ops lp n h (k, le, m) = elim (Bool-cases (leb k n)) [
    | inl low ↦ (k, leb→le k n low, m)
    | inr high ↦ absurd (h (subst (λ j. Matches trt text (lp + j) ops) (ground arith) m))
  ]

  tried_down :
      (next : ℕ → Marks → Outcome) (ops : List Op) (lp n : ℕ) (err : Bool) (o : Outcome)
      → Decides (Matches trt text (lp + suc n) ops) err o
      → ((m : Marks) → Decides (Within ops lp n) m.err (try_down next lp n m))
      → Decides (Within ops lp (suc n)) err (elim o [
        | failed kept ↦ try_down next lp n kept
        | matched marks ↦ matched marks
        | undefined ↦ undefined
      ])
  tried_down next ops lp n err (matched marks) r h = (suc n, omega arith, r)
  tried_down next ops lp n err (failed kept) r h =
      Decides-map (try_down next lp n kept) (λ w. (w.0, omega (arith, w.1), w.2))
        (Within-lower ops lp n r.0) r.1 (h kept)
  tried_down next ops lp n err undefined r h = r

  try_down-Decides :
      (next : ℕ → Marks → Outcome) (ops : List Op) (lp : ℕ)
      → ((q : ℕ) (m : Marks) → Decides (Matches trt text q ops) m.err (next q m))
      → (n : ℕ) (m : Marks) → Decides (Within ops lp n) m.err (try_down next lp n m)
  unfolding try_down
  try_down-Decides next ops lp h zero m =
      Decides-map (next lp m)
        (λ r. (0, omega arith, subst (λ j. Matches trt text j ops) (omega arith) r))
        (λ w. subst (λ j. Matches trt text j ops) (omega (arith, w.1)) w.2) refl (h lp m)
  try_down-Decides next ops lp h (suc n) m =
      tried_down next ops lp n m.err (next (lp + suc n) m) (h (lp + suc n) m)
        (try_down-Decides next ops lp h n)

  advanced_once :
      (x : Item) (ops : List Op) (lp : ℕ) (m : Marks) (o : Option ℕ)
      → get_elem? text lp ≡ o
      → Decides (Matches trt text (suc lp) ops) m.err (advance trt text ops (suc lp) m)
      → Decides (Matches trt text lp (once x ∷ ops)) m.err (elim o [
        | none ↦ failed m
        | some c ↦ elim (accepts trt x c) [
          | true ↦ advance trt text ops (suc lp) m
          | false ↦ failed m
        ]
      ])
  advanced_once x ops lp m none e h =
      (λ r. let (c, at, a, k) = one_inv r in ground (arith, e, at), refl)
  advanced_once x ops lp m (some c) e h = elim (Bool-cases (accepts trt x c)) [
    | inl a ↦
        rw a (Decides-map (advance trt text ops (suc lp) m) (one e a) (λ r. (one_inv r).3) refl h)
    | inr a ↦
        rw a
          (λ r. let (d, at, b, k) = one_inv r in ground (arith, some-eq (sym e ∙ at), a, b), refl)
  ]

  advanced_anchor :
      (a : Anchor) (ops : List Op) (lp : ℕ) (m : Marks) (b : Bool)
      → holds text lp a ≡ b
      → Decides (Matches trt text lp ops) m.err (advance trt text ops lp m)
      → Decides
          (Matches trt text lp (anchor a ∷ ops))
          m.err
          (elim b [ true ↦ advance trt text ops lp m | false ↦ failed m ])
  advanced_anchor a ops lp m true e h =
      Decides-map (advance trt text ops lp m) (stand e) (λ r. (stand_inv r).1) refl h
  advanced_anchor a ops lp m false e h = (λ r. ground (arith, e, (stand_inv r).0), refl)

  -- Without back-references, advance answers whether the text matches from the position on.
  pub advance-Decides :
      (ops : List Op) (lp : ℕ) (m : Marks)
      → IsReferenceFree ops
      → Decides (Matches trt text lp ops) m.err (advance trt text ops lp m)
  unfolding advance
  advance-Decides [] lp m h = done
  advance-Decides (once x ∷ ops) lp m h =
      advanced_once x ops lp m (get_elem? text lp) refl (advance-Decides ops (suc lp) m h)
  advance-Decides (starred x ∷ ops) lp m h =
      Decides-map (advance trt text (starred x ∷ ops) lp m)
        (λ w. Matches-starred x ops w.0 lp w.1 w.2) Within-run refl
        (try_down-Decides (advance trt text ops) ops lp (λ q n. advance-Decides ops q n h)
          (longest x lp) m)
  advance-Decides (anchor a ∷ ops) lp m h =
      advanced_anchor a ops lp m (holds text lp a) refl (advance-Decides ops lp m h)
  advance-Decides (bra n ∷ ops) lp m h =
      Decides-map (advance trt text ops lp (open_bracket n lp m)) enter enter_inv refl
        (advance-Decides ops lp (open_bracket n lp m) h)
  advance-Decides (ket n ∷ ops) lp m h =
      Decides-map (advance trt text ops lp (close_bracket n lp m)) quit quit_inv refl
        (advance-Decides ops lp (close_bracket n lp m) h)
  advance-Decides (back n ∷ ops) lp m h = absurd h
