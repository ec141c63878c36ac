-- ===== src/Search/Plain.antt =====
-- search.cpp: a search string that is no regular expression, and the folding of case.
use trn_actions.Search.First.{only, execute-IsFirst}
use mathlib.Core.Path.{fun_ext}
use mathlib.Core.List.{reverse-cons}
use trn_actions.Prelude.{
  ℕ, zero, suc, ◌≡◌, refl, sym, ap, ◌∙◌, subst, ◌↔◌, inl, inr, Bool, true, false, not, none, some,
  List, [], ◌∷◌, ◌++◌, map, reverse, append-nil, append_assoc, arith, Bytes, Option-cases, some-eq,
  length, get_elem?, drop, has_prefix,
}
use trn_actions.Util2.{key}
use trn_actions.Search.{case_fold, Op, chr, Fold, once, accepts}
use trn_actions.Search.Compile.{
  Building, emit, plain_or_meta, one_byte, compile_loop, compiled, at_char, start, Contents,
  answered, compile, written, says,
}
use trn_actions.Search.Execute.{Compex, Found, execute, found, not_found, overrun}
use trn_actions.Search.Spec.{Matches, done, one, MatchesAny, IsReferenceFree, IsFirst, this}

-- The table says what its flag says.
abbrev pub IsConsistent : Fold → Type 0
IsConsistent f = (c : ℕ) → f.trans c ≡ key (not f.folding) c

-- Whatever the flag is set to, case_fold leaves a consistent table consistent, and its flag is
-- the one asked for.
pub case_fold-IsConsistent :
    (which : Bool) (f : Fold)
    → IsConsistent f
    → IsConsistent (case_fold which f) × ((case_fold which f).folding ≡ which)
unfolding case_fold
case_fold-IsConsistent which f h = (λ c. ground (arith, h c), ground arith)

abbrev pub literals : Bytes → List Op
literals = map (λ c. once (chr c))

-- What compile leaves of a string.
abbrev pub plain : Bytes → Bool → Compex
plain strp fold = record { alternatives = literals strp ∷ []; nbra = 0; do_folding = fold }

compile_loop-plain :
    (fold : Bool) (s : Bytes) (b : Building)
    → b.before ≡ []
    → b.stack ≡ []
    → compile_loop false fold at_char b s ≡ compiled ((reverse b.current ++ literals s) ∷ []) b.nbra
unfolding compile_loop one_byte plain_or_meta emit
compile_loop-plain fold [] b e k =
    rw (k, e) (ap (λ ops. compiled (ops ∷ []) b.nbra) (sym (append-nil (reverse b.current))))
compile_loop-plain fold (c ∷ s) b e k =
    compile_loop-plain fold s (emit (once (chr c)) true b) e k
    ∙ ap (λ ops. compiled (ops ∷ []) b.nbra)
        (ap (λ ops. ops ++ literals s) (reverse-cons (once (chr c)) b.current)
          ∙ append_assoc (reverse b.current) (once (chr c) ∷ []) (literals s))

-- The string stands in the text from p on, up to the table.
abbrev pub StandsAt : (ℕ → ℕ) → Bytes → Bytes → ℕ → Type 0
StandsAt trt strp text p = has_prefix (map trt strp) (map trt (drop p text)) ≡ true

drop-at : (s : Bytes) (p c : ℕ) → get_elem? s p ≡ some c → drop p s ≡ c ∷ drop (suc p) s
drop-at [] p c e = ground arith
drop-at (d ∷ s) zero c e = ap (λ x. x ∷ s) (some-eq e)
drop-at (d ∷ s) (suc p) c e = drop-at s p c e

drop-end : (s : Bytes) (p : ℕ) → get_elem? s p ≡ none → drop p s ≡ []
drop-end [] zero e = refl
drop-end [] (suc p) e = refl
drop-end (d ∷ s) zero e = ground arith
drop-end (d ∷ s) (suc p) e = drop-end s p e

module _ (trt : ℕ → ℕ) (text : Bytes) where
  StandsAt-Matches : (s : Bytes) (p : ℕ) → Matches trt text p (literals s) → StandsAt trt s text p
  unfolding accepts
  StandsAt-Matches [] p m = refl
  StandsAt-Matches (d ∷ s) p (one at a m) =
      rw (drop-at text p _ at) (ground (arith, a, StandsAt-Matches s (suc p) m))

  Matches-StandsAt : (s : Bytes) (p : ℕ) → StandsAt trt s text p → Matches trt text p (literals s)
  unfolding accepts
  Matches-StandsAt [] p h = done
  Matches-StandsAt (d ∷ s) p h = elim (Option-cases (get_elem? text p)) [
    | inl e ↦
        let h' =
          subst (λ q. has_prefix (map trt (d ∷ s)) (map trt q) ≡ true) (drop-end text p e) h in
        ground (arith, h')
    | inr (c, e) ↦
        let h' =
          subst (λ q. has_prefix (map trt (d ∷ s)) (map trt q) ≡ true) (drop-at text p c e) h in
        one e (ground (arith, h')) (Matches-StandsAt s (suc p) (ground (arith, h')))
  ]

  plain_iff : (s : Bytes) (p : ℕ) → MatchesAny trt text p (literals s ∷ []) ↔ StandsAt trt s text p
  plain_iff s p = (λ m. StandsAt-Matches s p (only trt text m), λ h. this (Matches-StandsAt s p h))

literals-IsReferenceFree : (s : Bytes) → IsReferenceFree (literals s)
literals-IsReferenceFree [] = tt
literals-IsReferenceFree (c ∷ s) = literals-IsReferenceFree s

IsFirst-map :
    (P Q : ℕ → Type 0) (p size : ℕ) (f : Found)
    → ((q : ℕ) → P q ↔ Q q)
    → IsFirst P p size f
    → IsFirst Q p size f
IsFirst-map P Q p size (found q marks) h i =
    (i.0, i.1, (h q).0 i.2, λ r le lt k. i.3 r le lt ((h r).1 k))
IsFirst-map P Q p size not_found h i = (i.0, λ r le lt k. i.1 r le lt ((h r).1 k))
IsFirst-map P Q p size overrun h i = (i.0, λ k. i.1 ((h p).1 k))

-- A search string that is not empty, compiled as plain text and executed with a consistent table:
-- compile accepts it, and the answer is the first position of the text where the string stands,
-- letters of either case counting as one where folding is asked for; none, where it stands at no
-- position; and a read past the terminator where the text is empty.
pub execute-plain :
    (f : Fold) (old : Contents) (d : ℕ) (s text : Bytes) (fold : Bool)
    → IsConsistent f
    → (compile old (d ∷ s) false fold ≡ says (written (literals (d ∷ s) ∷ []) 0) none)
      × IsFirst
          (StandsAt (key (not fold)) (d ∷ s) text)
          0
          (length text)
          (execute f (plain (d ∷ s) fold) text false)
unfolding compile
execute-plain f old d s text fold h =
    let trt = (case_fold fold f).trans in
    let table = case_fold-IsConsistent fold f h in
    let same_table : trt ≡ key (not fold) =
      fun_ext (λ c. subst (λ b. trt c ≡ key (not b) c) table.1 (table.0 c)) in
    (
      ap answered (compile_loop-plain fold (d ∷ s) start refl refl),
      IsFirst-map _ _ 0 (length text) (execute f (plain (d ∷ s) fold) text false)
          (λ p.
            subst (λ t. MatchesAny trt text p (literals (d ∷ s) ∷ []) ↔ StandsAt t (d ∷ s) text p)
              same_table (plain_iff trt text (d ∷ s) p))
          (execute-IsFirst f (plain (d ∷ s) fold) text (literals-IsReferenceFree (d ∷ s), tt)
            (omega arith)),
    )
