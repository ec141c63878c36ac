-- ===== src/Search/Execute.antt =====
-- search.cpp: execute and getbracket. A text is one that is not a null pointer, and an expression
-- one that compile accepted.
use trn_actions.Prelude.{
  ℕ, suc, ◌-◌, Bool, true, false, Option, none, some, List, [], ◌∷◌, Bytes, ltb, leb, ◌==◌,
  if◌then◌else◌, get_or, take, drop, replicate,
}
use trn_actions.Search.{
  Alternatives, case_fold, Op, chr, Outcome, advance, nbra_limit, undefined, Fold, Marks, once,
  matched, failed,
}

-- The COMPEX that compile leaves: alternatives, nbra and do_folding.
pub record Compex : Type 0 where
  pub alternatives : Alternatives
  pub nbra : ℕ
  pub do_folding : Bool

-- `overrun` reads behind the terminator or writes behind the lists of brackets.
pub data Found : Type 0 where
  found : ℕ → Marks → Found
  not_found overrun : Found

-- The inner loop on the alternatives.
unfoldable pub try_alternatives : (ℕ → ℕ) → Bytes → Alternatives → ℕ → Marks → Outcome
try_alternatives trt text [] lp m = failed m
try_alternatives trt text (ops ∷ rest) lp m = elim (advance trt text ops lp m) [
  | failed kept ↦ try_alternatives trt text rest lp kept
  | matched marks ↦ matched marks
  | undefined ↦ undefined
]

-- The test of the fast loop, for the first byte `d` of the expression.
unfoldable pub try_first : (ℕ → ℕ) → Bytes → ℕ → List Op → ℕ → Marks → Outcome
try_first trt text d ops lp m =
    if trt (get_or text lp 0) == trt d then advance trt text ops lp m else failed m

-- `while (*p1`
abbrev pub while_more : Bytes → Found → Found
while_more [] next = not_found
while_more (c ∷ rest) next = next

-- `do ... p1++; while (*p1 && !s_err);`, with the text from `p1` on.
unfoldable pub position_loop : (ℕ → Marks → Outcome) → ℕ → Bytes → Marks → Found
position_loop try p [] m = elim (try p m) [
  | matched marks ↦ found p marks
  | failed kept ↦ overrun
  | undefined ↦ overrun
]
position_loop try p (c ∷ rest) m = elim (try p m) [
  | matched marks ↦ found p marks
  | failed kept ↦ elim kept.err [
    | true ↦ not_found
    | false ↦ while_more rest (position_loop try (suc p) rest kept)
  ]
  | undefined ↦ overrun
]

-- `compex->expbuf[0] == CCHR`, with the byte behind it
abbrev pub literal : List Op → Option ℕ
literal (once (chr d) ∷ ops) = some d
literal ops = none

abbrev pub try_from : (ℕ → ℕ) → Bytes → Option ℕ → List Op → ℕ → Marks → Outcome
try_from trt text none ops = try_alternatives trt text (ops ∷ [])
try_from trt text (some d) ops = try_first trt text d ops

-- Which of the two loops runs.
unfoldable pub by_first : (ℕ → ℕ) → Bytes → Alternatives → ℕ → Marks → Outcome
by_first trt text [] = try_alternatives trt text []
by_first trt text (ops ∷ []) = try_from trt text (literal ops) ops
by_first trt text (ops ∷ b ∷ rest) = try_alternatives trt text (ops ∷ b ∷ rest)

abbrev pub no_marks : Bool → Marks
no_marks err = record {
  starts = replicate nbra_limit none;
  ends = replicate nbra_limit none;
  err = err;
}

-- Brackets above nbra are null, as they are before the first expression with brackets. `err` is
-- s_err at the call.
unfoldable pub execute : Fold → Compex → Bytes → Bool → Found
execute f x text err =
    let trt = (case_fold x.do_folding f).trans in
    if leb nbra_limit x.nbra
    then overrun
    else position_loop (by_first trt text x.alternatives) 0 text (no_marks err)

-- The text of bracket n.
unfoldable pub getbracket : Compex → Bytes → Marks → ℕ → Option Bytes
getbracket x text m n =
    if x.nbra == 0 then none else if ltb x.nbra n then some [] else elim (get_or m.ends n none) [
      | none ↦ some []
      | some stop ↦ elim (get_or m.starts n none) [
        | none ↦ some []
        | some start ↦
            if ltb stop start then some [] else some (take (stop - start) (drop start text))
      ]
    ]
