-- ===== src/Search/Examples.antt =====
-- Inputs for search.
use trn_actions.Prelude.{
  ℕ, ◌<◌, ◌≡◌, refl, ◌↔◌, Bool, true, false, Option, none, some, [], ◌∷◌, arith, Bytes, codes,
}
use trn_actions.Util2.{key}
use trn_actions.Search.{
  case_fold, accepts, search_init, anchor, chr, Fold, dot, ccl, circ, dol, once, starred, bra, ket,
  backref, backref_loop, refer, advance, try_down, holds, is_alnum, cclass, run,
}
use trn_actions.Search.Spec.{MatchesAny, IsFirst, done, one, leave, repeat, enter, quit, this}
use trn_actions.Search.First.{execute-IsFirst}
use trn_actions.Search.Plain.{IsConsistent, literals, plain, StandsAt, execute-plain}
use trn_actions.Search.Quote.{quoted, compile_loop-quoted}
use trn_actions.Search.Brackets.{IsCompiled, compile-IsCompiled}
use trn_actions.Search.Classes.{InRange, compile_loop-class}
use trn_actions.Search.Compile.{
  no_bits, range_bits, compile_loop, start, compile, missing_bracket, compiled, at_char, fresh,
  erased, written, says, indeterminate, overwrites, add_range, emit, defchar, class_byte,
  open_paren, meta, at_cend, plain_or_meta, one_byte,
}
use trn_actions.Search.Execute.{
  Compex, Found, execute, found, not_found, overrun, try_alternatives, try_first, position_loop,
  by_first,
}

abbrev table : Fold
table = search_init (record { trans = λ c. c; folding = false })

abbrev place : Found → Option ℕ
place (found p marks) = some p
place not_found = none
place overrun = none

-- compile, then execute
abbrev search : Bytes → Bool → Bytes → Option ℕ
search pattern fold text = elim (compile fresh pattern true fold) [
  | says c m ↦ elim c [
    | written alternatives nbra ↦ place (
        execute table (record { alternatives = alternatives; nbra = nbra; do_folding = fold }) text
          false)
    | fresh ↦ none
    | erased ↦ none
  ]
  | indeterminate ↦ none
  | overwrites ↦ none
]

finds_class : search (codes "[a-c]*x") true (codes ".Ax") ≡ some 1
unfolding compile execute compile_loop one_byte plain_or_meta class_byte add_range meta defchar emit
    open_paren position_loop by_first try_alternatives try_first advance accepts cclass run try_down
    refer backref backref_loop holds is_alnum case_fold search_init
finds_class = refl

finds_reference : search (codes "\\(.\\)\\1") false (codes "abb") ≡ some 1
unfolding compile execute compile_loop one_byte plain_or_meta class_byte add_range meta defchar emit
    open_paren position_loop by_first try_alternatives try_first advance accepts cclass run try_down
    refer backref backref_loop holds is_alnum case_fold search_init
finds_reference = refl

finds_word : search (codes "\\bre$") false (codes "a re") ≡ some 2
unfolding compile execute compile_loop one_byte plain_or_meta class_byte add_range meta defchar emit
    open_paren position_loop by_first try_alternatives try_first advance accepts cclass run try_down
    refer backref backref_loop holds is_alnum case_fold search_init
finds_word = refl

-- A caret behind the letter N is an anchor.
caret_behind_n :
    compile fresh (codes "N^") true false
    ≡ says (written ((once (chr b'N') ∷ anchor circ ∷ []) ∷ []) 0) none
unfolding compile compile_loop one_byte plain_or_meta at_cend defchar emit
caret_behind_n = refl

open_class : compile fresh (codes "[a-") true false ≡ says erased (some missing_bracket)
unfolding compile compile_loop one_byte plain_or_meta class_byte add_range
open_class = refl

abbrev re : Compex
re = record {
  alternatives =
      (bra 1 ∷ starred (chr b'a') ∷ ket 1 ∷ once (chr b'B') ∷ [])
      ∷ (once dot ∷ anchor dol ∷ [])
      ∷ [];
  nbra = 1;
  do_folding = true;
}

execute-IsFirst_example :
    IsFirst
      (λ p. MatchesAny (case_fold true table).trans (codes "..aab") p re.alternatives)
      0
      5
      (execute table re (codes "..aab") false)
execute-IsFirst_example = execute-IsFirst table re (codes "..aab") (tt, (tt, tt)) (omega arith)

table-IsConsistent : IsConsistent table
unfolding search_init
table-IsConsistent c = refl

execute-plain_example :
    (compile fresh (codes "re:") false true ≡ says (written (literals (codes "re:") ∷ []) 0) none)
    × IsFirst
        (StandsAt (key false) (codes "re:") (codes "Was: Re: x"))
        0
        10
        (execute table (plain (codes "re:") true) (codes "Was: Re: x") false)
execute-plain_example =
    execute-plain table fresh b'r' (codes "e:") (codes "Was: Re: x") true table-IsConsistent

compile_loop-quoted_example :
    compile_loop true true at_char start (quoted (codes "[a.b]*"))
    ≡ compile_loop false true at_char start (codes "[a.b]*")
compile_loop-quoted_example = compile_loop-quoted true start (codes "[a.b]*")

compile_loop-class_example :
    (compile_loop true true at_char start (codes "[b-d]")
      ≡ compiled ((once (ccl (range_bits true b'b' 3 no_bits)) ∷ []) ∷ []) 0)
    × ((k : ℕ)
        → k < 128
        → (accepts (λ c. c) (ccl (range_bits true b'b' 3 no_bits)) k ≡ true)
          ↔ InRange true b'b' 3 k)
compile_loop-class_example =
    compile_loop-class (λ c. c) true b'b' b'd' (omega arith) (omega arith) (ground arith)
      (ground arith)

aab_matches : MatchesAny (case_fold true table).trans (codes "..aab") 2 re.alternatives
unfolding case_fold accepts is_alnum search_init
aab_matches = this (
    enter (
      repeat {c = b'a'} refl refl
        (repeat {c = b'a'} refl refl (leave (quit (one {c = b'b'} refl refl done))))))

compile-IsCompiled_example :
    IsCompiled (compile_loop true false at_char start (codes "\\(a*\\)\\1\\|b"))
compile-IsCompiled_example = compile-IsCompiled true false (codes "\\(a*\\)\\1\\|b")
