-- ===== src/Charsubst.antt =====
-- charsubst.cpp: the substitution of Latin-1 characters by ASCII, and strcharsubst. A number of bytes
-- is positive. What is written is the bytes before the terminator. The number of a table is 1 or 2,
-- as the callers pass it.
pub mod Limits
mod Examples
use trn_actions.Prelude.{
  ℕ, zero, suc, ◌-◌, Option, none, some, List, [], ◌∷◌, Bytes, ltb, ◌==◌, if◌then◌else◌, codes,
  length, get_or,
}
use trn_actions.Util2.{safecpy}

abbrev single_table : List (Option Bytes)
single_table =
    some (32 ∷ [])
    ∷ some (33 ∷ [])
    ∷ some (99 ∷ [])
    ∷ none
    ∷ none
    ∷ some (89 ∷ [])
    ∷ some (124 ∷ [])
    ∷ none
    ∷ some (34 ∷ [])
    ∷ some (99 ∷ [])
    ∷ some (97 ∷ [])
    ∷ some (60 ∷ [])
    ∷ some (45 ∷ [])
    ∷ some (45 ∷ [])
    ∷ some (82 ∷ [])
    ∷ some (45 ∷ [])
    ∷ some (32 ∷ [])
    ∷ none
    ∷ some (50 ∷ [])
    ∷ some (51 ∷ [])
    ∷ some (39 ∷ [])
    ∷ some (117 ∷ [])
    ∷ some (80 ∷ [])
    ∷ some (46 ∷ [])
    ∷ some (44 ∷ [])
    ∷ some (49 ∷ [])
    ∷ some (111 ∷ [])
    ∷ some (62 ∷ [])
    ∷ none
    ∷ none
    ∷ none
    ∷ some (63 ∷ [])
    ∷ some (65 ∷ [])
    ∷ some (65 ∷ [])
    ∷ some (65 ∷ [])
    ∷ some (65 ∷ [])
    ∷ some (65 ∷ [])
    ∷ some (65 ∷ [])
    ∷ some (65 ∷ [])
    ∷ some (67 ∷ [])
    ∷ some (69 ∷ [])
    ∷ some (69 ∷ [])
    ∷ some (69 ∷ [])
    ∷ some (69 ∷ [])
    ∷ some (73 ∷ [])
    ∷ some (73 ∷ [])
    ∷ some (73 ∷ [])
    ∷ some (73 ∷ [])
    ∷ some (68 ∷ [])
    ∷ some (78 ∷ [])
    ∷ some (79 ∷ [])
    ∷ some (79 ∷ [])
    ∷ some (79 ∷ [])
    ∷ some (79 ∷ [])
    ∷ some (79 ∷ [])
    ∷ some (120 ∷ [])
    ∷ some (79 ∷ [])
    ∷ some (85 ∷ [])
    ∷ some (85 ∷ [])
    ∷ some (85 ∷ [])
    ∷ some (85 ∷ [])
    ∷ some (89 ∷ [])
    ∷ some (84 ∷ [])
    ∷ some (115 ∷ [])
    ∷ some (97 ∷ [])
    ∷ some (97 ∷ [])
    ∷ some (97 ∷ [])
    ∷ some (97 ∷ [])
    ∷ some (97 ∷ [])
    ∷ some (97 ∷ [])
    ∷ some (97 ∷ [])
    ∷ some (99 ∷ [])
    ∷ some (101 ∷ [])
    ∷ some (101 ∷ [])
    ∷ some (101 ∷ [])
    ∷ some (101 ∷ [])
    ∷ some (105 ∷ [])
    ∷ some (105 ∷ [])
    ∷ some (105 ∷ [])
    ∷ some (105 ∷ [])
    ∷ some (100 ∷ [])
    ∷ some (110 ∷ [])
    ∷ some (111 ∷ [])
    ∷ some (111 ∷ [])
    ∷ some (111 ∷ [])
    ∷ some (111 ∷ [])
    ∷ some (111 ∷ [])
    ∷ some (58 ∷ [])
    ∷ some (111 ∷ [])
    ∷ some (117 ∷ [])
    ∷ some (117 ∷ [])
    ∷ some (117 ∷ [])
    ∷ some (117 ∷ [])
    ∷ some (121 ∷ [])
    ∷ some (116 ∷ [])
    ∷ some (121 ∷ [])
    ∷ []

abbrev nordic_table : List (Option Bytes)
nordic_table =
    some (32 ∷ [])
    ∷ some (33 ∷ [])
    ∷ some (99 ∷ [])
    ∷ none
    ∷ none
    ∷ some (89 ∷ [])
    ∷ some (124 ∷ [])
    ∷ none
    ∷ some (34 ∷ [])
    ∷ some (codes "(c)")
    ∷ some (97 ∷ [])
    ∷ some (codes "<<")
    ∷ some (45 ∷ [])
    ∷ some (45 ∷ [])
    ∷ some (codes "(R)")
    ∷ some (45 ∷ [])
    ∷ some (32 ∷ [])
    ∷ some (codes "+/-")
    ∷ some (50 ∷ [])
    ∷ some (51 ∷ [])
    ∷ some (39 ∷ [])
    ∷ some (117 ∷ [])
    ∷ some (80 ∷ [])
    ∷ some (46 ∷ [])
    ∷ some (44 ∷ [])
    ∷ some (49 ∷ [])
    ∷ some (111 ∷ [])
    ∷ some (codes ">>")
    ∷ some (codes " 1/4")
    ∷ some (codes " 1/2")
    ∷ some (codes " 3/4")
    ∷ some (63 ∷ [])
    ∷ some (65 ∷ [])
    ∷ some (65 ∷ [])
    ∷ some (65 ∷ [])
    ∷ some (65 ∷ [])
    ∷ some (codes "Ae")
    ∷ some (codes "Aa")
    ∷ some (codes "AE")
    ∷ some (67 ∷ [])
    ∷ some (69 ∷ [])
    ∷ some (69 ∷ [])
    ∷ some (69 ∷ [])
    ∷ some (69 ∷ [])
    ∷ some (73 ∷ [])
    ∷ some (73 ∷ [])
    ∷ some (73 ∷ [])
    ∷ some (73 ∷ [])
    ∷ some (68 ∷ [])
    ∷ some (78 ∷ [])
    ∷ some (79 ∷ [])
    ∷ some (79 ∷ [])
    ∷ some (79 ∷ [])
    ∷ some (79 ∷ [])
    ∷ some (codes "Oe")
    ∷ some (120 ∷ [])
    ∷ some (codes "Oe")
    ∷ some (85 ∷ [])
    ∷ some (85 ∷ [])
    ∷ some (85 ∷ [])
    ∷ some (codes "Ue")
    ∷ some (89 ∷ [])
    ∷ some (codes "Th")
    ∷ some (codes "ss")
    ∷ some (97 ∷ [])
    ∷ some (97 ∷ [])
    ∷ some (97 ∷ [])
    ∷ some (97 ∷ [])
    ∷ some (codes "ae")
    ∷ some (codes "aa")
    ∷ some (codes "ae")
    ∷ some (99 ∷ [])
    ∷ some (101 ∷ [])
    ∷ some (101 ∷ [])
    ∷ some (101 ∷ [])
    ∷ some (101 ∷ [])
    ∷ some (105 ∷ [])
    ∷ some (105 ∷ [])
    ∷ some (105 ∷ [])
    ∷ some (105 ∷ [])
    ∷ some (100 ∷ [])
    ∷ some (110 ∷ [])
    ∷ some (111 ∷ [])
    ∷ some (111 ∷ [])
    ∷ some (111 ∷ [])
    ∷ some (111 ∷ [])
    ∷ some (codes "oe")
    ∷ some (58 ∷ [])
    ∷ some (codes "oe")
    ∷ some (117 ∷ [])
    ∷ some (117 ∷ [])
    ∷ some (117 ∷ [])
    ∷ some (codes "ue")
    ∷ some (121 ∷ [])
    ∷ some (codes "th")
    ∷ some (codes "ij")
    ∷ []

-- s_iso2asc[t - 1] - 0xa0
abbrev pub iso2asc : ℕ → ℕ → Option Bytes
iso2asc t c = get_or (if t == 1 then single_table else nordic_table) (c - 0xa0) none

-- `while (*p)`, with what follows it for what is left of limit.
abbrev pub put_all : Bytes → ℕ → (ℕ → Bytes) → Bytes
put_all [] limit next = next limit
put_all (b ∷ p) limit next = b ∷ (if limit - 1 == 0 then [] else put_all p (limit - 1) next)

unfoldable pub latin1_loop : ℕ → Bytes → ℕ → Bytes
latin1_loop t [] limit = []
latin1_loop t (c ∷ iso) limit =
    if ltb 0x9f c
    then (elim (iso2asc t c) [
      | none ↦ latin1_loop t iso limit
      | some p ↦ put_all p limit (latin1_loop t iso)
    ])
    else put_all ((if ltb c 0x80 then c else b' ') ∷ []) limit (latin1_loop t iso)

-- What is written, and the number that is returned; nothing is written where there is no room.
unfoldable pub latin1_to_ascii : Option Bytes → ℕ → ℕ → Option Bytes × ℕ
latin1_to_ascii none limit t = (none, 0)
latin1_to_ascii (some iso) zero t = (none, 0)
latin1_to_ascii (some iso) (suc zero) t = (some [], 0)
latin1_to_ascii (some iso) (suc (suc n)) t =
    let out = latin1_loop t iso (suc (suc n)) in (some out, length out)

-- The bytes up to a newline and with it, if there is one.
unfoldable pub first_line : Bytes → Option Bytes
first_line [] = none
first_line (c ∷ s) =
    let rest = first_line s in
    if c == 10 then some (c ∷ []) else elim rest [ none ↦ none | some l ↦ some (c ∷ l) ]

abbrev pub copied_line : Option Bytes → Bytes → ℕ → Bytes × ℕ
copied_line none inb limit = (safecpy (some inb) limit, length inb)
copied_line (some line) inb limit =
    if ltb (length line) limit
    then (safecpy (some inb) (suc (length line)), length line)
    else (safecpy (some inb) limit, length inb)

-- For a string that is not a null pointer.
unfoldable pub strcharsubst : Bytes → ℕ → ℕ → Option Bytes × ℕ
strcharsubst inb limit subst_char =
    if subst_char == b'm'
    then latin1_to_ascii (some inb) limit 1
    else if subst_char == b'a'
    then latin1_to_ascii (some inb) limit 2
    else (let (out, len) = copied_line (first_line inb) inb limit in (some out, len))
