-- ===== src/Uudecode/Prescan.antt =====
-- uudecode.cpp: uue_prescan, which looks in a line for the name of a file and the number of its part.
-- A name is its text: in the program it points into the line, which is cut behind it.
use Prim.Native.String.{String}
use trn_actions.Prelude.{
  ℕ, Bool, true, false, not, ◌&&◌, ◌||◌, Option, none, some, [], ◌∷◌, Bytes, ◌==◌, if◌then◌else◌,
  codes, length, drop, peek, has_prefix,
}
use trn_actions.Int.{ℤ, leb_ℤ, ltb_ℤ, eq_ℤ, pos, negsuc}
use trn_actions.StringAlgos.{is_digit, is_space, empty, skip_while}
use trn_actions.Util2.{safecpy}
use trn_actions.Util2.CaseMap.{strncasecmp}
use trn_actions.Newsrc.Numbers.{atoi}
use trn_actions.Newsrc.Edit.{tail, upto, is_none}
use trn_actions.Uudecode.{uulength}

-- *filenamep, *partp, *totalp
pub record Part : Type 0 where
  pub filename : Option Bytes
  pub part : ℤ
  pub total : ℤ

abbrev pub found : Option Bytes → ℤ → ℤ → Bool × Part
found name part total = (true, record { filename = name; part = part; total = total })

-- `!strncmp(s, t, n)` for the n first bytes of t
abbrev pub begins : String → Bytes → Bool
begins t s = has_prefix (codes t) s

abbrev pub add_byte : ℕ → Option (Bytes × Bytes) → Option (Bytes × Bytes)
add_byte c none = none
add_byte c (some (name, rest)) = some (c ∷ name, rest)

-- The text before the first blank, and the text from it.
unfoldable pub to_blank : Bytes → Option (Bytes × Bytes)
to_blank [] = none
to_blank (c ∷ s) = let rest = to_blank s in if c == b' ' then some ([], c ∷ s) else add_byte c rest

-- The name up to a blank, or the line is no match.
abbrev pub named : Part → ℤ → ℤ → Option (Bytes × Bytes) → Bool × Part
named p part total none = (false, p)
named p part total (some (name, rest)) = found (some name) part total

abbrev pub is_begin : Bytes → Bool
is_begin bp =
    begins "begin " bp
    && (is_digit (peek (drop 6 bp))
        && (is_digit (peek (drop 7 bp))
            && (is_digit (peek (drop 8 bp))
                && (peek (drop 9 bp) == b' '
                    || (peek (drop 6 bp) == b'0'
                        && (is_digit (peek (drop 9 bp)) && peek (drop 10 bp) == b' '))))))

-- The search for ` of file `: the text from it, or the end of the line.
unfoldable pub to_file : Bytes → Bytes
to_file [] = []
to_file (c ∷ s) = let rest = to_file s in if begins " of file " (c ∷ s) then c ∷ s else rest

-- "section N of ... of file F ..."
abbrev pub section_of : Bytes → ℤ → Part → Bool × Part
section_of s part p =
    if empty (some (to_file (drop 4 s)))
    then (false, p)
    else named p part (pos 0) (to_blank (drop 9 (to_file (drop 4 s))))

-- "section N/M file F ...", from the slash, where the code reads the total.
abbrev pub section_slash : Bytes → ℤ → Part → Bool × Part
section_slash s part p =
    let total = atoi s in
    let t = skip_while is_space (skip_while is_digit s) in
    if ltb_ℤ total part || not (begins "file " t)
    then (false, p)
    else named p part total (to_blank (drop 5 t))

-- "POST V... F (Part N/M)", from the blank behind the name.
abbrev pub post_parts : Bytes → Bytes → Part → Bool × Part
post_parts name s p =
    let t = drop 7 s in
    let u = skip_while is_digit t in
    let v = skip_while is_digit (tail u) in
    if not (begins " (Part " s)
    then (false, p)
    else if eq_ℤ (atoi t) (pos 0) || not (peek u == b'/')
    then (false, p)
    else if ltb_ℤ (atoi (tail u)) (atoi t) || not (peek v == b')')
    then (false, p)
    else found (some name) (atoi t) (atoi (tail u))

abbrev pub post_name : Part → Option (Bytes × Bytes) → Bool × Part
post_name p none = (false, p)
post_name p (some (name, s)) = post_parts name s p

abbrev pub post : Part → Option (Bytes × Bytes) → Bool × Part
post p none = (false, p)
post p (some (version, s)) = post_name p (to_blank (tail s))

-- "File: F -- part N of M -- ", from the blank behind the name.
abbrev pub file_parts : Part → Option (Bytes × Bytes) → Bool × Part
file_parts p none = (false, p)
file_parts p (some (name, s)) =
    let t = drop 9 s in
    let u = skip_while is_digit t in
    let v = skip_while is_digit (drop 4 u) in
    if not (begins " -- part " s)
    then (false, p)
    else if eq_ℤ (atoi t) (pos 0) || not (begins " of " u)
    then (false, p)
    else if ltb_ℤ (atoi (drop 4 u)) (atoi t) || not (begins " -- " v)
    then (false, p)
    else found (some name) (atoi t) (atoi (drop 4 u))

-- "[Section: N/M File: F ...", from the number.
unfoldable pub section_parts : Bytes → Part → Bool × Part
unfolding atoi skip_while to_blank
section_parts s p =
    let t = tail (skip_while is_digit s) in
    let u = skip_while is_space (skip_while is_digit t) in
    if eq_ℤ (atoi s) (pos 0)
    then (false, p)
    else if ltb_ℤ (atoi t) (atoi s) || not (begins "File: " u)
    then (false, p)
    else named p (atoi s) (atoi t) (to_blank (drop 6 u))

-- The start of the data of a part whose numbers are known.
abbrev pub is_data : Bytes → Part → Bool
is_data bp p =
    not (is_none p.filename)
    && (ltb_ℤ (pos 0) p.part
        && (ltb_ℤ (pos 0) p.total
            && (leb_ℤ p.part p.total
                && (begins "BEGIN" bp
                    || (begins "--- BEGIN --" bp || (peek bp == b'M' && length bp == uulength))))))

abbrev pub positive : ℤ → ℤ → ℤ
positive new old = if ltb_ℤ (pos 0) new then new else old

-- `!strncasecmp(bp, t, n)`
abbrev pub begins_caseless : String → Bytes → Bool
begins_caseless t bp = eq_ℤ (strncasecmp bp (codes t) (length (codes t))) (pos 0)

-- The header lines, which match nothing but are remembered. `size` is that of g_msg.
unfoldable pub header_lines : ℕ → Bytes → Part → Bool × Part
unfolding strncasecmp safecpy atoi
header_lines size bp p =
    if begins_caseless "x-file-name: " bp
    then (
      false,
      record p {
        filename = some (
            safecpy (some (upto (drop 13 bp) (skip_while (λ c. not (is_space c)) (drop 13 bp))))
              size);
      },
    )
    else if begins_caseless "x-part: " bp
    then (false, record p { part = positive (atoi (drop 8 bp)) p.part })
    else if begins_caseless "x-part-total: " bp
    then (false, record p { total = positive (atoi (drop 14 bp)) p.total })
    else (false, p)

-- From the test for "POST V" on.
unfoldable pub other_lines : ℕ → Bytes → Part → Bool × Part
unfolding header_lines section_parts to_blank atoi skip_while
other_lines size bp p =
    if begins "POST V" bp
    then post p (to_blank (drop 6 bp))
    else if begins "File: " bp
    then file_parts p (to_blank (drop 6 bp))
    else if begins "[Section: " bp
    then section_parts (drop 10 bp) p
    else if is_data bp p
    then (true, p)
    else header_lines size bp p

-- Behind "section ", from the number `s`.
unfoldable pub section : ℕ → Bytes → Bytes → Part → Bool × Part
unfolding other_lines to_file to_blank atoi skip_while empty
section size bp s p =
    let t = skip_while is_digit s in
    if eq_ℤ (atoi s) (pos 0)
    then (false, p)
    else if begins " of " t
    then section_of t (atoi s) p
    else if peek t == b'/' && is_digit (peek (tail t))
    then section_slash t (atoi s) p
    else other_lines size bp p

unfoldable pub uue_prescan : ℕ → Bytes → Part → Bool × Part
unfolding section other_lines
uue_prescan size bp p =
    if is_begin bp
    then (
      true,
      if eq_ℤ p.part (negsuc 0) then record { filename = none; part = pos 1; total = pos 0 } else p,
    )
    else if begins "section " bp && is_digit (peek (drop 8 bp))
    then section size bp (drop 8 bp) p
    else other_lines size bp p
