-- ===== src/Utf/State.antt =====
-- The state that utf_init of utf.cpp keeps.
use trn_actions.Prelude.{
  ℕ, ◌%◌, ◌≡◌, refl, ◌≢◌, Option, none, some, List, arith, Bytes, ◌==◌, if◌then◌else◌, length, peek,
}
use trn_actions.Utf.Charset.{
  Charset, charset_id, is_utf8, cp1252_himap, iso8859_1_himap, iso8859_15_himap, GState,
  initial_state, find_charset, find_charset_desc, set_in, set_out, utf_init, name_of,
  input_charset_name, output_charset_name, ascii, utf8, iso8859_1, iso8859_15, windows_1252,
  unknown,
}
use trn_actions.Utf.Decode.{utf8_code_point, table_or_unset, code_point_at, table_code_point}
use trn_actions.Utf.Convert.{points}
use trn_actions.Utf.Copy.{points-total_fuel}

-- The table of a charset.
abbrev pub table_of : Charset → Option Bytes
table_of iso8859_1 = some iso8859_1_himap
table_of iso8859_15 = some iso8859_15_himap
table_of windows_1252 = some cp1252_himap
table_of _ = none

-- Both charsets are known, and each table is that of its charset.
pub record IsConsistent (gs : GState) : Type 0 where
  pub in_known : gs.in_set ≢ unknown
  pub out_known : gs.out_set ≢ unknown
  pub in_table : gs.himap_in ≡ table_of gs.in_set
  pub out_table : gs.himap_out ≡ table_of gs.out_set

pub initial_state-IsConsistent : IsConsistent initial_state
initial_state-IsConsistent = ground arith

set_in-IsConsistent : (cs : Charset) {gs : GState} → IsConsistent gs → IsConsistent (set_in cs gs)
unfolding find_charset_desc
set_in-IsConsistent unknown v = v
set_in-IsConsistent ascii v = ground arith
set_in-IsConsistent utf8 v = ground arith
set_in-IsConsistent iso8859_1 v = ground arith
set_in-IsConsistent iso8859_15 v = ground arith
set_in-IsConsistent windows_1252 v = ground arith

set_out-IsConsistent : (cs : Charset) {gs : GState} → IsConsistent gs → IsConsistent (set_out cs gs)
unfolding find_charset_desc
set_out-IsConsistent unknown v = v
set_out-IsConsistent ascii v = ground arith
set_out-IsConsistent utf8 v = ground arith
set_out-IsConsistent iso8859_1 v = ground arith
set_out-IsConsistent iso8859_15 v = ground arith
set_out-IsConsistent windows_1252 v = ground arith

-- Whatever names are given, known, unknown or null, the tables stay those of the charsets, and the
-- charsets stay known.
pub utf_init-IsConsistent :
    (from to : Option Bytes) {gs : GState} → IsConsistent gs → IsConsistent (utf_init from to gs).0
unfolding utf_init
utf_init-IsConsistent from to v =
    set_out-IsConsistent (find_charset to) (set_in-IsConsistent (find_charset from) v)

code_point_at-total :
    (gs : GState) (t : Bytes) → IsConsistent gs → (p : ℕ) × (code_point_at gs (some t) ≡ some p)
unfolding code_point_at
code_point_at-total gs t v = go gs.in_set gs.himap_in v.in_known v.in_table
  where
    go :
        (cs : Charset) (table : Option Bytes)
        → cs ≢ unknown
        → table ≡ table_of cs
        → (p : ℕ) × ((if is_utf8 cs
              then some (utf8_code_point t)
              else if charset_id cs == charset_id ascii
              then some (peek t % 128)
              else table_or_unset table (peek t))
            ≡ some p)
    go ascii table k e = (_, refl)
    go utf8 table k e = (_, refl)
    go iso8859_1 table k e = (table_code_point iso8859_1_himap (peek t), rw e)
    go iso8859_15 table k e = (table_code_point iso8859_15_himap (peek t), rw e)
    go windows_1252 table k e = (table_code_point cp1252_himap (peek t), rw e)
    go unknown table k e = absurd (k refl)

-- In a consistent state every string decodes: no table is missing, and the steps reach the end of
-- the string within as many rounds as it has bytes.
pub points-total :
    (gs : GState) (s : Bytes) → IsConsistent gs → (ps : List ℕ) × (points (length s) gs s ≡ some ps)
points-total gs s v =
    points-total_fuel (length s) gs s (λ t. code_point_at-total gs t v) (omega arith)

-- In a consistent state the name of either charset is there to return.
pub charset_names-total :
    (gs : GState)
    → IsConsistent gs
    → ((n : Bytes) × (input_charset_name gs ≡ some n))
      × ((n : Bytes) × (output_charset_name gs ≡ some n))
unfolding input_charset_name output_charset_name
charset_names-total gs v = (go gs.in_set v.in_known, go gs.out_set v.out_known)
  where
    go : (cs : Charset) → cs ≢ unknown → (n : Bytes) × (name_of (find_charset_desc cs) ≡ some n)
    go ascii k = (_, refl)
    go utf8 k = (_, refl)
    go iso8859_1 k = (_, refl)
    go iso8859_15 k = (_, refl)
    go windows_1252 k = (_, refl)
    go unknown k = absurd (k refl)
