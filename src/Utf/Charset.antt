-- ===== src/Utf/Charset.antt =====
-- utf.cpp: the character sets, their tables, and the state that utf_init sets.
use trn_actions.Prelude.{
  ℕ, ◌+◌, ◌-◌, ◌/◌, ◌%◌, ◌^◌, Bool, true, false, Option, none, some, List, [], ◌∷◌, Bytes, ◌==◌,
  if◌then◌else◌, codes,
}
use trn_actions.StringAlgos.{is_upper}

-- `unsigned long` of 64 bits
abbrev pub invalid_code_point : ℕ
invalid_code_point = 2 ^ 64 - 1

pub data Charset : Type 0 where
  ascii utf8 iso8859_1 iso8859_15 windows_1252 unknown : Charset

-- the values of `charset_type`
abbrev pub charset_id : Charset → ℕ
charset_id ascii = 0x0000
charset_id utf8 = 0x8000
charset_id iso8859_1 = 0x4010
charset_id iso8859_15 = 0x4011
charset_id windows_1252 = 0x4020
charset_id unknown = 0x0fff

-- IS_UTF8, IS_SINGLE_BYTE, IS_DOUBLE_BYTE: one bit of the id
abbrev bit_set : ℕ → ℕ → Bool
bit_set n power = n / power % 2 == 1

abbrev pub is_utf8 : Charset → Bool
is_utf8 cs = bit_set (charset_id cs) 0x8000

abbrev pub is_single_byte : Charset → Bool
is_single_byte cs = bit_set (charset_id cs) 0x4000

abbrev pub is_double_byte : Charset → Bool
is_double_byte cs = bit_set (charset_id cs) 0x2000

unfoldable pub cp1252_himap : Bytes
cp1252_himap =
    0x20ac ∷ invalid_code_point ∷ 0x201a ∷ 0x0192 ∷ 0x201e ∷ 0x2026 ∷ 0x2020 ∷ 0x2021 ∷ 0x02c6
    ∷ 0x2030 ∷ 0x0160 ∷ 0x2039 ∷ 0x0152 ∷ invalid_code_point ∷ 0x017d ∷ invalid_code_point
    ∷ invalid_code_point ∷ 0x2018 ∷ 0x2019 ∷ 0x201c ∷ 0x201d ∷ 0x00b7 ∷ 0x2013 ∷ 0x2014 ∷ 0x02dc
    ∷ 0x2122 ∷ 0x0161 ∷ 0x203a ∷ 0x0153 ∷ invalid_code_point ∷ 0x017e ∷ 0x0178 ∷ 0x00a0 ∷ 0x00a1
    ∷ 0x00a2 ∷ 0x00a3 ∷ 0x00a4 ∷ 0x00a5 ∷ 0x00a6 ∷ 0x00a7 ∷ 0x00a8 ∷ 0x00a9 ∷ 0x00aa ∷ 0x00ab
    ∷ 0x00ac ∷ invalid_code_point ∷ 0x00ae ∷ 0x00af ∷ 0x00b0 ∷ 0x00b1 ∷ 0x00b2 ∷ 0x00b3 ∷ 0x00b4
    ∷ 0x00b5 ∷ 0x00b6 ∷ 0x00b7 ∷ 0x00b8 ∷ 0x00b9 ∷ 0x00ba ∷ 0x00bb ∷ 0x00bc ∷ 0x00bd ∷ 0x00be
    ∷ 0x00bf ∷ 0x00c0 ∷ 0x00c1 ∷ 0x00c2 ∷ 0x00c3 ∷ 0x00c4 ∷ 0x00c5 ∷ 0x00c6 ∷ 0x00c7 ∷ 0x00c8
    ∷ 0x00c9 ∷ 0x00ca ∷ 0x00cb ∷ 0x00cc ∷ 0x00cd ∷ 0x00ce ∷ 0x00cf ∷ 0x00d0 ∷ 0x00d1 ∷ 0x00d2
    ∷ 0x00d3 ∷ 0x00d4 ∷ 0x00d5 ∷ 0x00d6 ∷ 0x00d7 ∷ 0x00d8 ∷ 0x00d9 ∷ 0x00da ∷ 0x00db ∷ 0x00dc
    ∷ 0x00dd ∷ 0x00de ∷ 0x00df ∷ 0x00e0 ∷ 0x00e1 ∷ 0x00e2 ∷ 0x00e3 ∷ 0x00e4 ∷ 0x00e5 ∷ 0x00e6
    ∷ 0x00e7 ∷ 0x00e8 ∷ 0x00e9 ∷ 0x00ea ∷ 0x00eb ∷ 0x00ec ∷ 0x00ed ∷ 0x00ee ∷ 0x00ef ∷ 0x00f0
    ∷ 0x00f1 ∷ 0x00f2 ∷ 0x00f3 ∷ 0x00f4 ∷ 0x00f5 ∷ 0x00f6 ∷ 0x00f7 ∷ 0x00f8 ∷ 0x00f9 ∷ 0x00fa
    ∷ 0x00fb ∷ 0x00fc ∷ 0x00fd ∷ 0x00fe ∷ 0x00ff ∷ []

unfoldable pub iso8859_1_himap : Bytes
iso8859_1_himap =
    invalid_code_point ∷ invalid_code_point ∷ invalid_code_point ∷ invalid_code_point
    ∷ invalid_code_point ∷ invalid_code_point ∷ invalid_code_point ∷ invalid_code_point
    ∷ invalid_code_point ∷ invalid_code_point ∷ invalid_code_point ∷ invalid_code_point
    ∷ invalid_code_point ∷ invalid_code_point ∷ invalid_code_point ∷ invalid_code_point
    ∷ invalid_code_point ∷ invalid_code_point ∷ invalid_code_point ∷ invalid_code_point
    ∷ invalid_code_point ∷ invalid_code_point ∷ invalid_code_point ∷ invalid_code_point
    ∷ invalid_code_point ∷ invalid_code_point ∷ invalid_code_point ∷ invalid_code_point
    ∷ invalid_code_point ∷ invalid_code_point ∷ invalid_code_point ∷ invalid_code_point ∷ 0x00a0
    ∷ 0x00a1 ∷ 0x00a2 ∷ 0x00a3 ∷ 0x00a4 ∷ 0x00a5 ∷ 0x00a6 ∷ 0x00a7 ∷ 0x00a8 ∷ 0x00a9 ∷ 0x00aa
    ∷ 0x00ab ∷ 0x00ac ∷ invalid_code_point ∷ 0x00ae ∷ 0x00af ∷ 0x00b0 ∷ 0x00b1 ∷ 0x00b2 ∷ 0x00b3
    ∷ 0x00b4 ∷ 0x00b5 ∷ 0x00b6 ∷ 0x00b7 ∷ 0x00b8 ∷ 0x00b9 ∷ 0x00ba ∷ 0x00bb ∷ 0x00bc ∷ 0x00bd
    ∷ 0x00be ∷ 0x00bf ∷ 0x00c0 ∷ 0x00c1 ∷ 0x00c2 ∷ 0x00c3 ∷ 0x00c4 ∷ 0x00c5 ∷ 0x00c6 ∷ 0x00c7
    ∷ 0x00c8 ∷ 0x00c9 ∷ 0x00ca ∷ 0x00cb ∷ 0x00cc ∷ 0x00cd ∷ 0x00ce ∷ 0x00cf ∷ 0x00d0 ∷ 0x00d1
    ∷ 0x00d2 ∷ 0x00d3 ∷ 0x00d4 ∷ 0x00d5 ∷ 0x00d6 ∷ 0x00d7 ∷ 0x00d8 ∷ 0x00d9 ∷ 0x00da ∷ 0x00db
    ∷ 0x00dc ∷ 0x00dd ∷ 0x00de ∷ 0x00df ∷ 0x00e0 ∷ 0x00e1 ∷ 0x00e2 ∷ 0x00e3 ∷ 0x00e4 ∷ 0x00e5
    ∷ 0x00e6 ∷ 0x00e7 ∷ 0x00e8 ∷ 0x00e9 ∷ 0x00ea ∷ 0x00eb ∷ 0x00ec ∷ 0x00ed ∷ 0x00ee ∷ 0x00ef
    ∷ 0x00f0 ∷ 0x00f1 ∷ 0x00f2 ∷ 0x00f3 ∷ 0x00f4 ∷ 0x00f5 ∷ 0x00f6 ∷ 0x00f7 ∷ 0x00f8 ∷ 0x00f9
    ∷ 0x00fa ∷ 0x00fb ∷ 0x00fc ∷ 0x00fd ∷ 0x00fe ∷ 0x00ff ∷ []

unfoldable pub iso8859_15_himap : Bytes
iso8859_15_himap =
    invalid_code_point ∷ invalid_code_point ∷ invalid_code_point ∷ invalid_code_point
    ∷ invalid_code_point ∷ invalid_code_point ∷ invalid_code_point ∷ invalid_code_point
    ∷ invalid_code_point ∷ invalid_code_point ∷ invalid_code_point ∷ invalid_code_point
    ∷ invalid_code_point ∷ invalid_code_point ∷ invalid_code_point ∷ invalid_code_point
    ∷ invalid_code_point ∷ invalid_code_point ∷ invalid_code_point ∷ invalid_code_point
    ∷ invalid_code_point ∷ invalid_code_point ∷ invalid_code_point ∷ invalid_code_point
    ∷ invalid_code_point ∷ invalid_code_point ∷ invalid_code_point ∷ invalid_code_point
    ∷ invalid_code_point ∷ invalid_code_point ∷ invalid_code_point ∷ invalid_code_point ∷ 0x00a0
    ∷ 0x00a1 ∷ 0x00a2 ∷ 0x00a3 ∷ 0x20ac ∷ 0x00a5 ∷ 0x0160 ∷ 0x00a7 ∷ 0x0161 ∷ 0x00a9 ∷ 0x00aa
    ∷ 0x00ab ∷ 0x00ac ∷ invalid_code_point ∷ 0x00ae ∷ 0x00af ∷ 0x00b0 ∷ 0x00b1 ∷ 0x00b2 ∷ 0x00b3
    ∷ 0x017d ∷ 0x00b5 ∷ 0x00b6 ∷ 0x00b7 ∷ 0x017e ∷ 0x00b9 ∷ 0x00ba ∷ 0x00bb ∷ 0x0152 ∷ 0x0153
    ∷ 0x0178 ∷ 0x00bf ∷ 0x00c0 ∷ 0x00c1 ∷ 0x00c2 ∷ 0x00c3 ∷ 0x00c4 ∷ 0x00c5 ∷ 0x00c6 ∷ 0x00c7
    ∷ 0x00c8 ∷ 0x00c9 ∷ 0x00ca ∷ 0x00cb ∷ 0x00cc ∷ 0x00cd ∷ 0x00ce ∷ 0x00cf ∷ 0x00d0 ∷ 0x00d1
    ∷ 0x00d2 ∷ 0x00d3 ∷ 0x00d4 ∷ 0x00d5 ∷ 0x00d6 ∷ 0x00d7 ∷ 0x00d8 ∷ 0x00d9 ∷ 0x00da ∷ 0x00db
    ∷ 0x00dc ∷ 0x00dd ∷ 0x00de ∷ 0x00df ∷ 0x00e0 ∷ 0x00e1 ∷ 0x00e2 ∷ 0x00e3 ∷ 0x00e4 ∷ 0x00e5
    ∷ 0x00e6 ∷ 0x00e7 ∷ 0x00e8 ∷ 0x00e9 ∷ 0x00ea ∷ 0x00eb ∷ 0x00ec ∷ 0x00ed ∷ 0x00ee ∷ 0x00ef
    ∷ 0x00f0 ∷ 0x00f1 ∷ 0x00f2 ∷ 0x00f3 ∷ 0x00f4 ∷ 0x00f5 ∷ 0x00f6 ∷ 0x00f7 ∷ 0x00f8 ∷ 0x00f9
    ∷ 0x00fa ∷ 0x00fb ∷ 0x00fc ∷ 0x00fd ∷ 0x00fe ∷ 0x00ff ∷ []

pub record CharsetDesc : Type 0 where
  pub name : Bytes
  pub id : Charset
  pub himap : Option Bytes

desc : Bytes → Charset → Option Bytes → CharsetDesc
desc name id himap = record { name = name; id = id; himap = himap }

-- The table up to the entry whose name is null.
unfoldable pub charset_descs : List CharsetDesc
unfolding desc
charset_descs =
    desc (codes "US") ascii none
    ∷ desc (codes "us-ascii") ascii none
    ∷ desc (codes "ascii") ascii none
    ∷ desc (codes "UTF") utf8 none
    ∷ desc (codes "utf-8") utf8 none
    ∷ desc (codes "utf8") utf8 none
    ∷ desc (codes "Latin1") iso8859_1 (some iso8859_1_himap)
    ∷ desc (codes "iso8859-1") iso8859_1 (some iso8859_1_himap)
    ∷ desc (codes "iso-8859-1") iso8859_1 (some iso8859_1_himap)
    ∷ desc (codes "Latin9") iso8859_15 (some iso8859_15_himap)
    ∷ desc (codes "iso8859-15") iso8859_15 (some iso8859_15_himap)
    ∷ desc (codes "iso-8859-15") iso8859_15 (some iso8859_15_himap)
    ∷ desc (codes "CP1252") windows_1252 (some cp1252_himap)
    ∷ desc (codes "cp1252") windows_1252 (some cp1252_himap)
    ∷ desc (codes "windows-1252") windows_1252 (some cp1252_himap)
    ∷ []

pub record GState : Type 0 where
  pub in_set : Charset
  pub out_set : Charset
  pub himap_in : Option Bytes
  pub himap_out : Option Bytes

-- `s_gs` at the start
abbrev pub initial_state : GState
initial_state = record { in_set = utf8; out_set = utf8; himap_in = none; himap_out = none }

abbrev pub fold_case : ℕ → ℕ
fold_case c = if is_upper c then c + 32 else c

-- The loop over `j`: both strings end together, and agree before that up to case.
unfoldable pub same_name : Bytes → Bytes → Bool
same_name [] [] = true
same_name [] (d ∷ name) = false
same_name (c ∷ s) [] = false
same_name (c ∷ s) (d ∷ name) = if fold_case c == fold_case d then same_name s name else false

find_in : List CharsetDesc → Bytes → Charset
find_in [] s = unknown
find_in (d ∷ descs) s = if same_name s d.name then d.id else find_in descs s

unfoldable pub find_charset : Option Bytes → Charset
unfolding find_in charset_descs same_name
find_charset none = unknown
find_charset (some s) = find_in charset_descs s

find_id : List CharsetDesc → Charset → Option CharsetDesc
find_id [] cs = none
find_id (d ∷ descs) cs = if charset_id cs == charset_id d.id then some d else find_id descs cs

unfoldable pub find_charset_desc : Charset → Option CharsetDesc
unfolding find_id charset_descs
find_charset_desc cs = find_id charset_descs cs

abbrev pub himap_or : Option CharsetDesc → Option Bytes → Option Bytes
himap_or none old = old
himap_or (some d) old = d.himap

abbrev pub set_in : Charset → GState → GState
set_in unknown gs = gs
set_in cs gs = record gs { in_set = cs; himap_in = himap_or (find_charset_desc cs) gs.himap_in }

abbrev pub set_out : Charset → GState → GState
set_out unknown gs = gs
set_out cs gs = record gs { out_set = cs; himap_out = himap_or (find_charset_desc cs) gs.himap_out }

-- The new state, and the charset that is returned.
unfoldable pub utf_init : Option Bytes → Option Bytes → GState → GState × Charset
unfolding find_charset find_charset_desc
utf_init from to gs = (set_out (find_charset to) (set_in (find_charset from) gs), find_charset from)

unfoldable pub name_of : Option CharsetDesc → Option Bytes
name_of none = none
name_of (some d) = some d.name

-- `none` is a null dereference.
unfoldable pub input_charset_name : GState → Option Bytes
unfolding name_of find_charset_desc
input_charset_name gs = name_of (find_charset_desc gs.in_set)

unfoldable pub output_charset_name : GState → Option Bytes
unfolding name_of find_charset_desc
output_charset_name gs = name_of (find_charset_desc gs.out_set)
