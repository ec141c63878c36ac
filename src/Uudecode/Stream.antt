-- ===== src/Uudecode/Stream.antt =====
-- uudecode.cpp: uudecode, which finds and decodes a file in a stream of lines.
use trn_actions.Prelude.{
  ℕ, Bool, not, ◌&&◌, ◌||◌, Option, none, some, List, [], ◌∷◌, ◌++◌, Bytes, ltb, ◌==◌,
  if◌then◌else◌, codes, length, drop, peek, has_prefix,
}
use trn_actions.StringAlgos.{is_space, skip_while}
use trn_actions.Uudecode.{uudecodeline, uulength}

-- decode_state
pub data Phase : Type 0 where
  done : Phase
  at_start : Phase
  inactive : Phase
  setlen : Phase
  active : Phase
  next2last : Phase
  last : Phase
  maybedone : Phase
  failed : Phase

-- The phase, the static variables `line_length` and `ofp`, and what the memory of `lastline` holds.
-- The open file is its name and what was written; the files before it are closed.
pub record Decoder : Type 0 where
  pub phase : Phase
  pub line_length : ℕ
  pub lastline : Bytes
  pub ofp : Option (Bytes × Bytes)
  pub closed : List (Bytes × Bytes)

-- A carriage return ends the line.
unfoldable pub cut_return : Bytes → Bytes
cut_return [] = []
cut_return (c ∷ s) = let rest = cut_return s in if c == 0x0d then 0x0a ∷ [] else c ∷ rest

abbrev pub closing : List (Bytes × Bytes) → Option (Bytes × Bytes) → List (Bytes × Bytes)
closing files none = files
closing files (some file) = file ∷ files

abbrev pub close_file : Decoder → Decoder
close_file d = record d { ofp = none; closed = closing d.closed d.ofp }

abbrev pub append_to : Decoder → Option (Bytes × Bytes) → Option Bytes → Option Decoder
append_to d (some (name, text)) (some out) = some (record d { ofp = some (name, text ++ out) })
append_to d file out = none

-- Decoding a line into the file. `none`: no file is open, or the line cannot be decoded.
abbrev pub put_line : Bytes → Decoder → Option Decoder
put_line line d = append_to d d.ofp (uudecodeline line)

abbrev pub is_end : Bytes → Bool
is_end line = has_prefix (codes "end") line

abbrev pub is_blank : Bytes → Bool
is_blank line = peek line == b' ' || peek line == 0x60

abbrev pub ended : Decoder → Decoder
ended d = record (close_file d) { phase = maybedone }

-- DECODE_ACTIVE. A line that is longer than `lastline` is written past its end.
unfoldable pub on_active : Bytes → Decoder → Option Decoder
unfolding uudecodeline
on_active line d =
    if peek line == b'M' && length line == d.line_length
    then put_line line d
    else if ltb d.line_length (length line)
    then some (record d { phase = inactive })
    else if ltb uulength (length line)
    then none
    else if is_end line
    then some (ended (record d { lastline = line }))
    else if is_blank line
    then some (record d { lastline = line; phase = last })
    else some (record d { lastline = line; phase = next2last })

unfoldable pub on_setlen : Bytes → Decoder → Option Decoder
unfolding on_active
on_setlen line d = on_active line (record d { line_length = length line; phase = active })

unfoldable pub on_inactive : Bytes → Decoder → Option Decoder
unfolding on_setlen
on_inactive line d =
    if not (peek line == b'M') || not (length line == d.line_length)
    then some (if has_prefix (codes "BEGIN") line then record d { phase = active } else d)
    else on_setlen line d

unfoldable pub on_next2last : Bytes → Decoder → Option Decoder
on_next2last line d =
    if is_end line
    then some (ended d)
    else if is_blank line
    then some (record d { phase = last })
    else some (record d { phase = inactive })

abbrev pub end_after : Option Decoder → Option Decoder
end_after none = none
end_after (some d) = some (ended d)

unfoldable pub on_last : Bytes → Decoder → Option Decoder
unfolding uudecodeline
on_last line d =
    if is_end line && is_space (peek (drop 3 line))
    then end_after (put_line d.lastline d)
    else some (record d { phase = inactive })

abbrev pub in_name : ℕ → Bool
in_name c = not (is_space c) || c == b' '

unfoldable pub name_text : Bytes → Bytes
name_text [] = []
name_text (c ∷ s) = let rest = name_text s in if in_name c then c ∷ rest else []

-- What a round does: it goes on, or uudecode returns DECODE_ERROR; `none` is undefined.
pub data Round : Type 0 where
  goes_on : Option Decoder → Round
  error : Decoder → Round

-- decode_fix_fname of decode.cpp, and whether fopen succeeds. A round declares `lastline` anew: of what
-- it holds then, given what its memory held in the round before, the language says nothing.
module _ (decode_fix_fname : Bytes → Bytes) (can_open : Bytes → Bool)
    (redeclared : Bytes → Bytes) where
  -- The mode and the name behind `begin `. A file that is still open is lost without being closed.
  unfoldable pub on_begin : Bytes → Decoder → Round
  unfolding skip_while name_text
  on_begin line d =
      let name =
        name_text (skip_while is_space (skip_while (λ c. not (is_space c)) (drop 6 line))) in
      if peek name == 0
      then error d
      else if can_open (decode_fix_fname name)
      then goes_on (some (record d { ofp = some (decode_fix_fname name, []); phase = setlen }))
      else error (record d { ofp = none })

  unfoldable pub on_start : Bytes → Decoder → Round
  unfolding on_begin
  on_start line d = if has_prefix (codes "begin ") line then on_begin line d else goes_on (some d)

  unfoldable pub on_line : Phase → Bytes → Decoder → Round
  unfolding on_start on_inactive on_setlen on_active on_next2last on_last
  on_line done line d = goes_on (some d)
  on_line at_start line d = on_start line d
  on_line inactive line d = goes_on (on_inactive line d)
  on_line setlen line d = goes_on (on_setlen line d)
  on_line active line d = goes_on (on_active line d)
  on_line next2last line d = goes_on (on_next2last line d)
  on_line last line d = goes_on (on_last line d)
  on_line maybedone line d = on_start line d
  on_line failed line d = goes_on (some d)

  -- Behind the loop.
  abbrev pub finish : Decoder → Phase → Phase × Decoder
  finish d done = (done, close_file d)
  finish d maybedone = (maybedone, close_file d)
  finish d other = (inactive, d)

  abbrev pub after : (Decoder → Option (Phase × Decoder)) → Round → Option (Phase × Decoder)
  after go (error d) = some (failed, d)
  after go (goes_on none) = none
  after go (goes_on (some d)) = go d

  -- `section_ends` is the test that ends the reading of an article's part; for a file it never holds.
  unfoldable pub stream_loop : (Bytes → Bool) → List Bytes → Decoder → Option (Phase × Decoder)
  unfolding on_line cut_return
  stream_loop section_ends [] d = some (finish d d.phase)
  stream_loop section_ends (line ∷ lines) d =
      if section_ends line
      then some (finish d d.phase)
      else after (stream_loop section_ends lines)
          (on_line d.phase (cut_return line) (record d { lastline = redeclared d.lastline }))

  unfoldable pub uudecode : (Bytes → Bool) → List Bytes → Phase → Decoder → Option (Phase × Decoder)
  unfolding stream_loop
  uudecode section_ends lines done d = some (done, close_file d)
  uudecode section_ends lines phase d = stream_loop section_ends lines (record d { phase = phase })
