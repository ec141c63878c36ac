-- ===== src/Uudecode/Whole.antt =====
-- What uudecode writes for a file that was encoded line by line.
use trn_actions.StringAlgos.{is_space}
use trn_actions.Prelude.{
  ℕ, ◌+◌, ◌*◌, ◌/◌, ◌≤◌, ◌<◌, ◌≡◌, refl, ap, ◌∙◌, subst, Bool, true, false, Option, none, some,
  List, [], ◌∷◌, ◌++◌, append_assoc, arith, Bytes, ltb, ◌==◌, codes, length, peek, All,
}
use trn_actions.Uudecode.{uudecodeline}
use trn_actions.Uudecode.Lines.{encode_line, AreBytes, uudecodeline-encode_line}
use trn_actions.Uudecode.Begin.{IsBlack, begin_line, name_text-line, begin_line-NoReturn, skip-mode}
use trn_actions.Uudecode.Stream.{
  Phase, Decoder, on_active, on_next2last, on_last, on_line, stream_loop, active, last, maybedone,
  next2last, on_setlen, setlen, in_name, on_begin, on_start, uudecode, at_start, goes_on,
}
use trn_actions.Uudecode.Encoded.{
  cut_return-NoReturn, cut_return-encode_line, length-encode_line, on_active-encode_line,
}

abbrev blank_line : Bytes
blank_line = 0x60 ∷ 0x0a ∷ []

abbrev pub end_line : Bytes
end_line = codes "end" ++ 0x0a ∷ []

-- The lines of the last bytes, fewer than a line holds, and the end.
abbrev pub tail_lines : Bytes → List Bytes
tail_lines [] = blank_line ∷ end_line ∷ []
tail_lines (b ∷ bs) = encode_line (b ∷ bs) ∷ blank_line ∷ end_line ∷ []

abbrev pub body_lines : List Bytes → Bytes → List Bytes
body_lines [] rest = tail_lines rest
body_lines (full ∷ fulls) rest = encode_line full ∷ body_lines fulls rest

-- What full lines and the bytes behind them hold.
abbrev pub contents : List Bytes → Bytes → Bytes
contents [] rest = rest
contents (full ∷ fulls) rest = full ++ contents fulls rest

abbrev pub IsFull : Bytes → Type 0
IsFull full = AreBytes full × (length full ≡ 45)

abbrev pub in_file : Bytes → Bool
in_file line = false

abbrev pub writing : Phase → ℕ → Bytes → Bytes → Bytes → List (Bytes × Bytes) → Decoder
writing phase n line name text files = record {
  phase = phase;
  line_length = n;
  lastline = line;
  ofp = some (name, text);
  closed = files;
}

-- The call ends behind a file, which is closed with its text; no file is open.
abbrev pub Closes : Bytes → Bytes → List (Bytes × Bytes) → Option (Phase × Decoder) → Type 0
Closes name text files r =
    (d : Decoder) × (r ≡ some (maybedone, d)) × (d.closed ≡ (name, text) ∷ files) × (d.ofp ≡ none)

module _ (decode_fix_fname : Bytes → Bytes) (can_open : Bytes → Bool)
    (redeclared : Bytes → Bytes) where
  abbrev pub run : List Bytes → Decoder → Option (Phase × Decoder)
  run lines d = stream_loop decode_fix_fname can_open redeclared in_file lines d

  -- What `lastline` holds when the line `end` is read, for the last bytes of a file.
  abbrev pub held_at_end : Bytes → Bytes
  held_at_end [] = redeclared blank_line
  held_at_end (b ∷ bs) = redeclared (redeclared (encode_line (b ∷ bs)))

  run-last :
      (n : ℕ) (line out name text : Bytes) (files : List (Bytes × Bytes))
      → uudecodeline (redeclared line) ≡ some out
      → Closes name (text ++ out) files (run (end_line ∷ []) (writing last n line name text files))
  unfolding stream_loop on_last on_line
  run-last n line out name text files e = (
    record {
      phase = maybedone;
      line_length = n;
      lastline = redeclared line;
      ofp = none;
      closed = (name, text ++ out) ∷ files;
    },
    rw e refl,
    refl,
    refl,
  )

  run-tail :
      (n : ℕ) (rest out name text before : Bytes) (files : List (Bytes × Bytes))
      → uudecodeline (held_at_end rest) ≡ some out
      → length rest < 45
      → (length rest + 2) / 3 * 4 + 2 ≤ n
      → Closes name
          (text ++ out)
          files
          (run (tail_lines rest) (writing active n before name text files))
  unfolding stream_loop on_line on_active on_next2last
  run-tail n [] out name text before files e short room =
      let fits : ltb n 2 ≡ false = ground arith in
      rw fits (run-last n blank_line out name text files e)
  run-tail n (b ∷ bs) out name text before files e short room =
      rw (cut_return-encode_line (b ∷ bs)) (
        rw
          (on_active-encode_line b bs (writing active n (redeclared before) name text files) short
            (omega (arith, length-encode_line (b ∷ bs), room)))
          (run-last n (redeclared (encode_line (b ∷ bs))) out name text files e))

  pub on_active-full :
      (full name text : Bytes) (before : Bytes) (files : List (Bytes × Bytes))
      → IsFull full
      → on_active (encode_line full) (writing active 62 before name text files)
        ≡ some (writing active 62 before name (text ++ full) files)
  unfolding on_active
  on_active-full full name text before files h =
      let size = length-encode_line full in
      let same : (length (encode_line full) == 62) ≡ true = ground arith in
      let is_m : (peek (encode_line full) == b'M') ≡ true = unfold encode_line in rw h.1 refl in
      rw (is_m, same, uudecodeline-encode_line full h.0 (omega (arith, h.1))) refl

  run-body :
      (fulls : List Bytes) (rest out name text before : Bytes) (files : List (Bytes × Bytes))
      → All IsFull fulls
      → uudecodeline (held_at_end rest) ≡ some out
      → length rest < 45
      → Closes name
          (text ++ contents fulls out)
          files
          (run (body_lines fulls rest) (writing active 62 before name text files))
  unfolding stream_loop on_line
  run-body [] rest out name text before files f e short =
      run-tail 62 rest out name text before files e short (omega arith)
  run-body (full ∷ fulls) rest out name text before files f e short =
      rw (cut_return-encode_line full, on_active-full full name text (redeclared before) files f.0)
        (subst
          (λ (t : Bytes). Closes name t files (
            run (body_lines fulls rest)
              (writing active 62 (redeclared before) name (text ++ full) files)))
          (append_assoc text full (contents fulls out))
          (run-body fulls rest out name (text ++ full) (redeclared before) files f.1 e short))

  run-setlen_empty :
      (n : ℕ) (out name before : Bytes) (files : List (Bytes × Bytes))
      → uudecodeline (redeclared blank_line) ≡ some out
      → Closes name out files (run (tail_lines []) (writing setlen n before name [] files))
  unfolding stream_loop on_line on_setlen on_active on_next2last
  run-setlen_empty n out name before files e = run-last 2 blank_line out name [] files e

  pub on_setlen-full :
      (n : ℕ) (full name : Bytes) (before : Bytes) (files : List (Bytes × Bytes))
      → IsFull full
      → on_setlen (encode_line full) (writing setlen n before name [] files)
        ≡ some (writing active 62 before name full files)
  unfolding on_setlen
  on_setlen-full n full name before files h =
      ap (λ (size : ℕ). on_active (encode_line full) (writing active size before name [] files))
        (omega (arith, length-encode_line full, h.1))
      ∙ on_active-full full name [] before files h

  on_setlen-encode_line :
      (n b : ℕ) (bs name : Bytes) (before : Bytes) (files : List (Bytes × Bytes))
      → length (b ∷ bs) < 45
      → on_setlen (encode_line (b ∷ bs)) (writing setlen n before name [] files)
        ≡ some
            (writing next2last (length (encode_line (b ∷ bs))) (encode_line (b ∷ bs)) name [] files)
  unfolding on_setlen
  on_setlen-encode_line n b bs name before files short =
      on_active-encode_line b bs
        (writing active (length (encode_line (b ∷ bs))) before name [] files) short (omega arith)

  -- The first line sets the length.
  run-setlen :
      (n : ℕ) (fulls : List Bytes) (rest out name before : Bytes) (files : List (Bytes × Bytes))
      → All IsFull fulls
      → uudecodeline (held_at_end rest) ≡ some out
      → length rest < 45
      → Closes name
          (contents fulls out)
          files
          (run (body_lines fulls rest) (writing setlen n before name [] files))
  unfolding stream_loop on_line on_next2last
  run-setlen n [] [] out name before files f e short = run-setlen_empty n out name before files e
  run-setlen n [] (b ∷ bs) out name before files f e short =
      rw
        (
          cut_return-encode_line (b ∷ bs),
          on_setlen-encode_line n b bs name (redeclared before) files short,
        )
        (run-last (length (encode_line (b ∷ bs))) (redeclared (encode_line (b ∷ bs))) out name []
          files e)
  run-setlen n (full ∷ fulls) rest out name before files f e short =
      rw (cut_return-encode_line full, on_setlen-full n full name (redeclared before) files f.0)
        (run-body fulls rest out name full (redeclared before) files f.1 e short)

  on_begin-begin_line :
      (c : ℕ) (mode name : Bytes) (d : Decoder)
      → All IsBlack mode
      → is_space c ≡ false
      → 0 < c
      → All (λ c. in_name c ≡ true) (c ∷ name)
      → can_open (decode_fix_fname (c ∷ name)) ≡ true
      → on_begin decode_fix_fname can_open redeclared (begin_line mode (c ∷ name)) d
        ≡ goes_on (some (record d { ofp = some (decode_fix_fname (c ∷ name), []); phase = setlen }))
  unfolding on_begin
  on_begin-begin_line c mode name d black plain nonzero h opens =
      let there : (c == 0) ≡ false = ground arith in
      rw (skip-mode c mode name black plain, name_text-line (c ∷ name) h) (rw (there, opens) refl)

  pub run-begin :
      (c : ℕ) (mode name text : Bytes) (lines : List Bytes) (d : Decoder)
      → All IsBlack mode
      → is_space c ≡ false
      → 0 < c
      → All (λ c. in_name c ≡ true) (c ∷ name)
      → can_open (decode_fix_fname (c ∷ name)) ≡ true
      → Closes (decode_fix_fname (c ∷ name)) text d.closed (
          run lines (
            writing setlen d.line_length
              (redeclared d.lastline)
              (decode_fix_fname (c ∷ name))
              []
              d.closed))
      → Closes (decode_fix_fname (c ∷ name)) text d.closed (
          uudecode decode_fix_fname can_open redeclared in_file
            (begin_line mode (c ∷ name) ∷ lines)
            at_start
            d)
  unfolding uudecode stream_loop on_line on_start
  run-begin c mode name text lines d black plain nonzero h opens rest =
      rw
        (cut_return-NoReturn (begin_line mode (c ∷ name))
          (begin_line-NoReturn mode (c ∷ name) black h))
        (rw
          (on_begin-begin_line c mode name
            (record d { phase = at_start; lastline = redeclared d.lastline }) black plain nonzero h
            opens)
          rest)

  -- Let a file be encoded as a line of mode and name, full lines of 45 bytes, a line of the fewer
  -- bytes that are left, if there are any, a line of none, and `end`. A call of uudecode that starts
  -- to look for a file in these lines ends behind it and has written and closed the file. It holds
  -- the bytes of the full lines, and then those that `lastline` is decoded to, with what it holds
  -- after it was declared anew in each round since the last line was saved in it, where that can be
  -- decoded. The mode holds no white space; the name does not begin with white space and holds no
  -- other white space than blanks, and the file can be opened under it.
  pub uudecode-body_lines :
      (c : ℕ) (mode name rest out : Bytes) (fulls : List Bytes) (d : Decoder)
      → All IsBlack mode
      → is_space c ≡ false
      → 0 < c
      → All (λ c. in_name c ≡ true) (c ∷ name)
      → can_open (decode_fix_fname (c ∷ name)) ≡ true
      → All IsFull fulls
      → length rest < 45
      → uudecodeline (held_at_end rest) ≡ some out
      → Closes (decode_fix_fname (c ∷ name)) (contents fulls out) d.closed (
          uudecode decode_fix_fname can_open redeclared in_file
            (begin_line mode (c ∷ name) ∷ body_lines fulls rest)
            at_start
            d)
  uudecode-body_lines c mode name rest out fulls d black plain nonzero h opens f short e =
      run-begin c mode name (contents fulls out) (body_lines fulls rest) d black plain nonzero h
        opens
        (run-setlen d.line_length fulls rest out (decode_fix_fname (c ∷ name))
          (redeclared d.lastline) d.closed f e short)
