-- ===== src/Uudecode/Direct.antt =====
-- uudecode.cpp: what uudecode writes where `end` stands right behind the full lines.
use trn_actions.Prelude.{
  ℕ, ◌<◌, ◌≡◌, refl, subst, Bool, true, false, List, [], ◌∷◌, ◌++◌, append-nil, append_assoc, Bytes,
  All,
}
use trn_actions.StringAlgos.{is_space}
use trn_actions.Uudecode.Begin.{IsBlack, begin_line}
use trn_actions.Uudecode.Lines.{encode_line}
use trn_actions.Uudecode.Encoded.{cut_return-encode_line}
use trn_actions.Uudecode.Stream.{
  Decoder, on_active, on_setlen, in_name, on_line, stream_loop, uudecode, at_start, setlen, active,
}
use trn_actions.Uudecode.Whole.{
  end_line, contents, IsFull, in_file, writing, Closes, run, on_active-full, on_setlen-full,
  run-begin,
}

-- Full lines and, right behind them, the end.
abbrev pub full_lines : List Bytes → List Bytes
full_lines [] = end_line ∷ []
full_lines (full ∷ fulls) = encode_line full ∷ full_lines fulls

module _ (decode_fix_fname : Bytes → Bytes) (can_open : Bytes → Bool)
    (redeclared : Bytes → Bytes) where
  -- `end` right behind full lines.
  run-ends :
      (fulls : List Bytes) (name text before : Bytes) (files : List (Bytes × Bytes))
      → All IsFull fulls
      → Closes name (text ++ contents fulls []) files (
          run decode_fix_fname can_open redeclared
            (full_lines fulls)
            (writing active 62 before name text files))
  unfolding stream_loop on_line on_active
  run-ends [] name text before files f = (_, refl, rw (append-nil text) refl, refl)
  run-ends (full ∷ fulls) name text before files f =
      rw
        (
          cut_return-encode_line full,
          on_active-full decode_fix_fname can_open redeclared full name text (redeclared before)
              files f.0,
        )
        (subst
          (λ (t : Bytes). Closes name t files (
            run decode_fix_fname can_open redeclared (full_lines fulls)
              (writing active 62 (redeclared before) name (text ++ full) files)))
          (append_assoc text full (contents fulls []))
          (run-ends fulls name (text ++ full) (redeclared before) files f.1))

  run-setlen_ends :
      (n : ℕ) (fulls : List Bytes) (name before : Bytes) (files : List (Bytes × Bytes))
      → All IsFull fulls
      → Closes name (contents fulls []) files (
          run decode_fix_fname can_open redeclared
            (full_lines fulls)
            (writing setlen n before name [] files))
  unfolding stream_loop on_line on_setlen on_active
  run-setlen_ends n [] name before files f = (_, refl, refl, refl)
  run-setlen_ends n (full ∷ fulls) name before files f = rw (cut_return-encode_line full) (
      rw
        (on_setlen-full decode_fix_fname can_open redeclared n full name (redeclared before) files
          f.0)
        (run-ends fulls name full (redeclared before) files f.1))

  -- Let a file of full lines be encoded as a line of mode and name, these lines and, right behind
  -- them, `end`. A call of uudecode that starts to look for a file in these lines ends behind it and
  -- has written and closed the file, with the contents it had, whatever `lastline` holds. The mode
  -- holds no white space; the name does not begin with white space and holds no other white space
  -- than blanks, and the file can be opened under it.
  pub uudecode-full_lines :
      (c : ℕ) (mode name : Bytes) (fulls : List Bytes) (d : Decoder)
      → All IsBlack mode
      → is_space c ≡ false
      → 0 < c
      → All (λ c. in_name c ≡ true) (c ∷ name)
      → can_open (decode_fix_fname (c ∷ name)) ≡ true
      → All IsFull fulls
      → Closes (decode_fix_fname (c ∷ name)) (contents fulls []) d.closed (
          uudecode decode_fix_fname can_open redeclared in_file
            (begin_line mode (c ∷ name) ∷ full_lines fulls)
            at_start
            d)
  uudecode-full_lines c mode name fulls d black plain nonzero h opens f =
      run-begin decode_fix_fname can_open redeclared c mode name (contents fulls [])
        (full_lines fulls) d black plain nonzero h opens
        (run-setlen_ends d.line_length fulls (decode_fix_fname (c ∷ name)) (redeclared d.lastline)
          d.closed f)
