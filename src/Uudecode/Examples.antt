-- ===== src/Uudecode/Examples.antt =====
-- Lines and streams of uuencoded text.
use trn_actions.Uudecode.Begin.{begin_line}
use trn_actions.Prelude.{
  ◌≡◌, refl, true, false, none, some, [], ◌∷◌, ◌++◌, arith, Bytes, codes, replicate,
}
use trn_actions.Uudecode.{uudecodeline}
use trn_actions.Uudecode.Lines.{encode_line, uudecodeline-encode_line}
use trn_actions.Uudecode.Direct.{full_lines, uudecode-full_lines}
use trn_actions.Uudecode.Whole.{body_lines, contents, in_file, Closes, uudecode-body_lines}
use trn_actions.Int.{pos, negsuc}
use trn_actions.Newsrc.Numbers.{print_number}
use trn_actions.Uudecode.Prescan.{Part, found, uue_prescan}
use trn_actions.Uudecode.Parts.{file_text, uue_prescan-section_parts}
use trn_actions.Uudecode.Stream.{Decoder, uudecode, at_start, maybedone}

cat_line : uudecodeline (codes "#0V%T\n") ≡ some (codes "Cat")
unfolding uudecodeline
cat_line = refl

-- Blanks at the end of the line were lost.
short_line : uudecodeline (codes "#0V%\n") ≡ some (b'C' ∷ b'a' ∷ 64 ∷ [])
unfolding uudecodeline
short_line = refl

abbrev idle : Decoder
idle = record { phase = at_start; line_length = 0; lastline = []; ofp = none; closed = [] }

finds_file :
    uudecode
      (λ s. s)
      (λ s. true)
      (λ s. s)
      (λ s. false)
      (codes "noise\n"
        ∷ codes "begin 644 cat.txt\n"
        ∷ codes "#0V%T\n"
        ∷ codes "`\n"
        ∷ codes "end\n"
        ∷ [])
      at_start
      idle
    ≡ some (
      maybedone,
      record {
        phase = maybedone;
        line_length = 6;
        lastline = codes "#0V%T\n";
        ofp = none;
        closed = (codes "cat.txt", codes "Cat") ∷ [];
      },
    )
unfolding uudecode
finds_file = refl

uudecodeline-encode_line_example :
    uudecodeline (encode_line (codes "A cat.")) ≡ some (codes "A cat.")
uudecodeline-encode_line_example =
    uudecodeline-encode_line (codes "A cat.") (ground arith) (omega arith)

-- A file of one full line and three more bytes.
abbrev full_line : Bytes
full_line = replicate 45 b'x'

-- Where the memory of `lastline` keeps what it holds.
uudecode-body_lines_example :
    Closes (codes "cat.txt") (contents (full_line ∷ []) (codes "Cat")) idle.closed (
      uudecode
        (λ s. s)
        (λ s. true)
        (λ s. s)
        in_file
        (begin_line (codes "644") (codes "cat.txt") ∷ body_lines (full_line ∷ []) (codes "Cat"))
        at_start
        idle)
uudecode-body_lines_example =
    uudecode-body_lines (λ s. s) (λ s. true) (λ s. s) b'c' (codes "644") (codes "at.txt")
      (codes "Cat") (codes "Cat") (full_line ∷ []) idle (ground arith) refl (omega arith)
      (ground arith) refl (ground arith) (omega arith)
      (uudecodeline-encode_line (codes "Cat") (ground arith) (omega arith))

-- Where it is always overwritten.
uudecode-full_lines_example : Closes (codes "cat.txt") (contents (full_line ∷ []) []) idle.closed (
    uudecode
      (λ s. s)
      (λ s. true)
      (λ s. [])
      in_file
      (begin_line (codes "600") (codes "cat.txt") ∷ full_lines (full_line ∷ []))
      at_start
      idle)
uudecode-full_lines_example =
    uudecode-full_lines (λ s. s) (λ s. true) (λ s. []) b'c' (codes "600") (codes "at.txt")
      (full_line ∷ []) idle (ground arith) refl (omega arith) (ground arith) refl (ground arith)

abbrev no_part : Part
no_part = record { filename = none; part = negsuc 0; total = pos 0 }

posted :
    uue_prescan 80 (codes "POST V1.2 cat.gif (Part 2/5)") no_part
    ≡ found (some (codes "cat.gif")) (pos 2) (pos 5)
unfolding uue_prescan
posted = refl

in_parts :
    uue_prescan 80 (codes "File: cat.gif -- part 2 of 5 -- x") no_part
    ≡ found (some (codes "cat.gif")) (pos 2) (pos 5)
unfolding uue_prescan
in_parts = refl

of_file :
    uue_prescan 80 (codes "section 2 of shar of file cat.gif x") no_part
    ≡ found (some (codes "cat.gif")) (pos 2) (pos 0)
unfolding uue_prescan
of_file = refl

uue_prescan-section_parts_example :
    uue_prescan 80
      (codes "[Section: "
        ++ (print_number 2 ++ b'/' ∷ (print_number 5 ++ file_text (codes "cat.gif") (codes "x"))))
      no_part
    ≡ found (some (codes "cat.gif")) (pos 2) (pos 5)
uue_prescan-section_parts_example =
    uue_prescan-section_parts 80 2 5 (codes "cat.gif") (codes "x") no_part (omega arith)
      (omega arith) (omega arith) (ground arith)
