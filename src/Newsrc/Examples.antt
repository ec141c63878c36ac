-- ===== src/Newsrc/Examples.antt =====
-- Inputs for the editing of .newsrc lines.
use trn_actions.Prelude.{
  ℕ, ◌+◌, ◌≤◌, ◌≡◌, refl, ◌≢◌, ◌⊎◌, true, false, Option, some, arith, Bytes, codes, length,
}
use trn_actions.Int.{ℤ, pos}
use trn_actions.Newsrc.Numbers.{print_number}
use trn_actions.Newsrc.Edit.{add_number, was_read, answer, unchanged, rewritten}
use trn_actions.Newsrc.Groups.{NgData, Counters, print_ℤ}
use trn_actions.Newsrc.Handlers.{all_read, set_toread}
use trn_actions.Newsrc.Agree.{add_number-was_read}
use trn_actions.Newsrc.Bounds.{add_number-mbuf_size}
use trn_actions.Newsrc.Counting.{IsReset, set_toread-all_read}

joins_ranges : add_number (codes " 1-4,6-9,12") 5 ≡ rewritten (codes " 1-9,12") 21
unfolding add_number
joins_ranges = refl

starts_range : add_number (codes " 3,7") 4 ≡ rewritten (codes " 3-4,7") 14
unfolding add_number
starts_range = refl

joins_singles : add_number (codes " 3,5") 4 ≡ rewritten (codes " 3-5") 14
unfolding add_number
joins_singles = refl

adds_at_end : add_number (codes " 1-4") 9 ≡ rewritten (codes " 1-4,9") 14
unfolding add_number
adds_at_end = refl

adds_first : add_number (codes " 5-6") 4 ≡ rewritten (codes " 4-6") 14
unfolding add_number
adds_first = refl

was_there : was_read (codes " 1-4,6") 6 ≡ answer true
unfolding was_read
was_there = refl

add_number-was_read_example :
    ((was_read (codes " 1-4,6-9,12") 5 ≡ answer true)
      × (add_number (codes " 1-4,6-9,12") 5 ≡ unchanged))
    ⊎ ((was_read (codes " 1-4,6-9,12") 5 ≡ answer false)
        × (line : Bytes) × (size : ℕ) × (add_number (codes " 1-4,6-9,12") 5 ≡ rewritten line size))
add_number-was_read_example = add_number-was_read (codes " 1-4,6-9,12") 5

adds_long : add_number (codes " 1-4") 12345678 ≡ rewritten (codes " 1-4,12345678") 14
unfolding add_number
adds_long = refl

add_number-mbuf_size_example : length (codes " 1-4,12345678") + 1 ≤ 14
add_number-mbuf_size_example =
    add_number-mbuf_size (codes " 1-4") (codes " 1-4,12345678") 12345678 14 (omega arith) adds_long

-- A group of ten articles, all read.
abbrev all_ten : NgData
all_ten = record {
  nums = codes " 1-10";
  numoffset = 10;
  abs1st = pos 1;
  ngmax = pos 10;
  toread = pos 0;
  subscribechar = b':';
  rc_changed = false;
}

abbrev counters : Counters
counters = record {
  newsgroup_toread = pos 3;
  missing_count = pos 0;
  ng_min_toread = pos 1;
  paranoid = false;
}

abbrev ten_known : NgData → Option (ℤ × ℤ)
ten_known np = some (pos 10, pos 1)

all_ten_line : all_ten.nums ≡ all_read ten_known (pos 10)
unfolding print_ℤ print_number
all_ten_line = refl

nonzero : all_ten.abs1st ≢ pos 0
nonzero = ground arith

set_toread-all_read_example : IsReset (set_toread ten_known all_ten false counters) 10
set_toread-all_read_example =
    set_toread-all_read ten_known all_ten false counters 10 (pos 1) (omega arith) all_ten_line
      (omega arith) nonzero refl refl
