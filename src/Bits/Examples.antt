-- ===== src/Bits/Examples.antt =====
-- Inputs for bits_to_rc.
use trn_actions.Prelude.{
  ◌<◌, ◌≡◌, refl, ◌⊎◌, true, false, not, ◌||◌, none, some, arith, leb, ◌==◌, codes,
}
use trn_actions.Int.{pos, ◌+ℤ◌, ◌-ℤ◌}
use trn_actions.Newsrc.Numbers.{print_number}
use trn_actions.Newsrc.Groups.{NgData, print_ℤ}
use trn_actions.Newsrc.Edit.{answer}
use trn_actions.Bits.{
  article_first, write_ranges, more_read, first_unread, without_comma, article_was_read, bits_to_rc,
  nearest, Articles,
}
use trn_actions.Bits.Written.{bits_to_rc-was_read_group}
use trn_actions.Bits.Ends.{first_unread_ends}
use trn_actions.Newsrc.Handlers.{was_read_group}
use trn_actions.Bits.Marks.{
  Marking, check_first, onemore, oneless, onemissing, unmark_as_read, missing_loop,
  mark_missing_articles,
}
use trn_actions.Bits.Counted.{IsCounted}
use trn_actions.Bits.Steps.{Steps-IsCounted, unmarks, misses_all, no_step, further}
use trn_actions.Bits.Unread.{bits_to_rc-unread_among}

-- Articles 3 to 9 but 6, of which 5, 8 and 9 are unread.
abbrev articles : Articles
articles = record {
  article_hasdata = λ n. not (n == 6);
  article_unread = λ n. n == 5 || leb 8 n;
  high = 12;
  absfirst = 3;
  lastart = 9;
}

abbrev group : NgData
group = record {
  nums = codes " 1-4";
  numoffset = 5;
  abs1st = pos 3;
  ngmax = pos 9;
  toread = pos 0;
  subscribechar = b':';
  rc_changed = false;
}

written_line : (bits_to_rc articles group).nums ≡ codes " 1-4,6-7"
unfolding bits_to_rc first_unread article_first nearest write_ranges more_read without_comma print_ℤ
    print_number
written_line = refl

bits_to_rc-was_read_group_example :
    was_read_group (λ np. none) 7 (some (bits_to_rc articles group))
    ≡ answer (article_was_read articles 7)
bits_to_rc-was_read_group_example =
    bits_to_rc-was_read_group (λ np. none) articles group 7 9 (omega arith) (omega arith)
      (omega arith) (omega arith) (omega arith) refl (omega arith)

bits_to_rc-unread_among_example : (bits_to_rc articles group).toread ≡ pos 3
bits_to_rc-unread_among_example =
    bits_to_rc-unread_among articles group (omega arith) (omega arith) (omega arith) (ground arith)

first_unread_ends_example :
    (9 < first_unread articles 11 3) ⊎ (articles.article_unread (first_unread articles 11 3) ≡ true)
first_unread_ends_example = first_unread_ends articles 11 3 (omega arith) (omega arith)

-- Numbers 3 to 5, of which 4 is unread.
abbrev marked : Marking
marked = record {
  hasdata = λ n. true;
  article = λ n. record {
    unread = n == 4;
    exists = not (n == 4);
    del = false;
    selected = n == 4;
    has_re = false;
    yankback = false;
    cached = false;
    threaded = false;
    kchase = false;
    has_xrefs = true;
    subj = some 0;
  };
  subject = λ j. record { subject_selected = true; visit = false };
  toread = pos 1;
  selected_count = pos 1;
  missing_count = pos 0;
  chase_count = pos 0;
  dmcount = pos 0;
  checkcount = pos 0;
  firstart = 4;
  absfirst = 3;
  lastart = 5;
  selected_only = true;
  olden_days = false;
}

Steps-IsCounted_example : IsCounted 3 3 (mark_missing_articles (unmark_as_read 5 marked))
unfolding unmark_as_read onemore check_first
Steps-IsCounted_example =
    Steps-IsCounted 3 3 marked (mark_missing_articles (unmark_as_read 5 marked))
      (further (further no_step (unmarks {s = marked} {n = 5} (omega arith) (omega arith)))
        (misses_all {s = unmark_as_read 5 marked} (omega arith) (omega arith) (omega arith)))
      refl

missed_one : (mark_missing_articles (unmark_as_read 5 marked)).toread ≡ pos 1
unfolding mark_missing_articles missing_loop onemissing oneless unmark_as_read onemore check_first
    ◌+ℤ◌ ◌-ℤ◌
missed_one = refl
