-- ===== src/Util/Examples.antt =====
-- Inputs for the texts of times.
use trn_actions.Prelude.{ℕ, ◌+◌, ◌*◌, ◌≡◌, refl, none, some, ◌++◌, arith, Bytes, codes}
use trn_actions.Newsrc.Numbers.{digits_value}
use trn_actions.StringAlgos.{skip_while}
use trn_actions.Util.{text2secs, items_loop, secs2text, one_item, time_part, cut_two}
use trn_actions.Util.Times.{text2secs-secs2text}
use trn_actions.Util.Ends.{text2secs_ends}

-- The ending of the minutes is chosen by the number of hours.
secs2text-hours :
    secs2text (121 * 60) 7
    ≡ cut_two (time_part 2 (codes "hour") 2 ++ time_part 1 (codes "minute") 2)
unfolding secs2text
secs2text-hours = refl

-- Less than a minute: a byte before the buffer is written.
secs2text-short : secs2text 4 7 ≡ none
unfolding secs2text
secs2text-short = refl

text2secs-mixed : text2secs (codes "2H,5 m 1day") 0 ≡ some ((120 + 5 + 1440) * 60)
unfolding text2secs items_loop one_item digits_value skip_while
text2secs-mixed = refl

text2secs-secs2text_example :
    (t : Bytes) × (secs2text (1501 * 60) 7 ≡ some t) × (text2secs t 9 ≡ some (1501 * 60))
text2secs-secs2text_example = text2secs-secs2text 1501 7 9 (omega arith) (omega arith)

text2secs_ends_example : (n : ℕ) × (text2secs (codes "2H,5 m 1day") 0 ≡ some n)
text2secs_ends_example = text2secs_ends (codes "2H,5 m 1day") 0
