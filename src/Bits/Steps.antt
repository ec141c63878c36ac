-- ===== src/Bits/Steps.antt =====
-- bits.cpp: the changes of marks as steps, and what holds after any sequence of them.
use trn_actions.Prelude.{
  ℕ, zero, suc, ◌+◌, ◌-◌, ◌≤◌, ◌<◌, not, ◌&&◌, arith, leb, if◌then◌else◌, if_else,
}
use trn_actions.Bits.Marks.{
  Marking, oneless_artnum, onemissing, unmark_as_read, set_read, delay_unmark, mark_as_read,
  missing_loop, mark_missing_articles,
}
use trn_actions.Bits.Counted.{
  IsCounted, oneless-IsCounted, onemore-IsCounted, onemissing-IsCounted, set_read-IsCounted,
  mark_as_read-IsCounted, delay_unmark-IsCounted,
}

-- A call for an article whose number is one of `size` from lo on.
pub data Step (lo size : ℕ) : Marking → Marking → Type 0 where
  reads : {s : Marking} {n : ℕ} → lo ≤ n → n < lo + size → Step lo size s (mark_as_read n s)
  sets_read : {s : Marking} {n : ℕ} → lo ≤ n → n < lo + size → Step lo size s (set_read n s)
  reads_number :
      {s : Marking} {n : ℕ} → lo ≤ n → n < lo + size → Step lo size s (oneless_artnum n s)
  unmarks : {s : Marking} {n : ℕ} → lo ≤ n → n < lo + size → Step lo size s (unmark_as_read n s)
  misses : {s : Marking} {n : ℕ} → lo ≤ n → n < lo + size → Step lo size s (onemissing n s)
  delays : {s : Marking} {n : ℕ} → lo ≤ n → n < lo + size → Step lo size s (delay_unmark n s)
  misses_all :
      {s : Marking}
      → lo ≤ s.absfirst
      → s.absfirst ≤ lo + size
      → suc s.lastart ≤ lo + size
      → Step lo size s (mark_missing_articles s)

pub data Steps (lo size : ℕ) (s : Marking) : Marking → Type 0 where
  no_step : Steps lo size s s
  further : {t u : Marking} → Steps lo size s t → Step lo size t u → Steps lo size s u

missing_loop-IsCounted :
    (lo size n i : ℕ) (s : Marking)
    → lo ≤ i
    → i + n ≤ lo + size
    → IsCounted lo size s
    → IsCounted lo size (missing_loop n i s)
unfolding missing_loop
missing_loop-IsCounted lo size zero i s from room h = h
missing_loop-IsCounted lo size (suc n) i s from room h =
    missing_loop-IsCounted lo size n (suc i)
      (if s.hasdata i && not (s.article i).exists then onemissing i s else s) (omega (arith, from))
      (omega (arith, room))
      (if_else (IsCounted lo size) (s.hasdata i && not (s.article i).exists)
        (onemissing-IsCounted lo size i from (omega (arith, room)) s h) h)

Step-IsCounted :
    (lo size : ℕ) (s t : Marking) → Step lo size s t → IsCounted lo size s → IsCounted lo size t
unfolding oneless_artnum unmark_as_read mark_missing_articles
Step-IsCounted lo size s t (reads {n = n} from below) h =
    mark_as_read-IsCounted lo size n from below s h
Step-IsCounted lo size s t (sets_read {n = n} from below) h =
    set_read-IsCounted lo size n from below s h
Step-IsCounted lo size s t (reads_number {n = n} from below) h =
    if_else (IsCounted lo size) (leb n s.lastart && s.hasdata n)
      (oneless-IsCounted lo size n from below s h) h
Step-IsCounted lo size s t (unmarks {n = n} from below) h =
    onemore-IsCounted lo size n from below s h
Step-IsCounted lo size s t (misses {n = n} from below) h =
    onemissing-IsCounted lo size n from below s h
Step-IsCounted lo size s t (delays {n = n} from below) h =
    delay_unmark-IsCounted lo size n from below s h
Step-IsCounted lo size s t (misses_all from begin top) h =
    missing_loop-IsCounted lo size (suc s.lastart - s.absfirst) s.absfirst s from
      (omega (arith, begin, top)) h

-- After any sequence of calls that mark articles of a range of numbers, toread is the number of
-- unread articles in the range, if it was so before.
pub Steps-IsCounted :
    (lo size : ℕ) (s t : Marking) → Steps lo size s t → IsCounted lo size s → IsCounted lo size t
Steps-IsCounted lo size s t no_step h = h
Steps-IsCounted lo size s u (further {t = t} before step) h =
    Step-IsCounted lo size t u step (Steps-IsCounted lo size s t before h)
