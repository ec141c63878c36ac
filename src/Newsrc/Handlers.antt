-- ===== src/Newsrc/Handlers.antt =====
-- rcln.cpp: the functions that the rest of the program calls on a newsgroup. `find_actgrp` is the
-- lookup that getngsize makes; messages to the terminal are left out.
use trn_actions.Prelude.{
  ℕ, zero, suc, Bool, true, false, not, ◌&&◌, ◌||◌, Option, none, some, [], ◌∷◌, Bytes, ◌==◌,
  if◌then◌else◌,
}
use trn_actions.Int.{ℤ, ◌+ℤ◌, ◌-ℤ◌, leb_ℤ, ltb_ℤ, eq_ℤ, pos}
use trn_actions.StringAlgos.{is_space, skip_while}
use trn_actions.Newsrc.Edit.{
  add_number, Edit, unchanged, rewritten, never_ended, Answer, was_read, answer,
}
use trn_actions.Newsrc.Groups.{
  NgData, Counters, tr_unsub, tr_bogus, negchar, one, getngsize, print_ℤ, checkexpired, segments,
  Count, count_loop,
}

abbrev pub same_text : Bytes → Bytes → Bool
same_text [] [] = true
same_text [] (d ∷ t) = false
same_text (c ∷ s) [] = false
same_text (c ∷ s) (d ∷ t) = if c == d then same_text s t else false

module _ (find_actgrp : NgData → Option (ℤ × ℤ)) where
  -- The count over the ranges of the line.
  unfoldable pub counted : Bool → NgData → ℤ → Count
  counted lax np ngsize =
      count_loop lax (segments (skip_while is_space np.nums))
        (record { unread = ngsize; ngsize = ngsize; ngmax = np.ngmax; stopped = false })

  -- SOMEONE RESET THE NEWSGROUP: the line loses its numbers, and all counts as unread.
  abbrev pub reset : NgData → NgData
  reset np = record np { nums = []; rc_changed = true }

  -- The end of set_toread: the two counters, and the new count.
  abbrev pub settle : Bool → NgData → Counters → ℤ → NgData × Counters
  settle virgin np g unread =
      let np' = record np { toread = unread } in
      if leb_ℤ g.ng_min_toread unread
      then (
        np',
        if not virgin && ltb_ℤ np.toread g.ng_min_toread
            then record g { newsgroup_toread = g.newsgroup_toread +ℤ one }
            else g,
      )
      else if leb_ℤ unread (pos 0) && ltb_ℤ g.ng_min_toread np.toread
      then (
        np',
        record g {
          newsgroup_toread = g.newsgroup_toread -ℤ one;
          missing_count = if virgin then g.missing_count +ℤ one else g.missing_count;
        },
      )
      else (np', g)

  unfoldable pub recount : Bool → Bool → NgData → Counters → ℤ → NgData × Counters
  recount virgin lax np g ngsize =
      let c = counted lax np ngsize in
      let np' = record np { ngmax = c.ngmax } in
      let unsub = λ (unread : ℤ). if np.subscribechar == negchar then tr_unsub else unread in
      if ltb_ℤ c.unread (pos 0)
      then settle virgin (reset np') (record g { paranoid = true }) (unsub c.ngsize)
      else settle virgin np' g (unsub c.unread)

  -- The line of a group with no numbers but `1-ngsize`.
  abbrev pub all_read : ℤ → Bytes
  all_read ngsize = b' ' ∷ b'1' ∷ b'-' ∷ print_ℤ ngsize

  unfoldable pub set_toread : NgData → Bool → Counters → NgData × Counters
  unfolding recount getngsize checkexpired print_ℤ ◌+ℤ◌ ◌-ℤ◌
  set_toread np0 lax g0 =
      let virgin = eq_ℤ np0.abs1st (pos 0) in
      let (np, g, ngsize) = getngsize find_actgrp np0 g0 in
      if eq_ℤ ngsize tr_bogus
      then (
        record np { toread = tr_bogus },
        if virgin || leb_ℤ g.ng_min_toread np.toread
            then record g {
              paranoid = true;
              newsgroup_toread = g.newsgroup_toread -ℤ one;
              missing_count = g.missing_count +ℤ one;
            }
            else record g { paranoid = true },
      )
      else recount virgin lax
          (if virgin && not (same_text (all_read ngsize) np.nums)
            then checkexpired np np.abs1st
            else np)
          g ngsize

  -- The group after a call of addartnum whose number was added.
  abbrev pub added : NgData → Bytes → NgData
  added np line = record np {
    nums = line;
    toread = if ltb_ℤ (pos 0) np.toread then np.toread -ℤ one else np.toread;
  }

  abbrev pub add_found : NgData → ℕ → Edit → NgData
  add_found np artnum unchanged = np
  add_found np artnum (rewritten line size) = added np line
  add_found np artnum never_ended = np

  abbrev pub raise_max : NgData → ℕ → NgData
  raise_max np artnum =
      if ltb_ℤ np.ngmax (pos artnum)
      then record np {
        ngmax = pos artnum;
        toread =
            if ltb_ℤ (pos 0) np.toread then np.toread +ℤ (pos artnum -ℤ np.ngmax) else np.toread;
      }
      else np

  -- addartnum behind its first set_toread
  unfoldable pub add_to_group : NgData → ℕ → NgData
  unfolding add_number ◌+ℤ◌ ◌-ℤ◌
  add_to_group np artnum =
      if eq_ℤ np.toread tr_bogus
      then np
      else let np' = raise_max np artnum in add_found np' artnum (add_number np'.nums artnum)

  -- `np` is what find_ng finds; `same_source` is that the group's source is the article's.
  unfoldable pub addartnum : Bool → ℕ → Option NgData → Counters → Option NgData × Counters
  unfolding add_to_group set_toread
  addartnum same_source artnum none g = (none, g)
  addartnum same_source artnum (some np) g =
      if artnum == 0 || (not same_source || np.numoffset == 0)
      then (some np, g)
      else let (np', g') = if eq_ℤ np.abs1st (pos 0) then set_toread np true g else (np, g) in
        (some (add_to_group np' artnum), g')

  unfoldable pub was_read_group : ℕ → Option NgData → Answer
  unfolding was_read
  was_read_group artnum none = answer true
  was_read_group artnum (some np) =
      if artnum == 0
      then answer true
      else if np.numoffset == 0
      then answer false
      else if eq_ℤ np.toread tr_bogus
      then answer true
      else if ltb_ℤ np.ngmax (pos artnum)
      then answer false
      else was_read np.nums artnum

  -- `leave_count` is how many articles stay unread. Writing the newsrc files comes behind it.
  unfoldable pub catch_up : NgData → ℕ → Counters → NgData × Counters
  unfolding set_toread getngsize checkexpired print_ℤ ◌+ℤ◌ ◌-ℤ◌
  catch_up np zero g =
      let (np', g', ngsize) = getngsize find_actgrp np g in
      (
        record np' { nums = all_read ngsize; toread = pos 0; rc_changed = true },
        if ltb_ℤ (pos 0) g'.ng_min_toread && ltb_ℤ (pos 0) np'.toread
            then record g' { newsgroup_toread = g'.newsgroup_toread -ℤ one }
            else g',
      )
  catch_up np (suc n) g =
      let (np', g', ngsize) = getngsize find_actgrp np g in
      let (np'', g'') = set_toread (checkexpired np' (ngsize -ℤ pos (suc n) +ℤ one)) false g' in
      (record np'' { rc_changed = true }, g'')
