-- ===== src/Newsrc/Groups.antt =====
-- rcln.cpp and getngsize of ngdata.cpp: a newsgroup's line, its expired articles, and its count of
-- unread articles.
use trn_actions.Prelude.{
  ℕ, zero, suc, Bool, true, false, not, ◌&&◌, Option, none, some, List, [], ◌∷◌, ◌++◌, Bytes, ◌==◌,
  if◌then◌else◌, length,
}
use trn_actions.Int.{ℤ, ◌+ℤ◌, ◌-ℤ◌, leb_ℤ, ltb_ℤ, eq_ℤ, pos, negsuc}
use trn_actions.StringAlgos.{is_digit, is_space, skip_while}
use trn_actions.Newsrc.Numbers.{atol, print_number}
use trn_actions.Newsrc.Edit.{upto, last_char}

-- NGDATA: `nums` is the text from rcline + numoffset; `rc_changed` is RF_RCCHANGED of its newsrc.
pub record NgData : Type 0 where
  pub nums : Bytes
  pub numoffset : ℕ
  pub abs1st : ℤ
  pub ngmax : ℤ
  pub toread : ℤ
  pub subscribechar : ℕ
  pub rc_changed : Bool

-- g_newsgroup_toread, g_missing_count, g_ng_min_toread, g_paranoid
pub record Counters : Type 0 where
  pub newsgroup_toread : ℤ
  pub missing_count : ℤ
  pub ng_min_toread : ℤ
  pub paranoid : Bool

abbrev pub tr_unsub : ℤ
tr_unsub = negsuc 0

abbrev pub tr_bogus : ℤ
tr_bogus = negsuc 2

abbrev pub negchar : ℕ
negchar = b'!'

abbrev pub one : ℤ
one = pos 1

-- `find_actgrp` looks the group up on the server, or in the active file: the highest and the lowest
-- number of its line there, if it is there. The texts about moderation are left out.
unfoldable pub size_found : NgData → Counters → Option (ℤ × ℤ) → NgData × Counters × ℤ
unfolding ◌-ℤ◌
size_found np g none =
    if np.subscribechar == b':'
    then (
      record np { subscribechar = negchar; rc_changed = true },
      record g { newsgroup_toread = g.newsgroup_toread -ℤ one },
      tr_bogus,
    )
    else (np, g, tr_bogus)
size_found np g (some (last, first)) =
    let np' = record np { abs1st = if eq_ℤ np.abs1st (pos 0) then first else np.abs1st } in
    if leb_ℤ last np.ngmax then (np', g, np.ngmax) else (record np' { ngmax = last }, g, last)

unfoldable pub getngsize : (NgData → Option (ℤ × ℤ)) → NgData → Counters → NgData × Counters × ℤ
unfolding size_found
getngsize find_actgrp np g = size_found np g (find_actgrp np)

unfoldable pub print_ℤ : ℤ → Bytes
print_ℤ (pos n) = print_number n
print_ℤ (negsuc n) = b'-' ∷ print_number (suc n)

-- The loop of checkexpired: the text from `s`, the text before it, and `lastnum`.
expire_loop : ℕ → ℤ → Bytes → Bytes → ℤ → Bytes × Bytes × ℤ
expire_loop zero a1st before s lastnum = (before, s, lastnum)
expire_loop (suc f) a1st before [] lastnum = (before, [], lastnum)
expire_loop (suc f) a1st before (c ∷ s) lastnum =
    let t = skip_while (λ d. not (is_digit d)) (skip_while is_digit (c ∷ s)) in
    let rest = expire_loop f a1st (before ++ upto (c ∷ s) t) t (atol (c ∷ s)) in
    if leb_ℤ (atol (c ∷ s)) a1st then rest else (before, c ∷ s, lastnum)

abbrev pub is_empty : Bytes → Bool
is_empty [] = true
is_empty (c ∷ s) = false

-- The numbers after checkexpired; `none` where they stay as they are.
unfoldable pub expired : Bytes → ℤ → Option Bytes
unfolding expire_loop skip_while atol print_ℤ print_number ◌-ℤ◌
expired nums a1st =
    let s = skip_while is_space nums in
    let (before, rest, lastnum) = expire_loop (length nums) a1st (upto nums s) s (pos 0) in
    let first = b' ' ∷ b'1' ∷ b'-' ∷ print_ℤ (if eq_ℤ lastnum a1st then a1st else a1st -ℤ one) in
    if leb_ℤ a1st one
    then none
    else if not (is_empty rest) && last_char before == b'-'
    then (if eq_ℤ lastnum one then none else some (b' ' ∷ b'1' ∷ b'-' ∷ rest))
    else some (first ++ (if is_empty rest then [] else b',' ∷ rest))

unfoldable pub checkexpired : NgData → ℤ → NgData
unfolding expired
checkexpired np a1st = elim (expired np.nums a1st) [
  | none ↦ np
  | some nums ↦ record np { nums = nums; rc_changed = true }
]

abbrev pub onto : ℕ → List Bytes → List Bytes
onto c [] = (c ∷ []) ∷ []
onto c (piece ∷ pieces) = (c ∷ piece) ∷ pieces

-- The pieces between the commas, of a text that a comma ends.
unfoldable pub segments : Bytes → List Bytes
segments [] = [] ∷ []
segments (c ∷ s) = if c == b',' then [] ∷ segments s else onto c (segments s)

-- strchr(s, '-') + 1
unfoldable pub after_dash : Bytes → Option Bytes
after_dash [] = none
after_dash (c ∷ s) = if c == b'-' then some s else after_dash s

pub record Count : Type 0 where
  pub unread : ℤ
  pub ngsize : ℤ
  pub ngmax : ℤ
  pub stopped : Bool

-- The end of a range, or the number, and what `unread` is after the range is taken off.
abbrev pub take_range : Bytes → Option Bytes → ℤ → ℤ × ℤ
take_range s none unread = (atol s, unread)
take_range s (some h) unread = (atol h, unread -ℤ (atol h -ℤ atol s +ℤ one))

-- One round of the loop of set_toread. The second `unread--` is made for a range too.
unfoldable pub count_segment : Bool → Bytes → Count → Count
count_segment lax s c =
    let (newmax, unread) = take_range s (after_dash s) c.unread in
    let unread' = if eq_ℤ newmax (pos 0) then unread else unread -ℤ one in
    if ltb_ℤ c.ngsize newmax
    then (if not lax then record c { unread = negsuc 0; stopped = true } else record {
      unread = unread' +ℤ (newmax -ℤ c.ngsize);
      ngsize = newmax;
      ngmax = newmax;
      stopped = false;
    })
    else record c { unread = unread' }

unfoldable pub count_loop : Bool → List Bytes → Count → Count
count_loop lax [] c = c
count_loop lax (s ∷ ss) c =
    let rest = count_loop lax ss (count_segment lax s c) in
    if (count_segment lax s c).stopped then count_segment lax s c else rest
