-- ===== src/Bits/Marks.antt =====
-- bits.cpp: marking articles read and unread, with the counters that follow.
use trn_actions.Prelude.{
  ℕ, zero, suc, ◌-◌, Bool, true, false, not, ◌&&◌, Option, none, some, ltb, leb, ◌==◌,
  if◌then◌else◌,
}
use trn_actions.Int.{ℤ, ◌+ℤ◌, ◌-ℤ◌, ltb_ℤ, pos}
use trn_actions.Newsrc.Groups.{one}

-- The flags of an ARTICLE that these functions use; `selected` is the one that g_sel_mask names,
-- `has_xrefs` whether xrefs is there and not empty, and `subj` a number for the subject.
pub record Article : Type 0 where
  pub unread : Bool
  pub exists : Bool
  pub del : Bool
  pub selected : Bool
  pub has_re : Bool
  pub yankback : Bool
  pub cached : Bool
  pub threaded : Bool
  pub kchase : Bool
  pub has_xrefs : Bool
  pub subj : Option ℕ

pub record Subject : Type 0 where
  pub subject_selected : Bool
  pub visit : Bool

-- The items by their numbers, the subjects, and the global variables.
pub record Marking : Type 0 where
  pub hasdata : ℕ → Bool
  pub article : ℕ → Article
  pub subject : ℕ → Subject
  pub toread : ℤ
  pub selected_count : ℤ
  pub missing_count : ℤ
  pub chase_count : ℤ
  pub dmcount : ℤ
  pub checkcount : ℤ
  pub firstart : ℕ
  pub absfirst : ℕ
  pub lastart : ℕ
  pub selected_only : Bool
  pub olden_days : Bool

abbrev pub set_article : ℕ → Article → (ℕ → Article) → ℕ → Article
set_article n a art k = if k == n then a else art k

abbrev pub with_article : ℕ → Article → Marking → Marking
with_article n a s = record s { article = set_article n a s.article }

-- check_first
unfoldable pub check_first : ℕ → Marking → Marking
check_first low s =
    let least = if ltb low s.absfirst then s.absfirst else low in
    if ltb least s.firstart then record s { firstart = least } else s

abbrev visit_subject : ℕ → Marking → Marking
visit_subject j s = record s {
  subject = λ k.
      if k == j
      then record { subject_selected = (s.subject j).subject_selected; visit = true }
      else s.subject k;
}

-- The part of onemore for the article's subject.
abbrev pub onemore_subject : ℕ → Option ℕ → Marking → Marking
onemore_subject n none s = s
onemore_subject n (some j) s =
    if s.selected_only
    then (if (s.subject j).subject_selected
        then record s {
          article = set_article n (record (s.article n) { selected = true }) s.article;
          selected_count = s.selected_count +ℤ one;
        }
        else s)
    else visit_subject j s

unfoldable pub onemore : ℕ → Marking → Marking
onemore n s =
    if (s.article n).unread
    then s
    else let c = check_first n s in
      onemore_subject n (s.article n).subj (record c {
        article = set_article n (record (c.article n) { unread = true; del = false }) c.article;
        toread = c.toread +ℤ one;
      })

unfoldable pub oneless : ℕ → Marking → Marking
oneless n s =
    if (s.article n).unread
    then record s {
      article = set_article n (record (s.article n) { unread = false; selected = false }) s.article;
      selected_count = if (s.article n).selected then s.selected_count -ℤ one else s.selected_count;
      toread = if ltb_ℤ (pos 0) s.toread then s.toread -ℤ one else s.toread;
    }
    else s

-- article_find, then oneless
unfoldable pub oneless_artnum : ℕ → Marking → Marking
oneless_artnum n s = if leb n s.lastart && s.hasdata n then oneless n s else s

unfoldable pub onemissing : ℕ → Marking → Marking
onemissing n s =
    let counted = record s {
      missing_count = if (s.article n).unread then s.missing_count +ℤ one else s.missing_count;
    } in
    let read = oneless n counted in
    with_article n
      (record (read.article n) {
        has_re = false;
        yankback = false;
        exists = false;
        cached = true;
        threaded = true;
      })
      read

unfoldable pub unmark_as_read : ℕ → Marking → Marking
unmark_as_read n s = onemore n s

-- `!empty(ap->xrefs) && !(ap->flags & AF_KCHASE)`
abbrev pub chase : ℕ → Marking → Marking
chase n s =
    if (s.article n).has_xrefs && not (s.article n).kchase
    then record s {
      article = set_article n (record (s.article n) { kchase = true }) s.article;
      chase_count = s.chase_count +ℤ one;
    }
    else s

unfoldable pub set_read : ℕ → Marking → Marking
set_read n s = let read = oneless n s in if read.olden_days then read else chase n read

unfoldable pub delay_unmark : ℕ → Marking → Marking
delay_unmark n s = if (s.article n).yankback then s else record s {
  article = set_article n (record (s.article n) { yankback = true }) s.article;
  dmcount = s.dmcount +ℤ one;
}

unfoldable pub mark_as_read : ℕ → Marking → Marking
mark_as_read n s =
    let chased = chase n (oneless n s) in record chased { checkcount = chased.checkcount +ℤ one }

-- The loop over the items from i on, which takes as many rounds as there are numbers.
unfoldable pub missing_loop : ℕ → ℕ → Marking → Marking
missing_loop zero i s = s
missing_loop (suc n) i s =
    missing_loop n (suc i) (if s.hasdata i && not (s.article i).exists then onemissing i s else s)

unfoldable pub mark_missing_articles : Marking → Marking
mark_missing_articles s = missing_loop (suc s.lastart - s.absfirst) s.absfirst s
