-- ===== src/Bits.antt =====
-- bits.cpp: bits_to_rc, which writes the line of a newsgroup anew from the flags of its articles.
pub mod Segments
pub mod Reads
pub mod Written
pub mod Unread
pub mod Marks
pub mod Counted
pub mod Steps
pub mod Ends
mod Examples
use trn_actions.Prelude.{
  ℕ, zero, suc, ◌+◌, ◌-◌, Bool, true, false, not, ◌&&◌, ◌||◌, [], ◌∷◌, ◌++◌, Bytes, ltb, leb, ◌==◌,
  if◌then◌else◌,
}
use trn_actions.Int.{sub_ℕ, pos}
use trn_actions.Newsrc.Numbers.{print_number}
use trn_actions.Newsrc.Groups.{NgData, tr_unsub, negchar, print_ℤ}

-- g_article_list, as the numbers that have an item and its number `high`; the flag AF_UNREAD of the
-- items; g_absfirst and g_lastart.
pub record Articles : Type 0 where
  pub article_hasdata : ℕ → Bool
  pub article_unread : ℕ → Bool
  pub high : ℕ
  pub absfirst : ℕ
  pub lastart : ℕ

abbrev pub article_was_read : Articles → ℕ → Bool
article_was_read g an = not (g.article_hasdata an) || not (g.article_unread an)

-- The nearest number from `an` on that has an item, among so many numbers.
unfoldable pub nearest : Articles → ℕ → ℕ → ℕ
nearest g zero an = suc g.high
nearest g (suc n) an =
    let later = nearest g n (suc an) in if g.article_hasdata an then an else later

-- existing_listnum with the direction 1
unfoldable pub article_first : Articles → ℕ → ℕ
article_first g an = nearest g (suc g.high - an) an

abbrev pub article_next : Articles → ℕ → ℕ
article_next g an = article_first g (suc an)

-- The first loop. Each round goes to a higher number, so that g_lastart and two bound the rounds.
unfoldable pub first_unread : Articles → ℕ → ℕ → ℕ
first_unread g zero i = i
first_unread g (suc n) i =
    let later = first_unread g n (article_next g i) in
    if ltb g.lastart i then i else if g.article_unread i then i else later

-- `do i++; while (i <= g_lastart && was_read(i));`: how many more articles it passes, from the
-- second on
unfoldable pub more_read : Articles → ℕ → ℕ → ℕ
more_read g zero i = 0
more_read g (suc n) i =
    let more = more_read g n (suc i) in
    if leb i g.lastart && article_was_read g i then suc more else 0

-- The text of a range of `more` articles behind i.
abbrev pub print_range : ℕ → ℕ → Bytes → Bytes
print_range i zero rest = print_number i ++ (b',' ∷ rest)
print_range i (suc more) rest =
    print_number i ++ (b'-' ∷ (print_number (i + suc more) ++ (b',' ∷ rest)))

-- The second loop: what it writes, and `count`. A round takes an article at least, so that the
-- number of those left bounds the rounds.
unfoldable pub write_ranges : Articles → ℕ → ℕ → Bytes × ℕ
write_ranges g zero i = ([], 0)
write_ranges g (suc n) i = elim (ltb g.lastart i) [
  | true ↦ ([], 0)
  | false ↦ elim (article_was_read g i) [
    | false ↦ (let (text, count) = write_ranges g n (suc i) in (text, suc count))
    | true ↦
        (let more = more_read g n (suc i) in
          let (text, count) = write_ranges g n (suc i + more) in (print_range i more text, count))
  ]
]

-- `if (*(s-1) == ',') s--;`
unfoldable pub without_comma : Bytes → Bytes
without_comma [] = []
without_comma (c ∷ []) = if c == b',' then [] else c ∷ []
without_comma (c ∷ d ∷ s) = c ∷ without_comma (d ∷ s)

-- The line without the group's name, which stays.
unfoldable pub bits_to_rc : Articles → NgData → NgData
bits_to_rc g np =
    let i = first_unread g (2 + g.lastart) (article_first g g.absfirst) in
    let (text, count) = write_ranges g (suc g.lastart - i) i in
    record np {
      nums = without_comma (b' ' ∷ b'1' ∷ b'-' ∷ (print_ℤ (sub_ℕ i 1) ++ (b',' ∷ text)));
      toread = if np.subscribechar == negchar then tr_unsub else pos count;
      rc_changed = true;
    }
