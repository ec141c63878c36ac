-- ===== src/Bits/Ends.antt =====
-- bits.cpp: the bound on the rounds of the first loop of bits_to_rc is enough.
use trn_actions.Prelude.{
  ℕ, zero, suc, ◌+◌, ◌≤◌, ◌<◌, ◌≡◌, ◌⊎◌, inl, inr, true, arith, ltb, ltb→lt, Bool-cases,
}
use trn_actions.Bits.{first_unread, article_next, Articles}
use trn_actions.Bits.Unread.{article_first-ge}

-- Where the list of articles reaches the last of the newsgroup, the first loop, given as many
-- rounds as lead behind the last article, ends there or at an unread article.
pub first_unread_ends :
    (g : Articles) (n i : ℕ)
    → g.lastart ≤ g.high
    → g.lastart < i + n
    → (g.lastart < first_unread g n i) ⊎ (g.article_unread (first_unread g n i) ≡ true)
unfolding first_unread
first_unread_ends g zero i reach room = inl (omega (arith, room))
first_unread_ends g (suc n) i reach room = elim (Bool-cases (ltb g.lastart i)) [
  | inl e ↦ rw e (inl (ltb→lt g.lastart i e))
  | inr e ↦ elim (Bool-cases (g.article_unread i)) [
    | inl u ↦ rw (e, u) (inr u)
    | inr u ↦
        let further = article_first-ge g (suc i) (ground (arith, e, reach)) in
        rw (e, u) (first_unread_ends g n (article_next g i) reach (omega (arith, further, room)))
  ]
]
