-- ===== src/Bits/Unread.antt =====
-- bits.cpp: the number of unread articles that bits_to_rc counts.
use trn_actions.Prelude.{
  ℕ, zero, suc, ◌+◌, ◌-◌, ◌≤◌, ◌<◌, ◌≡◌, refl, sym, ap, ap₂, ◌∙◌, ◌≢◌, inl, inr, true, false, arith,
  ltb, leb, ◌==◌, if◌then◌else◌, leb→le, Bool-cases,
}
use trn_actions.Int.{pos}
use trn_actions.Newsrc.Groups.{NgData, negchar}
use trn_actions.Bits.Reads.{run-IsRead}
use trn_actions.Bits.Written.{text_start, passed_lem}
use trn_actions.Bits.{
  article_was_read, more_read, write_ranges, Articles, bits_to_rc, article_next, nearest,
  first_unread, article_first,
}

module _ (g : Articles) where
  -- How many of n numbers from i on are those of unread articles.
  abbrev pub unread_among : ℕ → ℕ → ℕ
  unread_among zero i = 0
  unread_among (suc n) i =
      if article_was_read g i then unread_among n (suc i) else suc (unread_among n (suc i))

  -- Numbers that are all read count for nothing.
  unread_among-skip :
      (k m i : ℕ)
      → ((a : ℕ) → i ≤ a → a < i + k → article_was_read g a ≡ true)
      → unread_among (k + m) i ≡ unread_among m (i + k)
  unread_among-skip zero m i h = ap₂ unread_among (omega arith) (omega arith)
  unread_among-skip (suc k) m i h =
      let sum : suc k + m ≡ suc (k + m) = omega arith in
      let place : suc i + k ≡ i + suc k = omega arith in
      ap (λ n. unread_among n i) sum
      ∙ rw (h i (omega arith) (omega arith)) (
          unread_among-skip k m (suc i) (λ a le lt. h a (omega (arith, le)) (omega (arith, lt)))
          ∙ ap (unread_among m) place)

  more_read-le : (n i : ℕ) → i ≤ suc g.lastart → i + more_read g n i ≤ suc g.lastart
  unfolding more_read
  more_read-le zero i h = omega arith
  more_read-le (suc n) i h = ground (arith, more_read-le n (suc i))

  unread_among-from :
      (i j : ℕ)
      → i ≤ j
      → j ≤ suc g.lastart
      → ((a : ℕ) → i ≤ a → a < j → article_was_read g a ≡ true)
      → unread_among (suc g.lastart - i) i ≡ unread_among (suc g.lastart - j) j
  unread_among-from i j le top h =
      ap (λ n. unread_among n i) (omega (arith, le, top))
      ∙ unread_among-skip (j - i) (suc g.lastart - j) i
          (λ a from lt. h a from (omega (arith, lt, le)))
      ∙ ap (unread_among (suc g.lastart - j)) (omega (arith, le))

  counts_one :
      (i : ℕ)
      → i ≤ g.lastart
      → article_was_read g i ≡ false
      → unread_among (suc g.lastart - i) i ≡ suc (unread_among (suc g.lastart - suc i) (suc i))
  counts_one i h u =
      let size : suc g.lastart - i ≡ suc (suc g.lastart - suc i) = omega (arith, h) in
      ap (λ n. unread_among n i) size ∙ counted_first (suc g.lastart - suc i)
    where
      counted_first : (n : ℕ) → unread_among (suc n) i ≡ suc (unread_among n (suc i))
      counted_first n = rw u refl

  write_ranges-over : (n i : ℕ) → g.lastart < i → (write_ranges g n i).1 ≡ 0
  unfolding write_ranges
  write_ranges-over zero i h = refl
  write_ranges-over (suc n) i h =
      let over : ltb g.lastart i ≡ true = ground (arith, h) in rw (write_ranges, over) refl

  write_ranges-unread :
      (n i : ℕ)
      → i ≤ g.lastart
      → article_was_read g i ≡ false
      → (write_ranges g (suc n) i).1 ≡ suc (write_ranges g n (suc i)).1
  unfolding write_ranges
  write_ranges-unread n i h u =
      let within : ltb g.lastart i ≡ false = ground (arith, h) in
      rw (write_ranges, within) (rw u refl)

  write_ranges-read :
      (n i : ℕ)
      → i ≤ g.lastart
      → article_was_read g i ≡ true
      → (write_ranges g (suc n) i).1 ≡ (write_ranges g n (suc i + more_read g n (suc i))).1
  unfolding write_ranges
  write_ranges-read n i h r =
      let within : ltb g.lastart i ≡ false = ground (arith, h) in
      rw (write_ranges, within) (rw r refl)

  none_left : (i : ℕ) → g.lastart < i → unread_among (suc g.lastart - i) i ≡ 0
  none_left i h =
      let size : suc g.lastart - i ≡ 0 = omega (arith, h) in ap (λ n. unread_among n i) size

  count-unread_among :
      (n i : ℕ) → g.lastart < i + n → (write_ranges g n i).1 ≡ unread_among (suc g.lastart - i) i
  count-unread_among zero i h =
      write_ranges-over zero i (omega (arith, h)) ∙ sym (none_left i (omega (arith, h)))
  count-unread_among (suc n) i h = elim (Bool-cases (leb i g.lastart)) [
    | inr e ↦
        write_ranges-over (suc n) i (ground (arith, e)) ∙ sym (none_left i (ground (arith, e)))
    | inl e ↦
        let within = leb→le i g.lastart e in
        elim (Bool-cases (article_was_read g i)) [
          | inl r ↦
              let next = suc i + more_read g n (suc i) in
              write_ranges-read n i within r
              ∙ count-unread_among n next (omega (arith, h))
              ∙ sym (
                  unread_among-from i next (omega arith)
                    (more_read-le n (suc i) (omega (arith, within)))
                    (λ a le lt. run-IsRead g n i a le r (omega (arith, lt))))
          | inr u ↦
              write_ranges-unread n i within u
              ∙ ap suc (count-unread_among n (suc i) (omega (arith, h)))
              ∙ sym (counts_one i within u)
        ]
  ]

  nearest-ge : (n an : ℕ) → an + n ≤ suc g.high → an ≤ nearest g n an
  unfolding nearest
  nearest-ge zero an h = omega (arith, h)
  nearest-ge (suc n) an h = ground (arith, nearest-ge n (suc an))

  pub article_first-ge : (an : ℕ) → an ≤ suc g.high → an ≤ article_first g an
  unfolding article_first
  article_first-ge an h = nearest-ge (suc g.high - an) an (omega (arith, h))

  first_unread-ge : (n i : ℕ) → g.lastart ≤ g.high → i ≤ first_unread g n i
  unfolding first_unread
  first_unread-ge zero i reach = omega arith
  first_unread-ge (suc n) i reach =
      ground (arith, first_unread-ge n (article_next g i) reach, article_first-ge (suc i), reach)

  start-ge : g.lastart ≤ g.high → g.absfirst ≤ suc g.lastart → g.absfirst ≤ text_start g
  start-ge reach some_room = omega (
    arith,
    first_unread-ge (2 + g.lastart) (article_first g g.absfirst) reach,
    article_first-ge g.absfirst (omega (arith, reach, some_room)),
  )

  unread_from_start :
      0 < g.absfirst
      → g.lastart ≤ g.high
      → g.absfirst ≤ suc g.lastart
      → unread_among (suc g.lastart - text_start g) (text_start g)
        ≡ unread_among (suc g.lastart - g.absfirst) g.absfirst
  unread_from_start positive reach room = elim (Bool-cases (leb (text_start g) g.lastart)) [
    | inl e ↦
        let top = leb→le (text_start g) g.lastart e in
        sym (
          unread_among-from g.absfirst (text_start g) (start-ge reach room) (omega (arith, top))
            (λ a le lt. passed_lem g a positive le (omega (arith, lt, top)) reach lt))
    | inr e ↦
        let over : g.lastart < text_start g = ground (arith, e) in
        none_left (text_start g) over
        ∙ sym (
            unread_among-from g.absfirst (suc g.lastart) room (omega arith) (λ a le lt.
              passed_lem g a positive le (omega (arith, lt)) reach (omega (arith, lt, over)))
            ∙ none_left (suc g.lastart) (omega arith))
  ]

-- For a newsgroup whose articles are numbered from 1 or higher, whose list of articles reaches the
-- last of them, whose first article is not behind the place after the last, and which is not
-- unsubscribed, bits_to_rc counts as unread just the numbers of the newsgroup that have an item
-- which is not marked as read.
pub bits_to_rc-unread_among :
    (g : Articles) (np : NgData)
    → 0 < g.absfirst
    → g.lastart ≤ g.high
    → g.absfirst ≤ suc g.lastart
    → np.subscribechar ≢ negchar
    → (bits_to_rc g np).toread ≡ pos (unread_among g (suc g.lastart - g.absfirst) g.absfirst)
unfolding bits_to_rc
bits_to_rc-unread_among g np positive reach room subscribed =
    let kept : (np.subscribechar == negchar) ≡ false = ground (arith, subscribed) in
    rw kept (
      ap pos (
        count-unread_among g (suc g.lastart - text_start g) (text_start g) (omega arith)
        ∙ unread_from_start g positive reach room))
