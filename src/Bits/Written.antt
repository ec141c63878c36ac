-- ===== src/Bits/Written.antt =====
-- bits.cpp: the line that bits_to_rc writes, and its count.
use trn_actions.Bits.Segments.{
  Segment, among, line_text, was_read-line_text, without_comma-commas_text, range,
}
use trn_actions.Newsrc.Groups.{NgData, print_ℤ, tr_unsub, tr_bogus, negchar}
use trn_actions.Newsrc.Edit.{was_read, answer}
use trn_actions.Newsrc.Numbers.{print_number}
use trn_actions.Int.{sub_ℕ, ℤ, ltb_ℤ, eq_ℤ, pos}
use trn_actions.Bits.Reads.{segments_from, write_ranges-segments_from, among-segments_from}
use trn_actions.Prelude.{
  ℕ, zero, suc, ◌+◌, ◌-◌, ◌≤◌, ◌<◌, max, ◌≡◌, refl, sym, ap, ap₂, ◌∙◌, subst, ◌≢◌, inl, inr, Bool,
  true, false, Option, some, List, ◌∷◌, ◌++◌, arith, ltb, leb, ◌==◌, if◌then◌else◌, ltb→lt,
  Bool-cases,
}
use trn_actions.Newsrc.Handlers.{was_read_group}
use trn_actions.Bits.{
  nearest, article_was_read, first_unread, article_next, article_first, Articles, bits_to_rc,
  without_comma, write_ranges,
}

module _ (g : Articles) where
  -- No number that nearest passes has an item.
  nearest_lem :
      (n an a : ℕ) → an ≤ a → a < nearest g n an → a < an + n → g.article_hasdata a ≡ false
  unfolding nearest
  nearest_lem zero an a le lt room = absurd (omega arith)
  nearest_lem (suc n) an a le lt room = elim (Bool-cases (g.article_hasdata an)) [
    | inl e ↦ absurd (ground (arith, e, le, lt))
    | inr e ↦ elim (Bool-cases (a == an)) [
      | inl same ↦ subst (λ j. g.article_hasdata j ≡ false) (ground (arith, same)) e
      | inr other ↦
          nearest_lem n (suc an) a (ground (arith, other, le)) (ground (arith, e, lt)) (omega arith)
    ]
  ]

  nearest-pos : (n an : ℕ) → 0 < an → 0 < nearest g n an
  unfolding nearest
  nearest-pos zero an h = omega arith
  nearest-pos (suc n) an h = ground (arith, nearest-pos n (suc an))

  article_first_lem :
      (an a : ℕ) → an ≤ a → a < article_first g an → a ≤ g.high → article_was_read g a ≡ true
  unfolding article_first
  article_first_lem an a le lt top =
      let none_there = nearest_lem (suc g.high - an) an a le lt (omega (arith, le, top)) in
      ground (arith, none_there)

  first_unread-pos : (n i : ℕ) → 0 < i → 0 < first_unread g n i
  unfolding first_unread article_first
  first_unread-pos zero i h = h
  first_unread-pos (suc n) i h =
      ground
        (arith, first_unread-pos n (article_next g i), nearest-pos (suc g.high - suc i) (suc i), h)

  -- What the first loop passes is read.
  first_unread_lem :
      (n i a : ℕ)
      → i ≤ a
      → a < first_unread g n i
      → a ≤ g.lastart
      → g.lastart ≤ g.high
      → article_was_read g a ≡ true
  unfolding first_unread
  first_unread_lem zero i a le lt top reach = absurd (omega arith)
  first_unread_lem (suc n) i a le lt top reach = elim (Bool-cases (ltb g.lastart i)) [
    | inl e ↦ absurd (ground (arith, e, le, top))
    | inr e ↦ elim (Bool-cases (g.article_unread i)) [
      | inl u ↦ absurd (ground (arith, e, u, le, lt))
      | inr u ↦ elim (Bool-cases (a == i)) [
        | inl same ↦
            let r : article_was_read g i ≡ true = ground (arith, u) in
            subst (λ j. article_was_read g j ≡ true) (ground (arith, same)) r
        | inr other ↦ elim (Bool-cases (ltb a (article_next g i))) [
          | inl skipped ↦
              article_first_lem (suc i) a (ground (arith, other, le))
                (ltb→lt a (article_next g i) skipped) (omega (arith, top, reach))
          | inr reached ↦
              first_unread_lem n (article_next g i) a (ground (arith, reached))
                (ground (arith, e, u, lt)) top reach
        ]
      ]
    ]
  ]

  abbrev pub text_start : ℕ
  text_start = first_unread g (2 + g.lastart) (article_first g g.absfirst)

  -- The ranges of the whole line.
  abbrev ranges : ℕ → List Segment
  ranges i = range 1 (i - 1) ∷ segments_from g (suc g.lastart - i) i

  print_ℤ-pos : (i : ℕ) → 0 < i → print_ℤ (sub_ℕ i 1) ≡ print_number (i - 1)
  unfolding print_ℤ
  print_ℤ-pos zero h = elim h [ ]
  print_ℤ-pos (suc i) h = ground arith

  text_start-pos : 0 < g.absfirst → 0 < text_start
  unfolding article_first
  text_start-pos h =
      first_unread-pos (2 + g.lastart) (article_first g g.absfirst)
        (nearest-pos (suc g.high - g.absfirst) g.absfirst h)

  nums-line_text :
      (np : NgData) → 0 < g.absfirst → (bits_to_rc g np).nums ≡ b' ' ∷ line_text (ranges text_start)
  unfolding bits_to_rc without_comma print_number
  nums-line_text np h =
      ap₂ (λ k text. without_comma (b' ' ∷ b'1' ∷ b'-' ∷ (k ++ (b',' ∷ text))))
        (print_ℤ-pos text_start (text_start-pos h))
        (sym (write_ranges-segments_from g (suc g.lastart - text_start) text_start))
      ∙ without_comma-commas_text b' ' (range 1 (text_start - 1))
          (segments_from g (suc g.lastart - text_start) text_start)

  pub passed_lem :
      (a : ℕ)
      → 0 < g.absfirst
      → g.absfirst ≤ a
      → a ≤ g.lastart
      → g.lastart ≤ g.high
      → a < text_start
      → article_was_read g a ≡ true
  passed_lem a positive le top reach lt = elim (Bool-cases (ltb a (article_first g g.absfirst))) [
    | inl skipped ↦
        article_first_lem g.absfirst a le (ltb→lt a (article_first g g.absfirst) skipped)
          (omega (arith, top, reach))
    | inr reached ↦
        first_unread_lem (2 + g.lastart) (article_first g g.absfirst) a (ground (arith, reached)) lt
          top reach
  ]

  among-ranges :
      (a : ℕ)
      → 0 < g.absfirst
      → g.absfirst ≤ a
      → a ≤ g.lastart
      → g.lastart ≤ g.high
      → among a (ranges text_start) ≡ article_was_read g a
  among-ranges a positive le top reach =
      let from : ltb a 1 ≡ false = ground (arith, positive, le) in
      elim (Bool-cases (leb a (text_start - 1))) [
        | inl e ↦
            rw (from, e)
              (sym
                (passed_lem a positive le top reach (ground (arith, e, text_start-pos positive))))
        | inr e ↦
            rw (from, e)
              (among-segments_from g (suc g.lastart - text_start) text_start a (ground (arith, e))
                top (omega arith))
      ]

bits_to_rc-was_read :
    (g : Articles) (np : NgData) (a : ℕ)
    → 0 < g.absfirst
    → g.absfirst ≤ a
    → a ≤ g.lastart
    → g.lastart ≤ g.high
    → was_read (bits_to_rc g np).nums a ≡ answer (article_was_read g a)
bits_to_rc-was_read g np a positive le top reach =
    ap (λ s. was_read s a) (nums-line_text g np positive)
    ∙ was_read-line_text a (ranges g (text_start g))
    ∙ ap answer (among-ranges g a positive le top reach)

-- bits_to_rc leaves a count, or the mark of a group that is not subscribed to.
toread_is_count : (b : Bool) (n : ℕ) → eq_ℤ (if b then tr_unsub else pos n) tr_bogus ≡ false
toread_is_count true n = refl
toread_is_count false n = ground arith

-- For a newsgroup with numbers on its line, whose articles are numbered from 1 or higher, whose
-- list of articles reaches the last of them, and of which ngmax does too: after bits_to_rc has
-- written the line, was_read_group reports just the articles that were marked as read, or have no
-- item, for all numbers of the newsgroup.
pub bits_to_rc-was_read_group :
    (find_actgrp : NgData → Option (ℤ × ℤ)) (g : Articles) (np : NgData) (a max : ℕ)
    → 0 < g.absfirst
    → g.absfirst ≤ a
    → a ≤ g.lastart
    → g.lastart ≤ g.high
    → np.numoffset ≢ 0
    → np.ngmax ≡ pos max
    → g.lastart ≤ max
    → was_read_group find_actgrp a (some (bits_to_rc g np)) ≡ answer (article_was_read g a)
unfolding was_read_group bits_to_rc
bits_to_rc-was_read_group find_actgrp g np a max positive le top reach numbers size within =
    let some_number : (a == 0) ≡ false = ground (arith, positive, le) in
    let has_numbers : (np.numoffset == 0) ≡ false = ground (arith, numbers) in
    let small : ltb_ℤ (pos max) (pos a) ≡ false = ground (arith, top, within) in
    let count = (write_ranges g (suc g.lastart - text_start g) (text_start g)).1 in
    let is_count : eq_ℤ (bits_to_rc g np).toread tr_bogus ≡ false =
      toread_is_count (np.subscribechar == negchar) count in
    rw (some_number, has_numbers, is_count, size, small)
      (bits_to_rc-was_read g np a positive le top reach)
