-- ===== src/Bits/Reads.antt =====
-- bits.cpp: the line that bits_to_rc writes says of the newsgroup's articles what their flags say.
use trn_actions.Prelude.{
  ℕ, zero, suc, ◌+◌, ◌≤◌, ◌<◌, ◌≡◌, refl, sym, ap, ◌∙◌, subst, inl, inr, Bool, true, false, ◌&&◌,
  List, [], ◌∷◌, arith, Bytes, ltb, leb, ◌==◌, if◌then◌else◌, lt→ltb, leb→le, Bool-cases,
}
use trn_actions.Bits.{more_read, write_ranges, print_range, article_was_read, Articles}
use trn_actions.Bits.Segments.{Segment, segment_text, commas_text, range, single, among}

module _ (g : Articles) where
  abbrev segment_from : ℕ → ℕ → Segment
  segment_from i zero = single i
  segment_from i (suc more) = range i (i + suc more)

  -- The ranges of the second loop.
  pub segments_from : ℕ → ℕ → List Segment
  segments_from zero i = []
  segments_from (suc n) i = elim (ltb g.lastart i) [
    | true ↦ []
    | false ↦ elim (article_was_read g i) [
      | false ↦ segments_from n (suc i)
      | true ↦
          segment_from i (more_read g n (suc i)) ∷ segments_from n (suc i + more_read g n (suc i))
    ]
  ]

  segments_over : (n i : ℕ) → g.lastart < i → segments_from n i ≡ []
  unfolding segments_from
  segments_over zero i h = refl
  segments_over (suc n) i h =
      let over : ltb g.lastart i ≡ true = ground (arith, h) in rw (segments_from, over) refl

  segments_unread :
      (n i : ℕ)
      → i ≤ g.lastart
      → article_was_read g i ≡ false
      → segments_from (suc n) i ≡ segments_from n (suc i)
  unfolding segments_from
  segments_unread n i h u =
      let within : ltb g.lastart i ≡ false = ground (arith, h) in
      rw (segments_from, within) (rw u refl)

  segments_read :
      (n i : ℕ)
      → i ≤ g.lastart
      → article_was_read g i ≡ true
      → segments_from (suc n) i
        ≡ segment_from i (more_read g n (suc i)) ∷ segments_from n (suc i + more_read g n (suc i))
  unfolding segments_from
  segments_read n i h r =
      let within : ltb g.lastart i ≡ false = ground (arith, h) in
      rw (segments_from, within) (rw r refl)

  segment_text-print_range :
      (i more : ℕ) (rest : Bytes)
      → segment_text (segment_from i more) (b',' ∷ rest) ≡ print_range i more rest
  segment_text-print_range i zero rest = refl
  segment_text-print_range i (suc more) rest = refl

  pub write_ranges-segments_from :
      (n i : ℕ) → commas_text (segments_from n i) ≡ (write_ranges g n i).0
  unfolding segments_from write_ranges
  write_ranges-segments_from zero i = refl
  write_ranges-segments_from (suc n) i = elim (Bool-cases (ltb g.lastart i)) [
    | inl e ↦ rw (segments_from, write_ranges, e) refl
    | inr e ↦ elim (Bool-cases (article_was_read g i)) [
      | inl r ↦
          rw (segments_from, write_ranges, e)
            (rw r (
              segment_text-print_range i (more_read g n (suc i)) _
              ∙ ap (print_range i (more_read g n (suc i)))
                  (write_ranges-segments_from n (suc i + more_read g n (suc i)))))
      | inr u ↦ rw (segments_from, write_ranges, e) (rw u (write_ranges-segments_from n (suc i)))
    ]
  ]

  more_read-suc :
      (n i : ℕ)
      → i ≤ g.lastart
      → article_was_read g i ≡ true
      → more_read g (suc n) i ≡ suc (more_read g n (suc i))
  unfolding more_read
  more_read-suc n i h r =
      let within : leb i g.lastart ≡ true = ground (arith, h) in rw (within, r) refl

  more_read-none :
      (n i : ℕ) → (leb i g.lastart && article_was_read g i) ≡ false → more_read g (suc n) i ≡ 0
  unfolding more_read
  more_read-none n i h = rw h refl

  no_more : (i : ℕ) → more_read g zero i ≡ 0
  unfolding more_read
  no_more i = refl

  -- What a run passes is read.
  pub more_read_lem : (n i a : ℕ) → i ≤ a → a < i + more_read g n i → article_was_read g a ≡ true
  more_read_lem zero i a le lt = absurd (omega (arith, no_more i, le, lt))
  more_read_lem (suc n) i a le lt = elim (Bool-cases (leb i g.lastart && article_was_read g i)) [
    | inr e ↦ absurd (omega (arith, more_read-none n i e, le, lt))
    | inl e ↦
        let within : i ≤ g.lastart = ground (arith, e) in
        let here : article_was_read g i ≡ true = ground (arith, e) in
        elim (Bool-cases (a == i)) [
          | inl same ↦ subst (λ j. article_was_read g j ≡ true) (ground (arith, same)) here
          | inr other ↦
              more_read_lem n (suc i) a (ground (arith, other, le))
                (omega (arith, more_read-suc n i within here, lt))
        ]
  ]

  among-segment_from :
      (a i more : ℕ) (segs : List Segment)
      → among a (segment_from i more ∷ segs)
        ≡ (if ltb a i then false else if leb a (i + more) then true else among a segs)
  among-segment_from a i zero segs = ground arith
  among-segment_from a i (suc more) segs = refl

  among_below : (n i a : ℕ) → a < i → among a (segments_from n i) ≡ false
  unfolding segments_from
  among_below zero i a lt = refl
  among_below (suc n) i a lt = elim (Bool-cases (leb i g.lastart)) [
    | inr e ↦ ap (among a) (segments_over (suc n) i (ground (arith, e)))
    | inl e ↦ elim (Bool-cases (article_was_read g i)) [
      | inl r ↦
          ap (among a) (segments_read n i (leb→le i g.lastart e) r)
          ∙ among-segment_from a i (more_read g n (suc i)) _
          ∙ ap
              (λ b.
                if b
                then false
                else if leb a (i + more_read g n (suc i))
                then true
                else among a (segments_from n (suc i + more_read g n (suc i))))
              (lt→ltb a i lt)
      | inr u ↦
          ap (among a) (segments_unread n i (leb→le i g.lastart e) u)
          ∙ among_below n (suc i) a (omega arith)
    ]
  ]

  run_or_behind :
      (a i more : ℕ) (segs : List Segment) (b : Bool)
      → i ≤ a
      → (i + more < a → among a segs ≡ b)
      → (a ≤ i + more → b ≡ true)
      → (if ltb a i then false else if leb a (i + more) then true else among a segs) ≡ b
  run_or_behind a i more segs b le later inside =
      let from : ltb a i ≡ false = ground (arith, le) in
      elim (Bool-cases (leb a (i + more))) [
        | inl e ↦ rw (from, e) (sym (inside (leb→le a (i + more) e)))
        | inr e ↦ rw (from, e) (later (ground (arith, e)))
      ]

  pub run-IsRead :
      (n i a : ℕ)
      → i ≤ a
      → article_was_read g i ≡ true
      → a ≤ i + more_read g n (suc i)
      → article_was_read g a ≡ true
  run-IsRead n i a le r inside = elim (Bool-cases (a == i)) [
    | inl same ↦ subst (λ j. article_was_read g j ≡ true) (ground (arith, same)) r
    | inr other ↦ more_read_lem n (suc i) a (ground (arith, other, le)) (omega (arith, inside))
  ]

  pub among-segments_from :
      (n i a : ℕ)
      → i ≤ a
      → a ≤ g.lastart
      → g.lastart < i + n
      → among a (segments_from n i) ≡ article_was_read g a
  among-segments_from zero i a le top enough = absurd (omega (arith, le, top, enough))
  among-segments_from (suc n) i a le top enough = elim (Bool-cases (article_was_read g i)) [
    | inl r ↦
        let more = more_read g n (suc i) in
        ap (among a) (segments_read n i (omega (arith, le, top)) r)
        ∙ among-segment_from a i more (segments_from n (suc i + more))
        ∙ run_or_behind a i more (segments_from n (suc i + more)) (article_was_read g a) le
            (λ far.
              among-segments_from n (suc i + more) a (omega (arith, far)) top
                (omega (arith, enough)))
            (run-IsRead n i a le r)
    | inr u ↦
        ap (among a) (segments_unread n i (omega (arith, le, top)) u) ∙ elim (Bool-cases (a == i)) [
          | inl same ↦
              among_below n (suc i) a (ground (arith, same))
              ∙ sym (subst (λ j. article_was_read g j ≡ false) (ground (arith, same)) u)
          | inr other ↦
              among-segments_from n (suc i) a (ground (arith, other, le)) top
                (omega (arith, enough))
        ]
  ]
