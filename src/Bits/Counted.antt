-- ===== src/Bits/Counted.antt =====
-- bits.cpp: the count of unread articles follows every change of their marks.
use trn_actions.Int.{ℤ, ◌+ℤ◌, ◌-ℤ◌, ltb_ℤ, pos}
use trn_actions.Newsrc.Groups.{one}
use trn_actions.Prelude.{
  ℕ, zero, suc, ◌+◌, ◌≤◌, ◌<◌, ◌≡◌, refl, sym, ap, ap₂, ◌∙◌, ◌≢◌, inl, inr, Bool, true, false, not,
  ◌&&◌, Option, none, some, arith, ltb, ◌==◌, if◌then◌else◌, Bool-cases, if_else,
}
use trn_actions.Bits.Marks.{
  Article, set_article, Marking, check_first, onemore_subject, onemore, oneless, onemissing, chase,
  set_read, delay_unmark, mark_as_read, with_article,
}

abbrev one_if : Bool → ℕ
one_if true = 1
one_if false = 0

-- How many of n articles from number i on are unread.
abbrev pub count_unread : (ℕ → Article) → ℕ → ℕ → ℕ
count_unread art zero i = 0
count_unread art (suc n) i = one_if (art i).unread + count_unread art n (suc i)

count_unread-same :
    (art other : ℕ → Article) (n i : ℕ)
    → ((k : ℕ) → i ≤ k → (art k).unread ≡ (other k).unread)
    → count_unread art n i ≡ count_unread other n i
count_unread-same art other zero i h = refl
count_unread-same art other (suc n) i h =
    ap₂ (λ b m. one_if b + m) (h i (omega arith))
      (count_unread-same art other n (suc i) (λ k le. h k (omega (arith, le))))

set_article-unread :
    (n k : ℕ) (a : Article) (art : ℕ → Article)
    → k ≢ n
    → (set_article n a art k).unread ≡ (art k).unread
set_article-unread n k a art ne = let other : (k == n) ≡ false = ground (arith, ne) in rw other refl

set_article_self :
    (n : ℕ) (a : Article) (art : ℕ → Article) → (set_article n a art n).unread ≡ a.unread
set_article_self n a art = let same : (n == n) ≡ true = ground arith in rw same refl

-- The count with another article in the place of one.
count_unread-set :
    (art : ℕ → Article) (a : Article) (n size i : ℕ)
    → i ≤ n
    → n < i + size
    → count_unread (set_article n a art) size i + one_if (art n).unread
      ≡ count_unread art size i + one_if a.unread
count_unread-set art a n zero i le lt = absurd (omega (arith, le, lt))
count_unread-set art a n (suc size) i le lt = elim (Bool-cases (i == n)) [
  | inl e ↦
      let here : (set_article n a art i).unread ≡ a.unread = rw e refl in
      let there : (art i).unread ≡ (art n).unread = ap (λ j. (art j).unread) (ground (arith, e)) in
      let rest =
        count_unread-same (set_article n a art) art size (suc i)
          (λ k above. set_article-unread n k a art (ground (arith, e, above))) in
      omega (arith, ap one_if here, ap one_if there, rest)
  | inr e ↦
      let here = set_article-unread n i a art (ground (arith, e)) in
      omega (
        arith,
        ap one_if here,
        count_unread-set art a n size (suc i) (ground (arith, e, le)) (omega (arith, lt)),
      )
]

-- A change of an article that leaves its mark.
pub count_unread-kept :
    (art : ℕ → Article) (a : Article) (n size i : ℕ)
    → a.unread ≡ (art n).unread
    → count_unread (set_article n a art) size i ≡ count_unread art size i
count_unread-kept art a n size i e = count_unread-same (set_article n a art) art size i (λ k le.
    elim (Bool-cases (k == n)) [
      | inl same ↦ rw same (e ∙ ap (λ j. (art j).unread) (ground (arith, same)))
      | inr other ↦ set_article-unread n k a art (ground (arith, other))
    ])

-- toread is the number of unread articles among `size` numbers from lo on.
abbrev pub IsCounted : ℕ → ℕ → Marking → Type 0
IsCounted lo size s = s.toread ≡ pos (count_unread s.article size lo)

one_less :
    (t : ℤ) (c c' : ℕ) → t ≡ pos c → c ≡ suc c' → (if ltb_ℤ (pos 0) t then t -ℤ one else t) ≡ pos c'
unfolding ◌-ℤ◌
one_less t c c' e f = rw (e, f) (ground arith)

one_more : (t : ℤ) (c c' : ℕ) → t ≡ pos c → c' ≡ suc c → t +ℤ one ≡ pos c'
unfolding ◌+ℤ◌
one_more t c c' e f = rw (e, f) (ground arith)

kept_if :
    (b : Bool) (x : ℕ) (s : Marking)
    → ((if b then record s { firstart = x } else s).article ≡ s.article)
      × ((if b then record s { firstart = x } else s).toread ≡ s.toread)
kept_if true x s = (refl, refl)
kept_if false x s = (refl, refl)

if_nested :
    {A : Type 0} (P : A → Type 0) (p q : Bool) {x y z : A}
    → P x
    → P y
    → P z
    → P (if p then if q then x else y else z)
if_nested P true true a b c = a
if_nested P true false a b c = b
if_nested P false q a b c = c

module _ (lo size n : ℕ) (from : lo ≤ n) (below : n < lo + size) where
  pub oneless-IsCounted : (s : Marking) → IsCounted lo size s → IsCounted lo size (oneless n s)
  unfolding oneless
  oneless-IsCounted s h = elim (Bool-cases (s.article n).unread) [
    | inl u ↦
        let a = record (s.article n) { unread = false; selected = false } in
        rw u (
          one_less s.toread (count_unread s.article size lo)
            (count_unread (set_article n a s.article) size lo) h
            (omega (arith, count_unread-set s.article a n size lo from below, ap one_if u)))
    | inr u ↦ rw u h
  ]

  check_first-kept :
      (s : Marking)
      → ((check_first n s).article ≡ s.article) × ((check_first n s).toread ≡ s.toread)
  unfolding check_first
  check_first-kept s =
      let least = if ltb n s.absfirst then s.absfirst else n in
      kept_if (ltb least s.firstart) least s

  subject-kept :
      (o : Option ℕ) (s : Marking) → IsCounted lo size s → IsCounted lo size (onemore_subject n o s)
  subject-kept none s h = h
  subject-kept (some j) s h =
      let a = record (s.article n) { selected = true } in
      if_nested (IsCounted lo size) s.selected_only (s.subject j).subject_selected
        (h ∙ ap pos (sym (count_unread-kept s.article a n size lo refl))) h h

  pub onemore-IsCounted : (s : Marking) → IsCounted lo size s → IsCounted lo size (onemore n s)
  unfolding onemore
  onemore-IsCounted s h = elim (Bool-cases (s.article n).unread) [
    | inl u ↦ rw u h
    | inr u ↦
        let c = check_first n s in
        let (arts, read) = check_first-kept s in
        let a = record (c.article n) { unread = true; del = false } in
        let was : (c.article n).unread ≡ false = ap (λ f. (f n).unread) arts ∙ u in
        let counted : c.toread ≡ pos (count_unread c.article size lo) =
          read ∙ h ∙ ap (λ f. pos (count_unread f size lo)) (sym arts) in
        rw u (
          subject-kept (s.article n).subj _ (
            one_more c.toread (count_unread c.article size lo)
              (count_unread (set_article n a c.article) size lo) counted
              (omega (arith, count_unread-set c.article a n size lo from below, ap one_if was))))
  ]

  kept-IsCounted :
      (a : Article) (s t : Marking)
      → a.unread ≡ (s.article n).unread
      → t.article ≡ set_article n a s.article
      → t.toread ≡ s.toread
      → IsCounted lo size s
      → IsCounted lo size t
  kept-IsCounted a s t mark arts read h =
      read
      ∙ h
      ∙ ap pos (sym (count_unread-kept s.article a n size lo mark))
      ∙ ap (λ f. pos (count_unread f size lo)) (sym arts)

  chase-IsCounted : (s : Marking) → IsCounted lo size s → IsCounted lo size (chase n s)
  chase-IsCounted s h =
      if_else (IsCounted lo size) ((s.article n).has_xrefs && not (s.article n).kchase)
        (h
          ∙ ap pos (
              sym (
                count_unread-kept s.article (record (s.article n) { kchase = true }) n size lo
                  refl)))
        h

  pub onemissing-IsCounted :
      (s : Marking) → IsCounted lo size s → IsCounted lo size (onemissing n s)
  unfolding onemissing
  onemissing-IsCounted s h =
      let counted = record s {
        missing_count = if (s.article n).unread then s.missing_count +ℤ one else s.missing_count;
      } in
      let read = oneless n counted in
      let a = record (read.article n) {
        has_re = false;
        yankback = false;
        exists = false;
        cached = true;
        threaded = true;
      } in
      kept-IsCounted a read (with_article n a read) refl refl refl (oneless-IsCounted counted h)

  pub set_read-IsCounted : (s : Marking) → IsCounted lo size s → IsCounted lo size (set_read n s)
  unfolding set_read
  set_read-IsCounted s h =
      if_else (IsCounted lo size) (oneless n s).olden_days (oneless-IsCounted s h)
        (chase-IsCounted (oneless n s) (oneless-IsCounted s h))

  pub mark_as_read-IsCounted :
      (s : Marking) → IsCounted lo size s → IsCounted lo size (mark_as_read n s)
  unfolding mark_as_read
  mark_as_read-IsCounted s h = chase-IsCounted (oneless n s) (oneless-IsCounted s h)

  pub delay_unmark-IsCounted :
      (s : Marking) → IsCounted lo size s → IsCounted lo size (delay_unmark n s)
  unfolding delay_unmark
  delay_unmark-IsCounted s h = if_else (IsCounted lo size) (s.article n).yankback h (
      h
      ∙ ap pos (
          sym (
            count_unread-kept s.article (record (s.article n) { yankback = true }) n size lo refl)))
