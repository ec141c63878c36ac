-- ===== src/Util/Times.antt =====
-- util.cpp: what secs2text writes, text2secs reads back.
use trn_actions.Prelude.{
  ℕ, suc, ◌+◌, ◌-◌, ◌*◌, ◌/◌, ◌%◌, ◌^◌, ◌≤◌, ◌<◌, ◌≡◌, refl, ap, ◌∙◌, subst, ◌⊎◌, inl, inr, Bool,
  true, false, some, [], ◌∷◌, ◌++◌, append-nil, append_assoc, arith, Bytes, ltb, ◌==◌, Bool-cases,
  length, take, length-append, peek,
}
use trn_actions.StringAlgos.{is_digit}
use trn_actions.Newsrc.Numbers.{print_number}
use trn_actions.Bits.Segments.{number_first}
use trn_actions.Util.{
  time_part, cut_two, day_part, plural, secs2text, minute_part, text2secs, hour_part,
}
use trn_actions.Util.Items.{
  word, minutes, last_part, ending, Reads, Reads-last, Reads-more, Span, day, hour, minute,
}

abbrev cut : Bytes → Bytes
cut s = take (length s - 2) s

take-more : (p s : Bytes) (n : ℕ) → take (length p + n) (p ++ s) ≡ p ++ take n s
take-more [] s n = ap (λ k. take k s) (omega arith)
take-more (c ∷ p) s n =
    let e : suc (length p) + n ≡ suc (length p + n) = omega arith in
    rw e (ap (λ t. c ∷ t) (take-more p s n))

cut-append : (p s : Bytes) → 2 ≤ length s → cut (p ++ s) ≡ p ++ cut s
cut-append p s h =
    let e : length (p ++ s) - 2 ≡ length p + (length s - 2) = omega (arith, h, length-append p s) in
    rw e (take-more p s (length s - 2))

abbrev words : Span → ℕ → Bytes → Bytes
words span items s = b' ' ∷ (word span ++ (plural items ++ s))

cut-ending :
    (span : Span) (b : Bool)
    → let t : Bytes = b' ' ∷ (word span ++ (ending b ++ (b',' ∷ b' ' ∷ []))) in
      (2 ≤ length t) × (cut t ≡ b' ' ∷ (word span ++ ending b))
cut-ending day true = (omega arith, refl)
cut-ending day false = (omega arith, refl)
cut-ending hour true = (omega arith, refl)
cut-ending hour false = (omega arith, refl)
cut-ending minute true = (omega arith, refl)
cut-ending minute false = (omega arith, refl)

cut-words :
    (span : Span) (items : ℕ)
    → (2 ≤ length (words span items (b',' ∷ b' ' ∷ [])))
      × (cut (words span items (b',' ∷ b' ' ∷ [])) ≡ b' ' ∷ (word span ++ plural items))
cut-words span items = cut-ending span (items == 1)

cut-part :
    (n : ℕ) (span : Span) (items : ℕ) → cut (time_part n (word span) items) ≡ last_part n span items
cut-part n span items =
    let (long, e) = cut-words span items in
    cut-append (print_number n) (words span items (b',' ∷ b' ' ∷ [])) long
    ∙ ap (λ t. print_number n ++ t) e

length-part : (n : ℕ) (span : Span) (items : ℕ) → 2 ≤ length (time_part n (word span) items)
length-part n span items =
    let (long, e) = cut-words span items in
    omega (arith, long, length-append (print_number n) (words span items (b',' ∷ b' ' ∷ [])))

part_first :
    (n : ℕ) (span : Span) (items : ℕ) (s : Bytes)
    → is_digit (peek (time_part n (word span) items ++ s)) ≡ true
part_first n span items s =
    rw (append_assoc (print_number n) (words span items (b',' ∷ b' ' ∷ [])) s) (number_first n _)

-- A text that ends in a comma and a blank, for a number of minutes, or nothing.
abbrev Ended : Bytes → ℕ → Type 0
Ended s m =
    (2 ≤ length s) × (is_digit (peek s) ≡ true) × (is_digit (peek (cut s)) ≡ true) × Reads (cut s) m

abbrev Texts : Bytes → ℕ → Type 0
Texts s m = ((s ≡ []) × (m ≡ 0)) ⊎ Ended s m

Ended-alone :
    (n : ℕ) (span : Span) (items : ℕ) → Ended (time_part n (word span) items) (minutes span n)
Ended-alone n span items =
    rw (cut-part n span items)
      (length-part n span items, number_first n _, number_first n _, Reads-last n span items)

Ended-part :
    (n : ℕ) (span : Span) (items : ℕ) (s : Bytes) (m : ℕ)
    → Ended s m
    → Ended (time_part n (word span) items ++ s) (minutes span n + m)
Ended-part n span items s m (long, _, first, reads) =
    rw (cut-append (time_part n (word span) items) s long) (
      omega (arith, long, length-append (time_part n (word span) items) s),
      part_first n span items s,
      part_first n span items (cut s),
      Reads-more n span items (cut s) m first reads,
    )

Texts-part :
    (n : ℕ) (span : Span) (items : ℕ) (s : Bytes) (m total : ℕ)
    → minutes span n + m ≡ total
    → Texts s m
    → Texts (time_part n (word span) items ++ s) total
Texts-part n span items s m total sum (inr h) =
    inr (subst (Ended (time_part n (word span) items ++ s)) sum (Ended-part n span items s m h))
Texts-part n span items s m total sum (inl (e, z)) =
    let same : minutes span n ≡ total = omega (arith, sum, z) in
    inr (
      rw (e, append-nil (time_part n (word span) items))
        (subst (Ended (time_part n (word span) items)) same (Ended-alone n span items)))

minute_part-Texts : (k items : ℕ) → Texts (minute_part k items) k
minute_part-Texts k items = elim (Bool-cases (k == 0)) [
  | inl e ↦ rw e (inl (refl, ground (arith, e)))
  | inr e ↦ rw e (inr (Ended-alone k minute items))
]

hour_part-Texts : (k items : ℕ) → Texts (hour_part k items) k
hour_part-Texts k items = elim (Bool-cases (ltb k 60)) [
  | inl e ↦ rw e (minute_part-Texts k items)
  | inr e ↦ rw e (
      Texts-part (k / 60) hour (k / 60) (minute_part (k % 60) (k / 60)) (k % 60) k (omega arith)
        (minute_part-Texts (k % 60) (k / 60)))
]

day_part-Texts : (k items : ℕ) → Texts (day_part k items) k
day_part-Texts k items = elim (Bool-cases (ltb k (24 * 60))) [
  | inl e ↦ rw e (hour_part-Texts k items)
  | inr e ↦ rw e (
      Texts-part (k / (24 * 60)) day (k / (24 * 60)) (hour_part (k % (24 * 60)) (k / (24 * 60)))
        (k % (24 * 60)) k (omega arith) (hour_part-Texts (k % (24 * 60)) (k / (24 * 60))))
]

cut_two-cut : (s : Bytes) → 2 ≤ length s → cut_two s ≡ some (cut s)
cut_two-cut [] h = absurd (omega arith)
cut_two-cut (c ∷ s) h = refl

-- What secs2text writes for a positive number of whole minutes below 2 ^ 31, so that its parts fit an
-- int, text2secs reads back as this number of seconds, whatever `items` held before.
pub text2secs-secs2text :
    (mins items def_secs : ℕ)
    → 0 < mins
    → mins < 2 ^ 31
    → (t : Bytes) × (secs2text (mins * 60) items ≡ some t)
      × (text2secs t def_secs ≡ some (mins * 60))
unfolding secs2text text2secs
text2secs-secs2text mins items def_secs pos fits = elim (day_part-Texts mins items) [
  | inl (_, z) ↦ absurd (omega arith)
  | inr (long, _, first, reads) ↦
      let plus : 0 + mins ≡ mins = omega arith in
      let some_time : (mins * 60 == 0) ≡ false = ground arith in
      let even : (mins * 60 % 2 == 1) ≡ false = ground arith in
      let fourth : (mins * 60 / 2 % 2 == 1) ≡ false = ground arith in
      let whole : mins * 60 / 60 ≡ mins = omega arith in
      (
        cut (day_part mins items),
        rw (some_time, even, fourth, whole) (cut_two-cut (day_part mins items) long),
        rw (first, reads 0 (length (cut (day_part mins items))) (omega arith), plus) refl,
      )
]
