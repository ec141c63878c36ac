-- ===== src/Util/Items.antt =====
-- util.cpp: the items of a time, as text2secs reads them.
use trn_actions.Prelude.{
  ℕ, zero, suc, ◌+◌, ◌*◌, ◌≤◌, ◌≡◌, refl, ap, ◌∙◌, Bool, true, false, some, [], ◌∷◌, ◌++◌,
  append_assoc, arith, Bytes, ◌==◌, if◌then◌else◌, codes, length, length-append, peek,
}
use trn_actions.StringAlgos.{is_digit, is_space, is_alpha, skip_while}
use trn_actions.Newsrc.Numbers.{print_number}
use trn_actions.Uudecode.Parts.{skip-print_number}
use trn_actions.Bits.Segments.{skip_none, value-append}
use trn_actions.Util.{time_part, items_loop, skip_comma, plural, item_minutes, one_item}

pub data Span : Type 0 where
  day : Span
  hour : Span
  minute : Span

abbrev pub word : Span → Bytes
word day = codes "day"
word hour = codes "hour"
word minute = codes "minute"

abbrev pub minutes : Span → ℕ → ℕ
minutes day n = n * (24 * 60)
minutes hour n = n * 60
minutes minute n = n

-- A part without the comma and the blank.
abbrev pub last_part : ℕ → Span → ℕ → Bytes
last_part n span items = print_number n ++ (b' ' ∷ (word span ++ plural items))

one_item-digits :
    (n : ℕ) (t : Bytes)
    → is_alpha (peek t) ≡ true
    → is_space (peek t) ≡ false
    → one_item (print_number n ++ (b' ' ∷ t))
      ≡ (item_minutes (peek t) n, skip_while is_space (skip_comma (skip_while is_alpha t)))
unfolding one_item skip_while
one_item-digits n t alpha no_space =
    rw
      (
        value-append n (b' ' ∷ t) refl,
        skip-print_number n (b' ' ∷ t) refl,
        skip_none is_space t no_space,
        alpha,
      )
      refl

abbrev pub ending : Bool → Bytes
ending b = if b then [] else b's' ∷ []

one_item-ending :
    (n : ℕ) (span : Span) (b : Bool)
    → one_item (print_number n ++ (b' ' ∷ (word span ++ ending b))) ≡ (minutes span n, [])
unfolding skip_while
one_item-ending n day true = one_item-digits n (codes "day") refl refl
one_item-ending n day false = one_item-digits n (codes "days") refl refl
one_item-ending n hour true = one_item-digits n (codes "hour") refl refl
one_item-ending n hour false = one_item-digits n (codes "hours") refl refl
one_item-ending n minute true = one_item-digits n (codes "minute") refl refl
one_item-ending n minute false = one_item-digits n (codes "minutes") refl refl

digit_no_space : (c : ℕ) → is_digit c ≡ true → is_space c ≡ false
digit_no_space c h = ground arith

blank_skipped :
    (n : ℕ) (span : Span) (s : Bytes)
    → is_digit (peek s) ≡ true
    → ◌≡◌ {A = ℕ × Bytes} (minutes span n, skip_while is_space s) (minutes span n, s)
blank_skipped n span s h =
    ap (λ (t : Bytes). (minutes span n, t)) (skip_none is_space s (digit_no_space (peek s) h))

one_item-comma :
    (n : ℕ) (span : Span) (b : Bool) (s : Bytes)
    → is_digit (peek s) ≡ true
    → one_item (print_number n ++ (b' ' ∷ (word span ++ (ending b ++ (b',' ∷ b' ' ∷ s)))))
      ≡ (minutes span n, s)
unfolding skip_while
one_item-comma n day true s h =
    one_item-digits n (codes "day" ++ (b',' ∷ b' ' ∷ s)) refl refl ∙ blank_skipped n day s h
one_item-comma n day false s h =
    one_item-digits n (codes "days" ++ (b',' ∷ b' ' ∷ s)) refl refl ∙ blank_skipped n day s h
one_item-comma n hour true s h =
    one_item-digits n (codes "hour" ++ (b',' ∷ b' ' ∷ s)) refl refl ∙ blank_skipped n hour s h
one_item-comma n hour false s h =
    one_item-digits n (codes "hours" ++ (b',' ∷ b' ' ∷ s)) refl refl ∙ blank_skipped n hour s h
one_item-comma n minute true s h =
    one_item-digits n (codes "minute" ++ (b',' ∷ b' ' ∷ s)) refl refl ∙ blank_skipped n minute s h
one_item-comma n minute false s h =
    one_item-digits n (codes "minutes" ++ (b',' ∷ b' ' ∷ s)) refl refl ∙ blank_skipped n minute s h

more_text :
    (span : Span) (b : Bool) (s : Bytes)
    → (word span ++ (ending b ++ (b',' ∷ b' ' ∷ []))) ++ s
      ≡ word span ++ (ending b ++ (b',' ∷ b' ' ∷ s))
more_text day true s = refl
more_text day false s = refl
more_text hour true s = refl
more_text hour false s = refl
more_text minute true s = refl
more_text minute false s = refl

one_item-more :
    (n : ℕ) (span : Span) (items : ℕ) (s : Bytes)
    → is_digit (peek s) ≡ true
    → one_item (time_part n (word span) items ++ s) ≡ (minutes span n, s)
one_item-more n span items s h =
    ap one_item (
      append_assoc (print_number n) (b' ' ∷ (word span ++ (plural items ++ (b',' ∷ b' ' ∷ [])))) s
      ∙ ap (λ t. print_number n ++ (b' ' ∷ t)) (more_text span (items == 1) s))
    ∙ one_item-comma n span (items == 1) s h

-- Text with fuel for its length is read as a number of minutes.
abbrev pub Reads : Bytes → ℕ → Type 0
Reads s n = (acc f : ℕ) → length s ≤ f → items_loop f acc s ≡ some (acc + n)

pub Reads-last : (n : ℕ) (span : Span) (items : ℕ) → Reads (last_part n span items) (minutes span n)
unfolding items_loop
Reads-last n span items acc zero h =
    absurd (omega (arith, h, length-append (print_number n) (b' ' ∷ (word span ++ plural items))))
Reads-last n span items acc (suc f) h = rw (one_item-ending n span (items == 1)) refl

pub Reads-more :
    (n : ℕ) (span : Span) (items : ℕ) (s : Bytes) (m : ℕ)
    → is_digit (peek s) ≡ true
    → Reads s m
    → Reads (time_part n (word span) items ++ s) (minutes span n + m)
unfolding items_loop
Reads-more n span items s m h r acc zero le = absurd (
    omega (
      arith,
      le,
      length-append (time_part n (word span) items) s,
      length-append (print_number n) (b' ' ∷ (word span ++ (plural items ++ (b',' ∷ b' ' ∷ [])))),
    ))
Reads-more n span items s m h r acc (suc f) le =
    let shorter : length s ≤ f = omega (
      arith,
      le,
      length-append (time_part n (word span) items) s,
      length-append (print_number n) (b' ' ∷ (word span ++ (plural items ++ (b',' ∷ b' ' ∷ [])))),
    ) in
    let sum : acc + minutes span n + m ≡ acc + (minutes span n + m) = omega arith in
    rw (one_item-more n span items s h, h) (r (acc + minutes span n) f shorter ∙ ap some sum)
