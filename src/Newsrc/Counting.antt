-- ===== src/Newsrc/Counting.antt =====
-- What set_toread of rcln.cpp counts.
use trn_actions.Newsrc.Handlers.{counted, recount, all_read, set_toread, settle}
use trn_actions.Prelude.{
  ℕ, zero, suc, ◌<◌, ◌≡◌, refl, ap, ◌∙◌, ◌≢◌, Bool, true, false, not, ◌&&◌, Option, some, [], ◌∷◌,
  arith, Bytes, ◌==◌, if◌then◌else◌, All,
}
use trn_actions.Int.{ℤ, pos, negsuc, ◌+ℤ◌, ◌-ℤ◌, leb_ℤ, ltb_ℤ, eq_ℤ}
use trn_actions.StringAlgos.{is_space, skip_while}
use trn_actions.Newsrc.Numbers.{
  digits_value, atol, print_number, IsDigit, print_number-IsDigit, digits_value-print_number,
}
use trn_actions.Newsrc.Groups.{
  segments, after_dash, Count, count_segment, NgData, Counters, negchar, print_ℤ, count_loop,
  tr_bogus, one, getngsize, size_found,
}

atol-digits :
    (c : ℕ) (s : Bytes) → All IsDigit (c ∷ s) → atol (c ∷ s) ≡ pos (digits_value 0 (c ∷ s))
unfolding atol
atol-digits c s h =
    let blank : is_space c ≡ false = ground arith in
    let minus : (c == b'-') ≡ false = ground arith in
    let plus : (c == b'+') ≡ false = ground arith in rw (blank, minus, plus)

digits_full : (s : Bytes) (n : ℕ) → All IsDigit s → digits_value 0 s ≡ suc n → atol s ≡ pos (suc n)
unfolding digits_value
digits_full [] n h e = absurd (omega arith)
digits_full (c ∷ s) n h e = atol-digits c s h ∙ ap pos e

-- Reading a printed number, not zero, gives it back.
pub atol-print_number : (n : ℕ) → 0 < n → atol (print_number n) ≡ pos n
atol-print_number zero h = elim h [ ]
atol-print_number (suc n) h =
    digits_full (print_number (suc n)) n (print_number-IsDigit (suc n))
      (digits_value-print_number (suc n))

segments-digits : (s : Bytes) → All IsDigit s → segments s ≡ s ∷ []
unfolding segments
segments-digits [] h = refl
segments-digits (c ∷ s) h =
    let other : (c == b',') ≡ false = ground arith in rw (other, segments-digits s h.1)

abbrev from_one : ℕ → Bytes
from_one n = b'1' ∷ b'-' ∷ print_number n

segments-from_one : (n : ℕ) → segments (from_one n) ≡ from_one n ∷ []
unfolding segments
segments-from_one n = rw (segments-digits (print_number n) (print_number-IsDigit n))

after_dash-from_one : (n : ℕ) → after_dash (from_one n) ≡ some (print_number n)
unfolding after_dash
after_dash-from_one n = refl

atol-from_one : (n : ℕ) → atol (from_one n) ≡ pos 1
unfolding atol
atol-from_one n = refl

abbrev start_count : ℤ → ℤ → Count
start_count ngsize ngmax = record {
  unread = ngsize;
  ngsize = ngsize;
  ngmax = ngmax;
  stopped = false;
}

take_all : (n : ℕ) → 0 < n → pos n -ℤ (pos n -ℤ pos 1 +ℤ one) ≡ pos 0
unfolding ◌-ℤ◌ ◌+ℤ◌
take_all n h = ground arith

take_one_more : pos 0 -ℤ one ≡ negsuc 0
unfolding ◌-ℤ◌
take_one_more = refl

-- The range 1-n is taken off, and one more.
count_segment-from_one :
    (lax : Bool) (n : ℕ) (ngmax : ℤ)
    → 0 < n
    → count_segment lax (from_one n) (start_count (pos n) ngmax)
      ≡ record { unread = negsuc 0; ngsize = pos n; ngmax = ngmax; stopped = false }
unfolding count_segment
count_segment-from_one lax n ngmax h =
    let nonzero_end : eq_ℤ (pos n) (pos 0) ≡ false = ground arith in
    let no_more : ltb_ℤ (pos n) (pos n) ≡ false = ground arith in
    rw (
      after_dash-from_one n,
      atol-from_one n,
      atol-print_number n h,
      take_all n h,
      nonzero_end,
      take_one_more,
      no_more,
    )

if_two :
    {A : Type 0} (P : A → Type 0) (p q : Bool) {x y z : A}
    → P x
    → P y
    → P z
    → P (if p then x else if q then y else z)
if_two P true q a b c = a
if_two P false true a b c = b
if_two P false false a b c = c

abbrev pub IsReset : NgData × Counters → ℕ → Type 0
IsReset r n =
    (r.0.nums ≡ []) × (r.0.toread ≡ pos n) × (r.0.rc_changed ≡ true) × (r.1.paranoid ≡ true)

module _ (find_actgrp : NgData → Option (ℤ × ℤ)) where
  counted-all_read :
      (lax : Bool) (np : NgData) (n : ℕ)
      → 0 < n
      → np.nums ≡ all_read find_actgrp (pos n)
      → counted find_actgrp lax np (pos n)
        ≡ record { unread = negsuc 0; ngsize = pos n; ngmax = np.ngmax; stopped = false }
  unfolding counted count_loop skip_while print_ℤ
  counted-all_read lax np n h e =
      rw (e, segments-from_one n, count_segment-from_one lax n np.ngmax h)

  settle_lem :
      (virgin : Bool) (np : NgData) (g : Counters) (unread : ℤ)
      → ((settle find_actgrp virgin np g unread).0 ≡ record np { toread = unread })
        × ((settle find_actgrp virgin np g unread).1.paranoid ≡ g.paranoid)
  settle_lem virgin np g unread =
      if_two
        (λ (r : NgData × Counters).
          (r.0 ≡ record np { toread = unread }) × (r.1.paranoid ≡ g.paranoid))
        (leb_ℤ g.ng_min_toread unread) (leb_ℤ unread (pos 0) && ltb_ℤ g.ng_min_toread np.toread)
        (refl, kept (not virgin && ltb_ℤ np.toread g.ng_min_toread)) (refl, refl) (refl, refl)
    where
      kept :
          (r : Bool)
          → Counters.paranoid
              (if r then record g { newsgroup_toread = g.newsgroup_toread +ℤ one } else g)
            ≡ g.paranoid
      kept true = refl
      kept false = refl

  recount-all_read :
      (virgin lax : Bool) (np : NgData) (g : Counters) (n : ℕ)
      → 0 < n
      → np.nums ≡ all_read find_actgrp (pos n)
      → np.subscribechar ≢ negchar
      → IsReset (recount find_actgrp virgin lax np g (pos n)) n
  unfolding recount
  recount-all_read virgin lax np g n h e sub =
      let other : (np.subscribechar == negchar) ≡ false = ground arith in
      let kept =
        settle_lem virgin (record np { ngmax = np.ngmax; nums = []; rc_changed = true })
          (record g { paranoid = true }) (pos n) in
      rw (counted-all_read lax np n h e, other)
        (ap (λ r. r.nums) kept.0, ap (λ r. r.toread) kept.0, ap (λ r. r.rc_changed) kept.0, kept.1)

  nonzero_first : (z : ℤ) → z ≢ pos 0 → eq_ℤ z (pos 0) ≡ false
  nonzero_first (pos zero) h = absurd (h refl)
  nonzero_first (pos (suc n)) h = ground arith
  nonzero_first (negsuc n) h = ground arith

  getngsize-known :
      (np : NgData) (g : Counters) (n : ℕ) (first : ℤ)
      → np.ngmax ≡ pos n
      → find_actgrp np ≡ some (pos n, first)
      → np.abs1st ≢ pos 0
      → getngsize find_actgrp np g ≡ (np, g, pos n)
  unfolding getngsize size_found
  getngsize-known np g n first top found seen =
      let old : eq_ℤ np.abs1st (pos 0) ≡ false = nonzero_first np.abs1st seen in
      let reached : leb_ℤ (pos n) np.ngmax ≡ true = rw top (ground arith) in
      rw (found, old, reached) (ap (λ (z : ℤ). (np, g, z)) top)

  -- A group whose line says that all its n articles, n > 0, are read is taken for one that was reset:
  -- the line loses its numbers and all n count as unread. The group is subscribed, seen before, and
  -- the server reports n as its last article.
  pub set_toread-all_read :
      (np : NgData) (lax : Bool) (g : Counters) (n : ℕ) (first : ℤ)
      → 0 < n
      → np.nums ≡ all_read find_actgrp (pos n)
      → np.subscribechar ≢ negchar
      → np.abs1st ≢ pos 0
      → np.ngmax ≡ pos n
      → find_actgrp np ≡ some (pos n, first)
      → IsReset (set_toread find_actgrp np lax g) n
  unfolding set_toread
  set_toread-all_read np lax g n first h e sub seen top found =
      let old : eq_ℤ np.abs1st (pos 0) ≡ false = nonzero_first np.abs1st seen in
      let known : eq_ℤ (pos n) tr_bogus ≡ false = ground arith in
      rw (getngsize-known np g n first top found seen, old, known)
        (recount-all_read false lax np g n h e sub)
