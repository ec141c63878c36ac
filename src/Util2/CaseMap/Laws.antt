-- ===== src/Util2/CaseMap/Laws.antt =====
-- What the comparisons of util2.cpp decide.
use trn_actions.Prelude.{
  ℕ, zero, suc, ◌+◌, ◌<◌, ◌≡◌, refl, ◌↔◌, Bool, true, ◌||◌, [], ◌∷◌, map, arith, Bytes, leb, ◌==◌,
  if◌then◌else◌, take, AreChars,
}
use trn_actions.Int.{pos}
use trn_actions.Ranges.{passes_up_to, passes_at}
use trn_actions.StringAlgos.{is_upper}
use trn_actions.Util2.CaseMap.{casemap, strcasecmp, strncasecmp}

casemap_nonzero_table : passes_up_to (λ c. leb 1 (casemap c) || c == 0) 256 ≡ true
unfolding passes_up_to casemap
casemap_nonzero_table = refl

casemap_nonzero : (c : ℕ) → 0 < c → c < 256 → 0 < casemap c
casemap_nonzero c h k =
    ground (arith, passes_at (λ c. leb 1 (casemap c) || c == 0) 256 c k casemap_nonzero_table)

casemap-zero : casemap 0 ≡ 0
unfolding casemap
casemap-zero = refl

-- tolower of the "C" locale
abbrev pub to_lower : ℕ → ℕ
to_lower c = if is_upper c then c + 32 else c

abbrev is_folded : ℕ → Bool
is_folded c = if c == b'[' then casemap c == b'{' else casemap c == to_lower c

casemap-to_lower_table : passes_up_to is_folded 256 ≡ true
unfolding passes_up_to casemap
casemap-to_lower_table = refl

-- On every byte but `[` the table is `tolower`; it sends `[` to `{`.
pub casemap-to_lower : (c : ℕ) → c < 256 → casemap c ≡ (if c == b'[' then b'{' else to_lower c)
casemap-to_lower c h = ground (arith, passes_at is_folded 256 c h casemap-to_lower_table)

-- Over strings of non-zero bytes the comparison returns 0 exactly when the strings are equal
-- after each byte goes through `casemap`.
pub strcasecmp-eq-zero_iff :
    (s t : Bytes)
    → AreChars s
    → AreChars t
    → (strcasecmp s t ≡ pos 0) ↔ (map casemap s ≡ map casemap t)
unfolding strcasecmp
strcasecmp-eq-zero_iff [] [] hs ht = ground (arith, casemap-zero)
strcasecmp-eq-zero_iff [] (d ∷ t) hs ht =
    ground (arith, casemap-zero, casemap_nonzero d ht.0.0 ht.0.1)
strcasecmp-eq-zero_iff (c ∷ s) [] hs ht =
    ground (arith, casemap-zero, casemap_nonzero c hs.0.0 hs.0.1)
strcasecmp-eq-zero_iff (c ∷ s) (d ∷ t) hs ht = ground (arith, strcasecmp-eq-zero_iff s t hs.1 ht.1)

-- With a length the comparison returns 0 exactly when the first `len` bytes agree after
-- `casemap`, or the strings end alike before that.
pub strncasecmp-eq-zero_iff :
    (s t : Bytes) (len : ℕ)
    → AreChars s
    → AreChars t
    → (strncasecmp s t len ≡ pos 0) ↔ (map casemap (take len s) ≡ map casemap (take len t))
unfolding strncasecmp
strncasecmp-eq-zero_iff s t zero hs ht = ground arith
strncasecmp-eq-zero_iff [] [] (suc len) hs ht = ground (arith, casemap-zero)
strncasecmp-eq-zero_iff [] (d ∷ t) (suc len) hs ht =
    ground (arith, casemap-zero, casemap_nonzero d ht.0.0 ht.0.1)
strncasecmp-eq-zero_iff (c ∷ s) [] (suc len) hs ht =
    ground (arith, casemap-zero, casemap_nonzero c hs.0.0 hs.0.1)
strncasecmp-eq-zero_iff (c ∷ s) (d ∷ t) (suc len) hs ht =
    ground (arith, strncasecmp-eq-zero_iff s t len hs.1 ht.1)
