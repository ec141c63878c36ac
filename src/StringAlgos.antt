-- ===== src/StringAlgos.antt =====
-- string-algos.h: the scanning loops that the rest of the program is written with. A pointer is
-- `none` where it is null, and otherwise the bytes from it to the terminator.
pub mod Split
mod Examples
use trn_actions.Prelude.{
  ℕ, Bool, true, not, ◌&&◌, ◌||◌, Option, none, some, [], ◌∷◌, Bytes, leb, ◌==◌, if◌then◌else◌,
  peek,
}

-- isdigit, isspace, isalpha in the "C" locale
abbrev pub is_digit : ℕ → Bool
is_digit c = leb b'0' c && leb c b'9'

abbrev pub is_space : ℕ → Bool
is_space c = c == b' ' || (leb 9 c && leb c 13)

abbrev pub is_upper : ℕ → Bool
is_upper c = leb b'A' c && leb c b'Z'

abbrev pub is_lower : ℕ → Bool
is_lower c = leb b'a' c && leb c b'z'

abbrev pub is_alpha : ℕ → Bool
is_alpha c = is_upper c || is_lower c

unfoldable pub is_hor_space : ℕ → Bool
is_hor_space c = c == b' ' || c == 9

unfoldable pub empty : Option Bytes → Bool
empty none = true
empty (some s) = peek s == 0

-- `while (*str && p(*str)) ++str;`
unfoldable pub skip_while : (ℕ → Bool) → Bytes → Bytes
skip_while p [] = []
skip_while p (c ∷ s) = if p c then skip_while p s else c ∷ s

-- `if (str)` around the loop
abbrev guarded : (ℕ → Bool) → Option Bytes → Option Bytes
guarded p none = none
guarded p (some s) = some (skip_while p s)

unfoldable pub skip_ne : Option Bytes → ℕ → Option Bytes
skip_ne str delim = guarded (λ c. not (c == delim)) str

unfoldable pub skip_eq : Option Bytes → ℕ → Option Bytes
skip_eq str delim = guarded (λ c. c == delim) str

unfoldable pub skip_digits : Option Bytes → Option Bytes
skip_digits = guarded is_digit

unfoldable pub skip_space : Option Bytes → Option Bytes
skip_space = guarded is_space

unfoldable pub skip_non_space : Option Bytes → Option Bytes
skip_non_space = guarded (λ c. not (is_space c))

unfoldable pub skip_alpha : Option Bytes → Option Bytes
skip_alpha = guarded is_alpha

unfoldable pub skip_non_alpha : Option Bytes → Option Bytes
skip_non_alpha = guarded (λ c. not (is_alpha c))

unfoldable pub skip_hor_space : Option Bytes → Option Bytes
unfolding is_hor_space
skip_hor_space = guarded is_hor_space
