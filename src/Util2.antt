-- ===== src/Util2.antt =====
-- util2.cpp: copying with a limit, copying up to a delimiter, and searching for a substring.
pub mod CaseMap
pub mod Copy
pub mod Search
mod Examples
use mathlib.Core.Option
use trn_actions.Prelude.{
  ℕ, ◌+◌, ◌-◌, ◌%◌, ◌^◌, Bool, true, false, ◌&&◌, Option, none, some, [], ◌∷◌, map, Bytes, ◌==◌,
  if◌then◌else◌,
}
use trn_actions.StringAlgos.{is_upper}

abbrev pub backslash : ℕ
backslash = 92

-- `--len` on an int, as a bit pattern
abbrev pub predecessor : ℕ → ℕ
predecessor len = (len + (2 ^ 32 - 1)) % 2 ^ 32

-- `while (--len && *from) *dest++ = *from++;`
copy_loop : Bytes → ℕ → Bytes
copy_loop [] len = []
copy_loop (c ∷ from) len =
    let rest = copy_loop from (predecessor len) in if predecessor len == 0 then [] else c ∷ rest

-- What `to` holds at the end.
unfoldable pub safecpy : Option Bytes → ℕ → Bytes
unfolding copy_loop
safecpy none len = []
safecpy (some from) len = copy_loop from len

abbrev put : ℕ → Option (Bytes × Bytes) → Option (Bytes × Bytes)
put c = Option.map (λ r. (c ∷ r.0, r.1))

-- What `to` holds at the end, and the pointer that is returned. `none` is a read past the
-- terminator, which only the delimiter '\0' can cause.
pub cpytill : Bytes → ℕ → Option (Bytes × Bytes)
cpytill [] delim = some ([], [])
cpytill (c ∷ []) delim =
    if c == backslash && 0 == delim
    then none
    else if c == delim
    then some ([], c ∷ [])
    else some (c ∷ [], [])
cpytill (c ∷ d ∷ from) delim = elim (c == backslash && d == delim) [
  | true ↦ put d (cpytill from delim)
  | false ↦ elim (c == delim) [
    | true ↦ some ([], c ∷ d ∷ from)
    | false ↦ put c (cpytill (d ∷ from) delim)
  ]
]

-- How the inner loop of in_string ends: `little` is used up, `big` is, or two bytes differ.
pub data Outcome : Type 0 where
  matched ran_out differ : Outcome

abbrev lower : ℕ → ℕ
lower c = if is_upper c then c + 32 else c

-- the byte as the comparison sees it
abbrev pub key : Bool → ℕ → ℕ
key true c = c
key false c = lower c

pub compare_at : Bytes → Bytes → Bool → Outcome
compare_at x [] case_matters = matched
compare_at [] (s ∷ little) case_matters = ran_out
compare_at (x ∷ big) (s ∷ little) case_matters =
    if key case_matters s == key case_matters x then compare_at big little case_matters else differ

pub in_string : Bytes → Bytes → Bool → Option Bytes
unfolding compare_at
in_string [] little case_matters = none
in_string (t ∷ big) little case_matters = elim (compare_at (t ∷ big) little case_matters) [
  | matched ↦ some (t ∷ big)
  | ran_out ↦ none
  | differ ↦ in_string big little case_matters
]
