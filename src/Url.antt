-- ===== src/Url.antt =====
-- url.cpp: parse_url. The texts that it prints are left out. `none` is a text that is written past the
-- end of its buffer.
use trn_actions.Prelude.{
  ℕ, suc, Bool, true, false, not, ◌&&◌, Option, none, some, [], ◌∷◌, Bytes, ltb, ◌==◌,
  if◌then◌else◌, codes, length, drop, peek, has_prefix,
}
use trn_actions.StringAlgos.{is_digit, skip_while}
use trn_actions.Newsrc.Numbers.{atoi}
use trn_actions.Int.{ℤ, pos}
use trn_actions.Newsrc.Handlers.{same_text}
pub mod RoundTrip
mod Examples

-- s_url_port, s_url_type, s_host, s_url_path. The host is `none` where a failed call left text
-- without a terminator in it.
pub record Url : Type 0 where
  pub url_port : ℤ
  pub url_type : Bytes
  pub url_host : Option Bytes
  pub url_path : Bytes

-- What a copying loop copies: the bytes up to the first that fails the test.
unfoldable pub copied : (ℕ → Bool) → Bytes → Bytes
copied p [] = []
copied p (c ∷ s) = let rest = copied p s in if p c then c ∷ rest else []

abbrev pub not_colon : ℕ → Bool
not_colon c = not (c == b':')

abbrev pub not_bracket : ℕ → Bool
not_bracket c = not (c == b']')

abbrev pub in_host : ℕ → Bool
in_host c = not (c == b'/') && not (c == b':')

-- The sizes of s_url_type, s_url_host, s_url_path and s_url_buf.
abbrev pub type_size : ℕ
type_size = 256

abbrev pub host_size : ℕ
host_size = 256

abbrev pub path_size : ℕ
path_size = 1024

abbrev pub buf_size : ℕ
buf_size = 1030

-- Goes on where so many bytes and a terminator fit.
abbrev pub if_fits : ℕ → ℕ → Option (Bool × Url) → Option (Bool × Url)
if_fits len size next = if ltb len size then next else none

-- The path, which must begin with a slash.
unfoldable pub parse_path : Bytes → Url → Option (Bool × Url)
parse_path [] u = some (false, u)
parse_path (c ∷ s) u =
    if c == b'/'
    then if_fits (length (c ∷ s)) path_size (some (true, record u { url_path = c ∷ s }))
    else some (false, u)

-- Behind the colon of a port number.
unfoldable pub parse_port : Bytes → Url → Option (Bool × Url)
unfolding skip_while copied parse_path atoi
parse_port s u =
    let digits = copied is_digit s in
    if is_digit (peek s)
    then if_fits (length digits) buf_size
        (parse_path (skip_while is_digit s) (record u { url_port = atoi digits }))
    else some (false, u)

-- Behind the host.
unfoldable pub parse_rest : Bytes → Url → Option (Bool × Url)
unfolding parse_port parse_path
parse_rest [] u = some (false, u)
parse_rest (c ∷ s) u = if c == b':' then parse_port s u else parse_path (c ∷ s) u

-- Behind an address literal: the text from its `]`, or none.
abbrev pub parse_literal : Bytes → Bytes → Url → Option (Bool × Url)
parse_literal address [] u =
    if_fits (length address) (suc host_size) (some (false, record u { url_host = none }))
parse_literal address (c ∷ s) u =
    if_fits (length address) host_size (parse_rest s (record u { url_host = some address }))

unfoldable pub parse_host : Bytes → Url → Option (Bool × Url)
unfolding parse_rest skip_while copied
parse_host s u =
    if peek s == b'['
    then parse_literal (copied not_bracket s) (skip_while not_bracket s) u
    else if_fits (length (copied in_host s)) host_size
        (parse_rest (skip_while in_host s) (record u { url_host = some (copied in_host s) }))

-- Behind the type and its colon.
unfoldable pub parse_locator : Bytes → Url → Option (Bool × Url)
unfolding parse_host parse_path
parse_locator s u =
    if has_prefix (codes "//") s
    then parse_host (drop 2 s) u
    else if same_text u.url_type (codes "news")
    then parse_path s u
    else some (false, u)

abbrev pub behind_type : Bytes → Url → Option (Bool × Url)
behind_type [] u = some (false, u)
behind_type (c ∷ s) u = parse_locator s u

unfoldable pub parse_url : Option Bytes → Url → Option (Bool × Url)
unfolding parse_locator skip_while copied
parse_url none u = some (false, record u { url_port = pos 80 })
parse_url (some []) u = some (false, record u { url_port = pos 80 })
parse_url (some (c ∷ url)) u = if_fits (length (copied not_colon (c ∷ url))) type_size (
    behind_type (skip_while not_colon (c ∷ url))
      (record u { url_port = pos 80; url_type = copied not_colon (c ∷ url) }))
