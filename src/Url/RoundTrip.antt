-- ===== src/Url/RoundTrip.antt =====
-- parse_url reads back the parts that a URL is put together from.
use trn_actions.Prelude.{
  ℕ, zero, suc, ◌+◌, ◌^◌, ◌≤◌, ◌<◌, ◌≡◌, refl, ap, ap₂, ◌∙◌, subst, ◌≢◌, Bool, true, false, Option,
  none, some, [], ◌∷◌, ◌++◌, append-nil, arith, Bytes, ltb, ◌==◌, length, peek, All,
}
use trn_actions.Int.{ℤ, pos}
use trn_actions.StringAlgos.{is_digit}
use trn_actions.StringAlgos.Split.{StopsAt, skip_while-append}
use trn_actions.Newsrc.Numbers.{
  print_number, IsDigit, digits_value, print_number-IsDigit, digits_value-print_number,
  length-print_number, to_int, atoi, to_int-pos, atol-digit_first,
}
use trn_actions.Url.{
  parse_path, parse_rest, parse_locator, not_colon, copied, parse_url, Url, in_host, parse_port,
  parse_host, not_bracket, host_size, buf_size, type_size, path_size, parse_literal,
}

pub copied-append :
    (p : ℕ → Bool) (run rest : Bytes)
    → All (λ c. p c ≡ true) run
    → StopsAt p rest
    → copied p (run ++ rest) ≡ run
unfolding copied
copied-append p [] [] all stop = refl
copied-append p [] (c ∷ rest) all stop = rw stop refl
copied-append p (c ∷ run) rest all stop =
    rw all.0 (ap (λ (t : Bytes). c ∷ t) (copied-append p run rest all.1 stop))

-- `:` and a port number, or nothing.
abbrev pub port_text : Option ℕ → Bytes
port_text none = []
port_text (some n) = b':' ∷ print_number n

abbrev pub port_or_default : Option ℕ → ℤ
port_or_default none = pos 80
port_or_default (some n) = pos n

-- A port number that is named fits in an int.
abbrev pub IsPort : Option ℕ → Type 0
IsPort none = Unit {0}
IsPort (some n) = n < 2 ^ 31

abbrev pub parts : Bytes → Bytes → Option ℕ → Bytes → Url
parts kind host port path = record {
  url_port = port_or_default port;
  url_type = kind;
  url_host = some host;
  url_path = path;
}

parse_url-type :
    (kind rest : Bytes) (u : Url)
    → All (λ c. not_colon c ≡ true) kind
    → length kind < type_size
    → parse_url (some (kind ++ b':' ∷ rest)) u
      ≡ parse_locator rest (record u { url_port = pos 80; url_type = kind })
unfolding parse_url
parse_url-type [] rest u h room = refl
parse_url-type (c ∷ kind) rest u h room =
    let fits : ltb (length (c ∷ kind)) type_size ≡ true = ground (arith, room) in
    rw
      (
        skip_while-append not_colon (c ∷ kind) (b':' ∷ rest) h refl,
        copied-append not_colon (c ∷ kind) (b':' ∷ rest) h refl,
        fits,
      )
      refl

pub peek-digits :
    (s rest : Bytes) → All IsDigit s → 0 < length s → is_digit (peek (s ++ rest)) ≡ true
peek-digits [] rest h some_digit = elim some_digit [ ]
peek-digits (c ∷ s) rest h some_digit = h.0

pub length-print_number-pos : (n : ℕ) → 0 < length (print_number n)
unfolding digits_value print_number
length-print_number-pos zero = omega arith
length-print_number-pos (suc n) = go (print_number (suc n)) (digits_value-print_number (suc n))
  where
    go : (s : Bytes) → digits_value 0 s ≡ suc n → 0 < length s
    go [] e = absurd (omega arith)
    go (c ∷ s) e = omega arith

atoi-print_number : (n : ℕ) → n < 2 ^ 31 → atoi (print_number n) ≡ pos n
unfolding atoi
atoi-print_number n int =
    let first : is_digit (peek (print_number n)) ≡ true =
      subst (λ (s : Bytes). is_digit (peek s) ≡ true) (append-nil (print_number n))
        (peek-digits (print_number n) [] (print_number-IsDigit n) (length-print_number-pos n)) in
    ap to_int (atol-digit_first (print_number n) first ∙ ap pos (digits_value-print_number n))
    ∙ to_int-pos n int

parse_port-print_number :
    (n : ℕ) (path : Bytes) (u : Url)
    → n < 2 ^ 31
    → length (b'/' ∷ path) < path_size
    → parse_port (print_number n ++ b'/' ∷ path) u
      ≡ some (true, record u { url_port = pos n; url_path = b'/' ∷ path })
unfolding parse_port parse_path
parse_port-print_number n path u int room =
    let digits = print_number-IsDigit n in
    let short : length (print_number n) ≤ 10 =
      length-print_number n 10 (omega (arith, int)) (omega arith) in
    let in_buf : ltb (length (print_number n)) buf_size ≡ true = ground (arith, short) in
    let in_path : ltb (length (b'/' ∷ path)) path_size ≡ true = ground (arith, room) in
    rw
      (
        peek-digits (print_number n) (b'/' ∷ path) digits (length-print_number-pos n),
        skip_while-append is_digit (print_number n) (b'/' ∷ path) digits refl,
        copied-append is_digit (print_number n) (b'/' ∷ path) digits refl,
        in_buf,
        in_path,
        atoi-print_number n int,
      )
      refl

-- Behind the host there is a port number or none, and the path.
parse_rest-port :
    (port : Option ℕ) (kind host path : Bytes) (u : Url)
    → IsPort port
    → length (b'/' ∷ path) < path_size
    → parse_rest
        (port_text port ++ b'/' ∷ path)
        (record u { url_port = pos 80; url_type = kind; url_host = some host })
      ≡ some (true, parts kind host port (b'/' ∷ path))
unfolding parse_rest parse_path
parse_rest-port none kind host path u int room =
    let in_path : ltb (length (b'/' ∷ path)) path_size ≡ true = ground (arith, room) in
    rw in_path refl
parse_rest-port (some n) kind host path u int room =
    parse_port-print_number n path
      (record u { url_port = pos 80; url_type = kind; url_host = some host }) int room

stops-port : (port : Option ℕ) (path : Bytes) → StopsAt in_host (port_text port ++ b'/' ∷ path)
stops-port none path = refl
stops-port (some n) path = refl

abbrev pub print_url : Bytes → Bytes → Option ℕ → Bytes → Bytes
print_url kind host port path =
    kind ++ b':' ∷ b'/' ∷ b'/' ∷ (host ++ (port_text port ++ b'/' ∷ path))

parse_host-name :
    (host rest : Bytes) (u : Url)
    → All (λ c. in_host c ≡ true) host
    → StopsAt in_host rest
    → peek (host ++ rest) ≢ b'['
    → length host < host_size
    → parse_host (host ++ rest) u ≡ parse_rest rest (record u { url_host = some host })
unfolding parse_host
parse_host-name host rest u h stop plain room =
    let fits : ltb (length host) host_size ≡ true = ground (arith, room) in
    let other : (peek (host ++ rest) == b'[') ≡ false = ground arith in
    rw
      (
        other,
        skip_while-append in_host host rest h stop,
        copied-append in_host host rest h stop,
        fits,
      )
      refl

not_literal :
    (host path : Bytes) (port : Option ℕ)
    → peek host ≢ b'['
    → peek (host ++ (port_text port ++ b'/' ∷ path)) ≢ b'['
not_literal [] path none h = ground arith
not_literal [] path (some n) h = ground arith
not_literal (c ∷ host) path port h = h

-- A URL of a type, a host, a port or none, and a path that begins with a slash is parsed into these
-- parts, with port 80 where it names none, whatever was parsed before. The type holds no colon; the
-- host holds no colon or slash and does not begin with `[`; each of them fits in its buffer, and
-- the port in an int.
pub parse_url-print_url :
    (kind host path : Bytes) (port : Option ℕ) (u : Url)
    → All (λ c. not_colon c ≡ true) kind
    → All (λ c. in_host c ≡ true) host
    → peek host ≢ b'['
    → IsPort port
    → length kind < type_size
    → length host < host_size
    → length path + 1 < path_size
    → parse_url (some (print_url kind host port path)) u
      ≡ some (true, parts kind host port (b'/' ∷ path))
unfolding parse_locator
parse_url-print_url kind host path port u hk hh plain int in_type in_host_buf in_path =
    parse_url-type kind (b'/' ∷ b'/' ∷ (host ++ (port_text port ++ b'/' ∷ path))) u hk in_type
    ∙ parse_host-name host (port_text port ++ b'/' ∷ path)
        (record u { url_port = pos 80; url_type = kind }) hh (stops-port port path)
        (not_literal host path port plain) in_host_buf
    ∙ parse_rest-port port kind host path u int (omega (arith, in_path))

parse_host-literal :
    (address rest : Bytes) (u : Url)
    → All (λ c. not_bracket c ≡ true) address
    → length address + 1 < host_size
    → parse_host (b'[' ∷ (address ++ b']' ∷ rest)) u
      ≡ parse_rest rest (record u { url_host = some (b'[' ∷ address) })
unfolding parse_host
parse_host-literal address rest u h room =
    let fits : ltb (length (b'[' ∷ address)) host_size ≡ true = ground (arith, room) in
    ap₂ (λ (a s : Bytes). parse_literal a s u)
      (copied-append not_bracket (b'[' ∷ address) (b']' ∷ rest) (refl, h) refl)
      (skip_while-append not_bracket (b'[' ∷ address) (b']' ∷ rest) (refl, h) refl)
    ∙ rw fits refl

-- An address literal in brackets is parsed too, but the host keeps the opening bracket, and only
-- that one. The address holds no closing bracket; the parts fit in their buffers, and the port in an
-- int.
pub parse_url-literal :
    (kind address path : Bytes) (port : Option ℕ) (u : Url)
    → All (λ c. not_colon c ≡ true) kind
    → All (λ c. not_bracket c ≡ true) address
    → IsPort port
    → length kind < type_size
    → length address + 1 < host_size
    → length path + 1 < path_size
    → parse_url
        (some
          (kind ++ b':' ∷ b'/' ∷ b'/' ∷ b'[' ∷ (address ++ b']' ∷ (port_text port ++ b'/' ∷ path))))
        u
      ≡ some (true, parts kind (b'[' ∷ address) port (b'/' ∷ path))
unfolding parse_locator
parse_url-literal kind address path port u hk ha int in_type in_host_buf in_path =
    let rest = port_text port ++ b'/' ∷ path in
    parse_url-type kind (b'/' ∷ b'/' ∷ b'[' ∷ (address ++ b']' ∷ rest)) u hk in_type
    ∙ parse_host-literal address rest (record u { url_port = pos 80; url_type = kind }) ha
        in_host_buf
    ∙ parse_rest-port port kind (b'[' ∷ address) path u int (omega (arith, in_path))
