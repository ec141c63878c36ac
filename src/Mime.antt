-- ===== src/Mime.antt =====
-- mime.cpp: the decoders of the transfer encodings quoted-printable and base64. A string is the
-- list of its bytes, and a FILE the bytes that are still to be read from it; readart, which
-- mime_getc reads from where there is no FILE, is not modelled.
pub mod Quoted
pub mod Base64
pub mod Files
mod Examples
use mathlib.Core.Option
use trn_actions.Uudecode.Stream.{Phase, done, at_start, active, maybedone, failed}
use trn_actions.Prelude.{
  ℕ, ◌+◌, ◌*◌, ◌/◌, ◌%◌, Bool, true, false, not, ◌&&◌, ◌||◌, Option, none, some, List, [], ◌∷◌,
  ◌++◌, Bytes, ◌==◌, if◌then◌else◌, get_or,
}

-- XX
abbrev pub xx : ℕ
xx = 255

-- The first half of a table; the second holds XX only.
abbrev pub hex_table : List ℕ
hex_table =
    255 ∷ 255 ∷ 255 ∷ 255 ∷ 255 ∷ 255 ∷ 255 ∷ 255 ∷ 255 ∷ 255 ∷ 255 ∷ 255 ∷ 255 ∷ 255 ∷ 255 ∷ 255
    ∷ 255 ∷ 255 ∷ 255 ∷ 255 ∷ 255 ∷ 255 ∷ 255 ∷ 255 ∷ 255 ∷ 255 ∷ 255 ∷ 255 ∷ 255 ∷ 255 ∷ 255 ∷ 255
    ∷ 255 ∷ 255 ∷ 255 ∷ 255 ∷ 255 ∷ 255 ∷ 255 ∷ 255 ∷ 255 ∷ 255 ∷ 255 ∷ 255 ∷ 255 ∷ 255 ∷ 255 ∷ 255
    ∷ 0 ∷ 1 ∷ 2 ∷ 3 ∷ 4 ∷ 5 ∷ 6 ∷ 7 ∷ 8 ∷ 9 ∷ 255 ∷ 255 ∷ 255 ∷ 255 ∷ 255 ∷ 255 ∷ 255 ∷ 10 ∷ 11 ∷ 12
    ∷ 13 ∷ 14 ∷ 15 ∷ 255 ∷ 255 ∷ 255 ∷ 255 ∷ 255 ∷ 255 ∷ 255 ∷ 255 ∷ 255 ∷ 255 ∷ 255 ∷ 255 ∷ 255
    ∷ 255 ∷ 255 ∷ 255 ∷ 255 ∷ 255 ∷ 255 ∷ 255 ∷ 255 ∷ 255 ∷ 255 ∷ 255 ∷ 255 ∷ 255 ∷ 10 ∷ 11 ∷ 12
    ∷ 13 ∷ 14 ∷ 15 ∷ 255 ∷ 255 ∷ 255 ∷ 255 ∷ 255 ∷ 255 ∷ 255 ∷ 255 ∷ 255 ∷ 255 ∷ 255 ∷ 255 ∷ 255
    ∷ 255 ∷ 255 ∷ 255 ∷ 255 ∷ 255 ∷ 255 ∷ 255 ∷ 255 ∷ 255 ∷ 255 ∷ 255 ∷ 255 ∷ []

abbrev pub b64_table : List ℕ
b64_table =
    255 ∷ 255 ∷ 255 ∷ 255 ∷ 255 ∷ 255 ∷ 255 ∷ 255 ∷ 255 ∷ 255 ∷ 255 ∷ 255 ∷ 255 ∷ 255 ∷ 255 ∷ 255
    ∷ 255 ∷ 255 ∷ 255 ∷ 255 ∷ 255 ∷ 255 ∷ 255 ∷ 255 ∷ 255 ∷ 255 ∷ 255 ∷ 255 ∷ 255 ∷ 255 ∷ 255 ∷ 255
    ∷ 255 ∷ 255 ∷ 255 ∷ 255 ∷ 255 ∷ 255 ∷ 255 ∷ 255 ∷ 255 ∷ 255 ∷ 255 ∷ 62 ∷ 255 ∷ 255 ∷ 255 ∷ 63
    ∷ 52 ∷ 53 ∷ 54 ∷ 55 ∷ 56 ∷ 57 ∷ 58 ∷ 59 ∷ 60 ∷ 61 ∷ 255 ∷ 255 ∷ 255 ∷ 255 ∷ 255 ∷ 255 ∷ 255 ∷ 0
    ∷ 1 ∷ 2 ∷ 3 ∷ 4 ∷ 5 ∷ 6 ∷ 7 ∷ 8 ∷ 9 ∷ 10 ∷ 11 ∷ 12 ∷ 13 ∷ 14 ∷ 15 ∷ 16 ∷ 17 ∷ 18 ∷ 19 ∷ 20 ∷ 21
    ∷ 22 ∷ 23 ∷ 24 ∷ 25 ∷ 255 ∷ 255 ∷ 255 ∷ 255 ∷ 255 ∷ 255 ∷ 26 ∷ 27 ∷ 28 ∷ 29 ∷ 30 ∷ 31 ∷ 32 ∷ 33
    ∷ 34 ∷ 35 ∷ 36 ∷ 37 ∷ 38 ∷ 39 ∷ 40 ∷ 41 ∷ 42 ∷ 43 ∷ 44 ∷ 45 ∷ 46 ∷ 47 ∷ 48 ∷ 49 ∷ 50 ∷ 51 ∷ 255
    ∷ 255 ∷ 255 ∷ 255 ∷ 255 ∷ []

unfoldable pub index_hex : ℕ → ℕ
index_hex c = get_or hex_table c xx

unfoldable pub index_b64 : ℕ → ℕ
index_b64 c = get_or b64_table c xx

-- `*f == '=' && f[1] == '\n'` and what the two hexadecimal digits behind the sign make, if they
-- are digits.
abbrev pub hex_value : ℕ → ℕ → Option ℕ
hex_value c d =
    if index_hex c == xx || index_hex d == xx
    then none
    else some ((index_hex c * 16 + index_hex d) % 256)

-- `if (*t != '\r') t++`
abbrev pub unless_return : ℕ → Bytes → Bytes
unless_return c rest = if c == 13 then rest else c ∷ rest

abbrev pub plain_byte : Bool → ℕ → ℕ
plain_byte in_header c = if in_header && c == b'_' then b' ' else c

unfoldable pub qp_decodestring : Bool → Bytes → Bytes
qp_decodestring in_header [] = []
qp_decodestring in_header (c ∷ []) = plain_byte in_header c ∷ []
qp_decodestring in_header (c ∷ d ∷ []) = elim (c == b'=' && d == 10) [
  | true ↦ []
  | false ↦ plain_byte in_header c ∷ qp_decodestring in_header (d ∷ [])
]
qp_decodestring in_header (c ∷ d ∷ e ∷ f) = elim (c == b'=') [
  | false ↦ plain_byte in_header c ∷ qp_decodestring in_header (d ∷ e ∷ f)
  | true ↦ elim (d == 10) [
    | true ↦ qp_decodestring in_header (e ∷ f)
    | false ↦ elim (hex_value d e) [
      | none ↦ c ∷ qp_decodestring in_header (d ∷ e ∷ f)
      | some v ↦ unless_return v (qp_decodestring in_header f)
    ]
  ]
]

-- The loop of qp_decode: what is put into the file. At the end of the input the value EOF is put
-- as a byte, where the loop goes back to `check_c1` with it.
unfoldable pub qp_loop : Bytes → Bytes
qp_loop [] = []
qp_loop (c ∷ []) = if c == b'=' then b'=' ∷ 255 ∷ [] else c ∷ []
qp_loop (c ∷ d ∷ []) = elim (c == b'=') [
  | false ↦ c ∷ qp_loop (d ∷ [])
  | true ↦ elim (d == 10) [
    | true ↦ []
    | false ↦ elim (index_hex d == xx) [
      | true ↦ b'=' ∷ qp_loop (d ∷ [])
      | false ↦ b'=' ∷ d ∷ 255 ∷ []
    ]
  ]
]
qp_loop (c ∷ d ∷ e ∷ f) = elim (c == b'=') [
  | false ↦ c ∷ qp_loop (d ∷ e ∷ f)
  | true ↦ elim (d == 10) [
    | true ↦ qp_loop (e ∷ f)
    | false ↦ elim (index_hex d == xx) [
      | true ↦ b'=' ∷ qp_loop (d ∷ e ∷ f)
      | false ↦ elim (index_hex e == xx) [
        | true ↦ b'=' ∷ d ∷ qp_loop (e ∷ f)
        | false ↦ unless_return (index_hex d * 16 + index_hex e) (qp_loop f)
      ]
    ]
  ]
]

-- Where the loop of b64_decodestring stands: which of a group's four values it reads, with ch1 or
-- ch2 as read before.
pub data Group : Type 0 where
  first : Group
  second third fourth : ℕ → Group

-- A value `v` of the alphabet: the byte that it completes, and the place behind it.
unfoldable pub complete : Group → ℕ → Bytes → Bytes
complete first v rest = rest
complete (second ch1) v rest = (ch1 * 4 + v / 16) % 256 ∷ rest
complete (third ch2) v rest = (ch2 % 16 * 16 + v / 4) % 256 ∷ rest
complete (fourth ch1) v rest = (ch1 % 4 * 64 + v) % 256 ∷ rest

unfoldable pub next_group : Group → ℕ → Group
next_group first v = second v
next_group (second ch1) v = third v
next_group (third ch2) v = fourth v
next_group (fourth ch1) v = first

unfoldable pub decode_from : Group → Bytes → Bytes
decode_from g [] = []
decode_from g (c ∷ f) = elim (c == b'=') [
  | true ↦ []
  | false ↦ elim (index_b64 c == xx) [
    | true ↦ decode_from g f
    | false ↦ complete g (index_b64 c) (decode_from (next_group g (index_b64 c)) f)
  ]
]

unfoldable pub b64_decodestring : Bytes → Bytes
b64_decodestring f = decode_from first f

-- Which of the four bytes of a group the loop of b64_decode reads, with those before it.
pub data Reading : Type 0 where
  none_read : Reading
  one_read : ℕ → Reading
  two_read : ℕ → ℕ → Reading
  three_read : ℕ → ℕ → ℕ → Reading

-- A whole group: what it puts into the file, and whether it ends the data.
unfoldable pub put_group : ℕ → ℕ → ℕ → ℕ → Bytes × Bool
put_group c1 c2 c3 c4 =
    let b1 = (index_b64 c1 * 4 + index_b64 c2 / 16) % 256 in
    let b2 = (index_b64 c2 % 16 * 16 + index_b64 c3 / 4) % 256 in
    let b3 = (index_b64 c3 % 4 * 64 + index_b64 c4) % 256 in
    if c1 == b'=' || c2 == b'='
    then ([], true)
    else if c3 == b'='
    then (b1 ∷ [], true)
    else if c4 == b'='
    then (b1 ∷ b2 ∷ [], true)
    else (b1 ∷ b2 ∷ b3 ∷ [], false)

abbrev pub put_front : Bytes → Bytes × Phase → Bytes × Phase
put_front out (rest, state) = (out ++ rest, state)

abbrev pub ended_or : Bytes × Bool → Bytes × Phase → Bytes × Phase
ended_or (out, true) rest = (out, done)
ended_or (out, false) rest = put_front out rest

-- The end of the input.
abbrev pub at_eof : Phase → Reading → Phase
at_eof state none_read = maybedone
at_eof state (one_read c1) = state
at_eof state (two_read c1 c2) = state
at_eof state (three_read c1 c2 c3) = state

-- `c1 != '=' && index_b64[c1] == XX`
unfoldable pub is_noise : ℕ → Bool
is_noise c = not (c == b'=') && index_b64 c == xx

-- The loop of b64_decode: what it puts into the file, and the state that it ends in.
unfoldable pub b64_loop : Phase → Reading → Bytes → Bytes × Phase
b64_loop state r [] = ([], at_eof state r)
b64_loop state none_read (c ∷ f) =
    if is_noise c then b64_loop state none_read f else b64_loop state (one_read c) f
b64_loop state (one_read c1) (c ∷ f) =
    if is_noise c then b64_loop state (one_read c1) f else b64_loop state (two_read c1 c) f
b64_loop state (two_read c1 c2) (c ∷ f) =
    if is_noise c then b64_loop state (two_read c1 c2) f else b64_loop state (three_read c1 c2 c) f
b64_loop state (three_read c1 c2 c3) (c ∷ f) =
    if is_noise c
    then b64_loop state (three_read c1 c2 c3) f
    else ended_or (put_group c1 c2 c3 c) (b64_loop state none_read f)

-- The static variable `ofp`, with what was written, and the files that were closed.
pub record Sink : Type 0 where
  pub ofp : Option Bytes
  pub closed : List Bytes

abbrev pub close_sink : Sink → Sink
close_sink s = record {
  ofp = none;
  closed = elim s.ofp [ none ↦ s.closed | some out ↦ out ∷ s.closed ];
}

-- putc on a null pointer is `none`.
abbrev pub put_out : Bytes → Sink → Option Sink
put_out [] s = some s
put_out (c ∷ out) s =
    Option.map (λ before. record { ofp = some (before ++ (c ∷ out)); closed = s.closed }) s.ofp

abbrev pub opened : Sink → Sink
opened s = record { ofp = some []; closed = s.closed }

abbrev pub qp_put : Bytes → Sink → Option (Phase × Sink)
qp_put input s = Option.map (λ final. (maybedone, final)) (put_out (qp_loop input) s)

-- The state that is returned, with the file. `can_open` is whether fopen opens the file.
unfoldable pub qp_decode : Bool → Bytes → Phase → Sink → Option (Phase × Sink)
qp_decode can_open input done s = some (done, close_sink s)
qp_decode false input at_start s = some (failed, record { ofp = none; closed = s.closed })
qp_decode true input at_start s = qp_put input (opened s)
qp_decode can_open input state s = qp_put input s

-- `goto all_done` where the data ended
abbrev pub after_loop : Phase → Sink → Phase × Sink
after_loop done s = (done, close_sink s)
after_loop state s = (state, s)

abbrev pub b64_put : Phase → Bytes → Sink → Option (Phase × Sink)
b64_put state input s =
    let (out, now) = b64_loop state none_read input in Option.map (after_loop now) (put_out out s)

unfoldable pub b64_decode : Bool → Bytes → Phase → Sink → Option (Phase × Sink)
b64_decode can_open input done s = some (done, close_sink s)
b64_decode false input at_start s = some (failed, record { ofp = none; closed = s.closed })
b64_decode true input at_start s = b64_put active input (opened s)
b64_decode can_open input state s = b64_put state input s
