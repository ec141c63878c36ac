-- ===== src/Utf/Text.antt =====
-- utf.cpp: the functions that walk over a string. Each loop steps by `byte_length_at`, and takes fuel.
use trn_actions.Prelude.{
  ℕ, zero, suc, ◌+◌, ◌-◌, ◌%◌, Bool, true, false, not, ◌&&◌, ◌||◌, Option, none, some, [], ◌∷◌,
  ◌++◌, Bytes, ltb, leb, ◌==◌, if◌then◌else◌, length, get_or, take, drop, peek,
}
use trn_actions.Utf.Charset.{invalid_code_point, charset_id, GState, utf8}
use trn_actions.Utf.Decode.{
  utf8_length, byte_length_at, utf8_code_point, code_point_at, visual_width_at,
}
use trn_actions.Utf.Encode.{write_utf8}

-- `none` is the value of an unset variable, or the end of the fuel.
infixl 5 ◌>>=◌
abbrev pub ◌>>=◌ {ℓ κ} : {A : Type ℓ} {B : Type κ} → Option A → (A → Option B) → Option B
none >>= f = none
some a >>= f = f a

visual_loop : ℕ → GState → Bytes → Option ℕ
visual_loop f gs [] = some 0
visual_loop zero gs (c ∷ s) = none
visual_loop (suc f) gs (c ∷ s) = do
  v ← visual_width_at gs (some (c ∷ s))
  it ← visual_loop f gs (drop (byte_length_at gs (some (c ∷ s))) (c ∷ s))
  some (v + it)

unfoldable pub visual_length_of : GState → Option Bytes → Option ℕ
unfolding visual_loop visual_width_at byte_length_at utf8_length
visual_length_of gs none = some 0
visual_length_of gs (some s) = visual_loop (length s) gs s

-- `for (; *s1 && s1 < s2; )`, with the distance of the two pointers
between_loop : ℕ → GState → Bytes → ℕ → Option ℕ
between_loop f gs [] n = some 0
between_loop f gs (c ∷ s) zero = some 0
between_loop zero gs (c ∷ s) (suc n) = none
between_loop (suc f) gs (c ∷ s) (suc n) =
    let w = byte_length_at gs (some (c ∷ s)) in
    do
      v ← visual_width_at gs (some (c ∷ s))
      it ← between_loop f gs (drop w (c ∷ s)) (suc n - w)
      some (v + it)

-- Two pointers into one string, as offsets; they are exchanged where the first is the greater.
unfoldable pub visual_length_between : GState → Bytes → Option ℕ → Option ℕ → Option ℕ
unfolding between_loop visual_width_at byte_length_at utf8_length
visual_length_between gs s none j = some 0
visual_length_between gs s (some i) none = some 0
visual_length_between gs s (some i) (some j) =
    if ltb j i
    then between_loop (length s) gs (drop j s) (i - j)
    else between_loop (length s) gs (drop i s) (j - i)

is_norm_point : ℕ → Bool
is_norm_point c =
    leb 0x20 c && (not (leb 0x7f c && ltb c 0xa0) && (not (c == 0x2028) && not (c == 0x2029)))

abbrev norm_in_table : Option Bytes → ℕ → Bool
norm_in_table none c = true
norm_in_table (some himap) c = not (get_or himap (c % 128) 0 == invalid_code_point)

-- at_norm_char at a byte that is not the terminator
unfoldable pub at_norm_char : GState → Option Bytes → Bool
unfolding is_norm_point utf8_code_point
at_norm_char gs none = false
at_norm_char gs (some []) = false
at_norm_char gs (some (c ∷ s)) =
    if charset_id gs.in_set == charset_id utf8
    then is_norm_point (utf8_code_point (c ∷ s))
    else if ltb c 0x80
    then leb b' ' c && ltb c 0x7f
    else norm_in_table gs.himap_in c

-- What put_char_adv returns, leaves in `*strptr`, and prints.
pub record PutChar : Type 0 where
  pub width : ℕ
  pub ptr : Option Bytes
  pub printed : Bytes

put_wide : GState → Bool → Bytes → Option PutChar
put_wide gs outputok s =
    let w = byte_length_at gs (some s) in
    do
      it ← visual_width_at gs (some s)
      some (
          if outputok
          then record { width = it; ptr = some (drop w s); printed = take w s }
          else record { width = it; ptr = some s; printed = [] })

-- `buf` is the local buffer, with whatever it holds.
put_table : Option Bytes → Bytes → Bytes → Option PutChar
put_table none buf s = none
put_table (some himap) buf s =
    let (written, count) = write_utf8 buf (get_or himap (peek s % 128) 0) in
    do w ← count; some (record { width = 1; ptr = some (drop 1 s); printed = take w written })

unfoldable pub put_char_adv : GState → Bytes → Option Bytes → Bool → Option PutChar
unfolding put_wide put_table visual_width_at byte_length_at utf8_length write_utf8
put_char_adv gs buf none outputok = some (record { width = 0; ptr = none; printed = [] })
put_char_adv gs buf (some s) outputok =
    if charset_id gs.in_set == charset_id utf8 || (leb b' ' (peek s) && ltb (peek s) 0x7f)
    then put_wide gs outputok s
    else put_table gs.himap_in buf s

-- The first pass of create_utf8_copy: `tlen`. `buf` is the scratch buffer.
unfoldable pub tally : ℕ → GState → Bytes → Bytes → Option ℕ
tally f gs buf [] = some 0
tally zero gs buf (c ∷ s) = none
tally (suc f) gs buf (c ∷ s) = do
  p ← code_point_at gs (some (c ∷ s))
  tw ← (write_utf8 buf p).1
  tlen ← tally f gs (write_utf8 buf p).0 (drop (byte_length_at gs (some (c ∷ s))) (c ∷ s))
  some (tw + tlen)

-- The second pass: what stands in the allocated block from `bufptr` to the terminator.
unfoldable pub copy_pass : ℕ → GState → Bytes → Bytes → Option Bytes
copy_pass f gs block [] = some []
copy_pass zero gs block (c ∷ s) = none
copy_pass (suc f) gs block (c ∷ s) = do
  p ← code_point_at gs (some (c ∷ s))
  n ← (write_utf8 block p).1
  rest ←
      copy_pass f gs (drop n (write_utf8 block p).0)
        (drop (byte_length_at gs (some (c ∷ s))) (c ∷ s))
  some (take n (write_utf8 block p).0 ++ rest)

abbrev into_block : ℕ → GState → Bytes → Option Bytes → Option (Option Bytes)
into_block f gs s none = some none
into_block f gs s (some block) = do copy ← copy_pass f gs block s; some (some copy)

-- `malloc` is a function from a size to a block of that many bytes, or null. The inner option of
-- the result is the returned pointer.
unfoldable pub create_utf8_copy :
    GState → (ℕ → Option Bytes) → Bytes → Option Bytes → Option (Option Bytes)
unfolding tally copy_pass code_point_at byte_length_at utf8_length write_utf8
create_utf8_copy gs malloc buf none = some none
create_utf8_copy gs malloc buf (some s) = do
  tlen ← tally (length s) gs buf s
  into_block (length s) gs s (malloc (tlen + 1))

-- The loop of terminate_string_at_visual_index: what it steps over, what is left, and `j`.
walk_to : ℕ → GState → ℕ → Bytes → ℕ → Option (Bytes × Bytes × ℕ)
walk_to f gs i [] j = some ([], [], j)
walk_to zero gs i (c ∷ s) j = none
walk_to (suc f) gs i (c ∷ s) j =
    let w = byte_length_at gs (some (c ∷ s)) in
    do
      v ← visual_width_at gs (some (c ∷ s))
      elim (w == 0 || ltb i (j + v)) [
        | true ↦ some ([], c ∷ s, j)
        | false ↦ do
          (kept, rest, j') ← walk_to f gs i (drop w (c ∷ s)) (j + v)
          some (take w (c ∷ s) ++ kept, rest, j')
      ]

abbrev cut : ℕ → Bytes × Bytes × ℕ → Bytes
cut i (kept, [], j) = kept
cut i (kept, c ∷ rest, j) = if j + 1 == i then kept ++ b' ' ∷ [] else kept

-- The string that is left in place; the index is not negative.
unfoldable pub terminate_string_at_visual_index : GState → Bytes → ℕ → Option Bytes
unfolding walk_to visual_width_at byte_length_at utf8_length
terminate_string_at_visual_index gs s i = do r ← walk_to (length s) gs i s 0; some (cut i r)
