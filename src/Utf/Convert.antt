-- ===== src/Utf/Convert.antt =====
-- create_utf8_copy of utf.cpp converts a string from the input charset to UTF-8.
use trn_actions.Prelude.{
  ℕ, zero, suc, ◌+◌, ◌-◌, ◌≤◌, ◌<◌, ◌≡◌, refl, ap, Option, none, some, List, [], ◌∷◌, ◌++◌, arith,
  Bytes, length, take, drop, length-append, All,
}
use trn_actions.Utf.Charset.{GState}
use trn_actions.Utf.Decode.{byte_length_at, code_point_at}
use trn_actions.Utf.Encode.{write_utf8, encode}
use trn_actions.Utf.Write.{write_utf8-encode}
use trn_actions.Utf.Text.{◌>>=◌, tally, copy_pass}

-- The code points of a string, one for each step of the loops.
unfoldable pub points : ℕ → GState → Bytes → Option (List ℕ)
points f gs [] = some []
points zero gs (c ∷ s) = none
points (suc f) gs (c ∷ s) = do
  p ← code_point_at gs (some (c ∷ s))
  ps ← points f gs (drop (byte_length_at gs (some (c ∷ s))) (c ∷ s))
  some (p ∷ ps)

abbrev pub encode_all : List ℕ → Bytes
encode_all [] = []
encode_all (p ∷ ps) = encode p ++ encode_all ps

-- Code points that fit in five bytes, none of them the terminator.
abbrev pub AreShort : List ℕ → Type 0
AreShort = All (λ p. (0 < p) × (p ≤ 0x3ffffff))

-- What a step of `points` that succeeds consists of.
points_step :
    (f : ℕ) (gs : GState) (c : ℕ) (s : Bytes) (ps : List ℕ)
    → points (suc f) gs (c ∷ s) ≡ some ps
    → (p : ℕ) × (qs : List ℕ) × (code_point_at gs (some (c ∷ s)) ≡ some p)
      × (points f gs (drop (byte_length_at gs (some (c ∷ s))) (c ∷ s)) ≡ some qs)
      × (ps ≡ p ∷ qs)
unfolding points
points_step f gs c s ps h =
    go (code_point_at gs (some (c ∷ s)))
      (points f gs (drop (byte_length_at gs (some (c ∷ s))) (c ∷ s))) refl refl h
  where
    go :
        (a : Option ℕ) (b : Option (List ℕ))
        → code_point_at gs (some (c ∷ s)) ≡ a
        → points f gs (drop (byte_length_at gs (some (c ∷ s))) (c ∷ s)) ≡ b
        → (a >>= λ p. b >>= λ qs. some (p ∷ qs)) ≡ some ps
        → (p : ℕ) × (qs : List ℕ) × (code_point_at gs (some (c ∷ s)) ≡ some p)
          × (points f gs (drop (byte_length_at gs (some (c ∷ s))) (c ∷ s)) ≡ some qs)
          × (ps ≡ p ∷ qs)
    go none b ea eb e = cc
    go (some p) none ea eb e = cc
    go (some p) (some qs) ea eb e = (p, qs, ea, eb, cc)

take-append : (n : ℕ) (xs ys : Bytes) → n ≡ length xs → take n (xs ++ ys) ≡ xs
take-append zero [] ys e = refl
take-append zero (x ∷ xs) ys e = absurd (omega arith)
take-append (suc n) [] ys e = absurd (omega arith)
take-append (suc n) (x ∷ xs) ys e = ap (λ (t : Bytes). x ∷ t) (take-append n xs ys (omega arith))

pub drop-append : (n : ℕ) (xs ys : Bytes) → n ≡ length xs → drop n (xs ++ ys) ≡ ys
drop-append zero [] ys e = refl
drop-append zero (x ∷ xs) ys e = absurd (omega arith)
drop-append (suc n) [] ys e = absurd (omega arith)
drop-append (suc n) (x ∷ xs) ys e = drop-append n xs ys (omega arith)

length-drop : (n : ℕ) (xs : Bytes) → length (drop n xs) ≡ length xs - n
length-drop zero xs = omega arith
length-drop (suc n) [] = omega arith
length-drop (suc n) (x ∷ xs) = omega (arith, length-drop n xs)

pub length-encode : (c : ℕ) → (1 ≤ length (encode c)) × (length (encode c) ≤ 5)
length-encode c = ground arith

-- The first pass counts the bytes of the encodings; its scratch buffer has room for any of them.
pub tally-encode_all :
    (f : ℕ) (gs : GState) (buf s : Bytes) (ps : List ℕ)
    → 5 ≤ length buf
    → points f gs s ≡ some ps
    → AreShort ps
    → tally f gs buf s ≡ some (length (encode_all ps))
unfolding tally points
tally-encode_all f gs buf [] ps room h short = ground arith
tally-encode_all zero gs buf (c ∷ s) ps room h short = cc
tally-encode_all (suc f) gs buf (c ∷ s) ps room h short =
    let (p, qs, at, next_, split) = points_step f gs c s ps h in
    let small : AreShort (p ∷ qs) = rw split at short in
    let (written, count) = write_utf8-encode p buf small.0.1 (omega (arith, length-encode p)) in
    let room' : 5 ≤ length (write_utf8 buf p).0 = rw written (
      omega (
        arith,
        length-append (encode p) (drop (length (encode p)) buf),
        length-drop (length (encode p)) buf,
      )) in
    rw (
      split,
      at,
      count,
      tally-encode_all f gs (write_utf8 buf p).0 _ qs room' next_ small.1,
      length-append (encode p) (encode_all qs),
    )

-- The second pass fills a block that has room for the encodings with exactly these.
pub copy_pass-encode_all :
    (f : ℕ) (gs : GState) (block s : Bytes) (ps : List ℕ)
    → length (encode_all ps) ≤ length block
    → points f gs s ≡ some ps
    → AreShort ps
    → copy_pass f gs block s ≡ some (encode_all ps)
unfolding copy_pass points
copy_pass-encode_all f gs block [] ps room h short = ground arith
copy_pass-encode_all zero gs block (c ∷ s) ps room h short = cc
copy_pass-encode_all (suc f) gs block (c ∷ s) ps room h short =
    let (p, qs, at, next_, split) = points_step f gs c s ps h in
    let small : AreShort (p ∷ qs) = rw split at short in
    let fits : length (encode p) + length (encode_all qs) ≤ length block =
      rw (← length-append (encode p) (encode_all qs)) (rw split at room) in
    let (written, count) = write_utf8-encode p block small.0.1 (omega arith) in
    let room' : length (encode_all qs) ≤ length (drop (length (encode p)) block) =
      omega (arith, length-drop (length (encode p)) block) in
    rw (
      split,
      at,
      count,
      written,
      drop-append (length (encode p)) (encode p) (drop (length (encode p)) block) refl,
      copy_pass-encode_all f gs (drop (length (encode p)) block) _ qs room' next_ small.1,
      take-append (length (encode p)) (encode p) (drop (length (encode p)) block) refl,
    )
