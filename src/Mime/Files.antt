-- ===== src/Mime/Files.antt =====
-- mime.cpp: b64_decode on a file, and both decoders with the files that they write.
use mathlib.Core.Option
use trn_actions.Prelude.{
  ℕ, ◌+◌, ◌*◌, ◌/◌, ◌%◌, ◌<◌, ◌≡◌, refl, sym, ap, ap₂, ◌∙◌, inl, inr, Bool, true, false, Option,
  none, some, List, [], ◌∷◌, arith, Bytes, Bool-cases, All,
}
use trn_actions.Uudecode.Stream.{Phase, done, maybedone, at_start, active}
use trn_actions.Mime.{
  put_group, b64_loop, ended_or, three_read, none_read, two_read, is_noise, one_read, opened,
  b64_decode, Reading, put_out, qp_decode, Sink, close_sink, after_loop, qp_loop,
}
use trn_actions.Mime.Quoted.{Piece, print, said, IsPiece, qp_loop-print}
use trn_actions.Mime.Base64.{
  alphabet, index_b64-alphabet, alphabet-ne-pad, alphabet-IsLetter, encode, IsByte, first_sum,
  second_sum, without_noise, third_sum,
}

loop_first :
    (state : Phase) (c : ℕ) (f : Bytes)
    → is_noise c ≡ false
    → b64_loop state none_read (c ∷ f) ≡ b64_loop state (one_read c) f
unfolding b64_loop
loop_first state c f e = rw e refl

loop_second :
    (state : Phase) (c1 c : ℕ) (f : Bytes)
    → is_noise c ≡ false
    → b64_loop state (one_read c1) (c ∷ f) ≡ b64_loop state (two_read c1 c) f
unfolding b64_loop
loop_second state c1 c f e = rw e refl

loop_third :
    (state : Phase) (c1 c2 c : ℕ) (f : Bytes)
    → is_noise c ≡ false
    → b64_loop state (two_read c1 c2) (c ∷ f) ≡ b64_loop state (three_read c1 c2 c) f
unfolding b64_loop
loop_third state c1 c2 c f e = rw e refl

loop_fourth :
    (state : Phase) (c1 c2 c3 c : ℕ) (f : Bytes)
    → is_noise c ≡ false
    → b64_loop state (three_read c1 c2 c3) (c ∷ f)
      ≡ ended_or (put_group c1 c2 c3 c) (b64_loop state none_read f)
unfolding b64_loop
loop_fourth state c1 c2 c3 c f e = rw e refl

loop_group :
    (state : Phase) (c1 c2 c3 c4 : ℕ) (f : Bytes)
    → is_noise c1 ≡ false
    → is_noise c2 ≡ false
    → is_noise c3 ≡ false
    → is_noise c4 ≡ false
    → b64_loop state none_read (c1 ∷ c2 ∷ c3 ∷ c4 ∷ f)
      ≡ ended_or (put_group c1 c2 c3 c4) (b64_loop state none_read f)
loop_group state c1 c2 c3 c4 f e1 e2 e3 e4 =
    loop_first state c1 _ e1
    ∙ loop_second state c1 c2 _ e2
    ∙ loop_third state c1 c2 c3 _ e3
    ∙ loop_fourth state c1 c2 c3 c4 f e4

alphabet-is_noise : (v : ℕ) → v < 64 → is_noise (alphabet v) ≡ false
unfolding is_noise
alphabet-is_noise v h = ground (arith, alphabet-IsLetter v h)

pad-is_noise : is_noise b'=' ≡ false
unfolding is_noise
pad-is_noise = refl

-- How the data ends: filled groups say that it does, and else the input's end does.
abbrev pub end_of : Bytes → Phase
end_of [] = maybedone
end_of (a ∷ []) = done
end_of (a ∷ b ∷ []) = done
end_of (a ∷ b ∷ c ∷ s) = end_of s

put_three :
    (v1 v2 v3 v4 : ℕ)
    → v1 < 64
    → v2 < 64
    → v3 < 64
    → v4 < 64
    → put_group (alphabet v1) (alphabet v2) (alphabet v3) (alphabet v4) ≡ (
      (v1 * 4 + v2 / 16) % 256 ∷ (v2 % 16 * 16 + v3 / 4) % 256 ∷ (v3 % 4 * 64 + v4) % 256 ∷ [],
      false,
    )
unfolding put_group
put_three v1 v2 v3 v4 h1 h2 h3 h4 =
    rw
      (
        alphabet-ne-pad v1 h1,
        alphabet-ne-pad v2 h2,
        alphabet-ne-pad v3 h3,
        alphabet-ne-pad v4 h4,
        index_b64-alphabet v1 h1,
        index_b64-alphabet v2 h2,
        index_b64-alphabet v3 h3,
        index_b64-alphabet v4 h4,
      )
      refl

put_two :
    (v1 v2 v3 : ℕ)
    → v1 < 64
    → v2 < 64
    → v3 < 64
    → put_group (alphabet v1) (alphabet v2) (alphabet v3) b'='
      ≡ ((v1 * 4 + v2 / 16) % 256 ∷ (v2 % 16 * 16 + v3 / 4) % 256 ∷ [], true)
unfolding put_group
put_two v1 v2 v3 h1 h2 h3 =
    rw
      (
        alphabet-ne-pad v1 h1,
        alphabet-ne-pad v2 h2,
        alphabet-ne-pad v3 h3,
        index_b64-alphabet v1 h1,
        index_b64-alphabet v2 h2,
        index_b64-alphabet v3 h3,
      )
      refl

put_one :
    (v1 v2 : ℕ)
    → v1 < 64
    → v2 < 64
    → put_group (alphabet v1) (alphabet v2) b'=' b'=' ≡ ((v1 * 4 + v2 / 16) % 256 ∷ [], true)
unfolding put_group
put_one v1 v2 h1 h2 =
    rw
      (
        alphabet-ne-pad v1 h1,
        alphabet-ne-pad v2 h2,
        index_b64-alphabet v1 h1,
        index_b64-alphabet v2 h2,
      )
      refl

loop_none : (state : Phase) → b64_loop state none_read [] ≡ ([], maybedone)
unfolding b64_loop
loop_none state = refl

b64_loop-encode :
    (state : Phase) (s : Bytes) → All IsByte s → b64_loop state none_read (encode s) ≡ (s, end_of s)
b64_loop-encode state [] h = loop_none state
b64_loop-encode state (a ∷ []) (ha, h) =
    loop_group state _ _ _ _ [] (alphabet-is_noise (a / 4) (omega arith))
      (alphabet-is_noise (a % 4 * 16) (omega arith)) pad-is_noise pad-is_noise
    ∙ ap (λ g. ended_or g (b64_loop state none_read []))
        (put_one (a / 4) (a % 4 * 16) (omega arith) (omega arith))
    ∙ ap (λ x. (x ∷ [], done)) (omega (arith, first_sum a 0 0 ha (omega arith)))
b64_loop-encode state (a ∷ b ∷ []) (ha, (hb, h)) =
    loop_group state _ _ _ _ [] (alphabet-is_noise (a / 4) (omega arith))
      (alphabet-is_noise (a % 4 * 16 + b / 16) (omega arith))
      (alphabet-is_noise (b % 16 * 4) (omega arith)) pad-is_noise
    ∙ ap (λ g. ended_or g (b64_loop state none_read []))
        (put_two (a / 4) (a % 4 * 16 + b / 16) (b % 16 * 4) (omega arith) (omega arith)
          (omega arith))
    ∙ ap₂ (λ x y. (x ∷ y ∷ [], done)) (first_sum a b 0 ha hb)
        (omega (arith, second_sum a b 0 ha hb (omega arith)))
b64_loop-encode state (a ∷ b ∷ c ∷ s) (ha, (hb, (hc, h))) =
    loop_group state _ _ _ _ (encode s) (alphabet-is_noise (a / 4) (omega arith))
      (alphabet-is_noise (a % 4 * 16 + b / 16) (omega arith))
      (alphabet-is_noise (b % 16 * 4 + c / 64) (omega arith))
      (alphabet-is_noise (c % 64) (omega arith))
    ∙ ap (λ g. ended_or g (b64_loop state none_read (encode s)))
        (put_three (a / 4) (a % 4 * 16 + b / 16) (b % 16 * 4 + c / 64) (c % 64) (omega arith)
          (omega arith) (omega arith) (omega arith))
    ∙ ap₂ (λ out next. ended_or (out, false) next)
        (ap₂ (λ x r. x ∷ r) (first_sum a b 0 ha hb)
          (ap₂ (λ x y. x ∷ y ∷ []) (second_sum a b c ha hb hc) (third_sum a b c hb hc)))
        (b64_loop-encode state s h)

loop_noise :
    (state : Phase) (r : Reading) (c : ℕ) (f : Bytes)
    → is_noise c ≡ true
    → b64_loop state r (c ∷ f) ≡ b64_loop state r f
unfolding b64_loop
loop_noise state none_read c f e = rw e refl
loop_noise state (one_read c1) c f e = rw e refl
loop_noise state (two_read c1 c2) c f e = rw e refl
loop_noise state (three_read c1 c2 c3) c f e = rw e refl

b64_loop-cons :
    (state : Phase) (r : Reading) (c : ℕ) (f g : Bytes)
    → is_noise c ≡ false
    → ((q : Reading) → b64_loop state q f ≡ b64_loop state q g)
    → b64_loop state r (c ∷ f) ≡ b64_loop state r (c ∷ g)
b64_loop-cons state none_read c f g e h =
    loop_first state c f e ∙ h (one_read c) ∙ sym (loop_first state c g e)
b64_loop-cons state (one_read c1) c f g e h =
    loop_second state c1 c f e ∙ h (two_read c1 c) ∙ sym (loop_second state c1 c g e)
b64_loop-cons state (two_read c1 c2) c f g e h =
    loop_third state c1 c2 c f e ∙ h (three_read c1 c2 c) ∙ sym (loop_third state c1 c2 c g e)
b64_loop-cons state (three_read c1 c2 c3) c f g e h =
    loop_fourth state c1 c2 c3 c f e
    ∙ ap (ended_or (put_group c1 c2 c3 c)) (h none_read)
    ∙ sym (loop_fourth state c1 c2 c3 c g e)

b64_loop-without_noise :
    (state : Phase) (r : Reading) (f : Bytes)
    → b64_loop state r (without_noise f) ≡ b64_loop state r f
b64_loop-without_noise state r [] = refl
b64_loop-without_noise state r (c ∷ f) = elim (Bool-cases (is_noise c)) [
  | inl e ↦ rw e (b64_loop-without_noise state r f ∙ sym (loop_noise state r c f e))
  | inr e ↦ rw e (b64_loop-cons state r c _ f e (λ q. b64_loop-without_noise state q f))
]

-- A decoder called to begin with the input, and then to end.
abbrev pub decode_whole :
    (Bool → Bytes → Phase → Sink → Option (Phase × Sink)) → Bytes → Sink → Option (Phase × Sink)
decode_whole decode input s = elim (decode true input at_start s) [
  | none ↦ none
  | some (state, now) ↦ decode true [] done now
]

-- Both decoders end alike.
abbrev then_done : Option (Phase × Sink) → Option (Phase × Sink)
then_done none = none
then_done (some (state, now)) = some (done, close_sink now)

qp_none : qp_loop [] ≡ []
unfolding qp_loop
qp_none = refl

put_out-opened :
    (out : Bytes) (s : Sink)
    → put_out out (opened s) ≡ some (record { ofp = some out; closed = s.closed })
put_out-opened [] s = refl
put_out-opened (c ∷ out) s = refl

end-closes :
    (s out : Bytes) (files : List Bytes)
    → close_sink (after_loop (end_of s) (record { ofp = some out; closed = files })).1
      ≡ record { ofp = none; closed = out ∷ files }
end-closes [] out files = refl
end-closes (a ∷ []) out files = refl
end-closes (a ∷ b ∷ []) out files = refl
end-closes (a ∷ b ∷ c ∷ s) out files = end-closes s out files

-- Where the file opens and base64 of some bytes is read, between whatever bytes outside of the
-- alphabet, b64_decode leaves one more closed file, which holds the bytes, and none open.
pub b64_decode-encode :
    (s f : Bytes) (sink : Sink)
    → All IsByte s
    → without_noise f ≡ encode s
    → decode_whole b64_decode f sink ≡ some (done, record { ofp = none; closed = s ∷ sink.closed })
unfolding b64_decode
b64_decode-encode s f sink h e =
    let read =
      sym (b64_loop-without_noise active none_read f)
      ∙ ap (b64_loop active none_read) e
      ∙ b64_loop-encode active s h in
    ap (λ r. then_done (Option.map (after_loop r.1) (put_out r.0 (opened sink)))) read
    ∙ ap (λ o. then_done (Option.map (after_loop (end_of s)) o)) (put_out-opened s sink)
    ∙ ap (λ k. some (done, k)) (end-closes s s sink.closed)

-- Where the file opens and quoted-printable pieces are read, qp_decode leaves one more closed file,
-- which holds what the pieces stand for, and none open.
pub qp_decode-print :
    (ps : List Piece) (sink : Sink)
    → All (IsPiece false) ps
    → decode_whole qp_decode (print ps []) sink
      ≡ some (done, record { ofp = none; closed = said ps [] ∷ sink.closed })
unfolding qp_decode
qp_decode-print ps sink h =
    ap (λ out. then_done (Option.map (λ k. (maybedone, k)) (put_out out (opened sink))))
      (qp_loop-print ps [] h ∙ ap (said ps) qp_none)
    ∙ ap (λ o. then_done (Option.map (λ k. (maybedone, k)) o)) (put_out-opened (said ps []) sink)
