-- ===== src/Mime/Base64.antt =====
-- mime.cpp: what base64 writes is read back, from a string and from a file, whatever bytes outside
-- of the alphabet stand between.
use mathlib.Core.Path.{fun_ext}
use trn_actions.Prelude.{
  ℕ, ◌+◌, ◌*◌, ◌/◌, ◌%◌, ◌<◌, ◌≡◌, refl, sym, ap, ap₂, ◌∙◌, inl, inr, Bool, true, false, not, ◌&&◌,
  [], ◌∷◌, arith, Bytes, ◌==◌, if◌then◌else◌, Bool-cases, codes, get_or, All,
}
use trn_actions.Ranges.{passes_up_to, passes_at}
use trn_actions.Mime.{
  first, complete, is_noise, xx, index_b64, decode_from, Group, b64_decodestring, second, third,
  fourth, next_group,
}

abbrev pub alphabet : ℕ → ℕ
alphabet v = get_or (codes "ABCDEFGHIJKLMNOPQRSTUVWXYZabcdefghijklmnopqrstuvwxyz0123456789+/") v 0

abbrev pub encode : Bytes → Bytes
encode [] = []
encode (a ∷ []) = alphabet (a / 4) ∷ alphabet (a % 4 * 16) ∷ b'=' ∷ b'=' ∷ []
encode (a ∷ b ∷ []) =
    alphabet (a / 4) ∷ alphabet (a % 4 * 16 + b / 16) ∷ alphabet (b % 16 * 4) ∷ b'=' ∷ []
encode (a ∷ b ∷ c ∷ s) =
    alphabet (a / 4)
    ∷ alphabet (a % 4 * 16 + b / 16)
    ∷ alphabet (b % 16 * 4 + c / 64)
    ∷ alphabet (c % 64)
    ∷ encode s

abbrev pub IsByte : ℕ → Type 0
IsByte c = c < 256

-- A text without the bytes that both decoders pass over.
abbrev pub without_noise : Bytes → Bytes
without_noise [] = []
without_noise (c ∷ f) = let rest = without_noise f in if is_noise c then rest else c ∷ rest

abbrev letter_test : ℕ → Bool
letter_test v = index_b64 (alphabet v) == v && not (alphabet v == b'=')

letters_pass : passes_up_to letter_test 64 ≡ true
unfolding passes_up_to index_b64
letters_pass = refl

pub index_b64-alphabet : (v : ℕ) → v < 64 → index_b64 (alphabet v) ≡ v
index_b64-alphabet v h = ground (arith, passes_at letter_test 64 v h letters_pass)

pub alphabet-ne-pad : (v : ℕ) → v < 64 → (alphabet v == b'=') ≡ false
alphabet-ne-pad v h = ground (arith, passes_at letter_test 64 v h letters_pass)

pub alphabet-IsLetter : (v : ℕ) → v < 64 → (index_b64 (alphabet v) == xx) ≡ false
alphabet-IsLetter v h = ground (arith, index_b64-alphabet v h)

decode_letter :
    (g : Group) (v : ℕ) (f : Bytes)
    → v < 64
    → decode_from g (alphabet v ∷ f) ≡ complete g v (decode_from (next_group g v) f)
unfolding decode_from
decode_letter g v f h =
    rw (decode_from, alphabet-ne-pad v h)
      (rw (alphabet-IsLetter v h) (rw (index_b64-alphabet v h) refl))

decode_pad : (g : Group) (f : Bytes) → decode_from g (b'=' ∷ f) ≡ []
unfolding decode_from
decode_pad g f = refl

decode_none : decode_from first [] ≡ []
unfolding decode_from
decode_none = refl

module _ (a b c : ℕ) where
  pub first_sum : a < 256 → b < 256 → (a / 4 * 4 + (a % 4 * 16 + b / 16) / 16) % 256 ≡ a
  first_sum h k = omega arith

  pub second_sum :
      a < 256
      → b < 256
      → c < 256
      → ((a % 4 * 16 + b / 16) % 16 * 16 + (b % 16 * 4 + c / 64) / 4) % 256 ≡ b
  second_sum h k l = omega arith

  pub third_sum : b < 256 → c < 256 → ((b % 16 * 4 + c / 64) % 4 * 64 + c % 64) % 256 ≡ c
  third_sum k l = omega arith

decode_from-encode : (s : Bytes) → All IsByte s → decode_from first (encode s) ≡ s
unfolding complete next_group
decode_from-encode [] h = decode_none
decode_from-encode (a ∷ []) (ha, h) =
    decode_letter first (a / 4) _ (omega arith)
    ∙ decode_letter (second (a / 4)) (a % 4 * 16) _ (omega arith)
    ∙ ap₂ (λ x f. x ∷ f) (omega (arith, first_sum a 0 0 ha (omega arith)))
        (decode_pad (third (a % 4 * 16)) _)
decode_from-encode (a ∷ b ∷ []) (ha, (hb, h)) =
    decode_letter first (a / 4) _ (omega arith)
    ∙ decode_letter (second (a / 4)) (a % 4 * 16 + b / 16) _ (omega arith)
    ∙ ap₂ (λ x f. x ∷ f) (first_sum a b 0 ha hb)
        (decode_letter (third (a % 4 * 16 + b / 16)) (b % 16 * 4) _ (omega arith)
          ∙ ap₂ (λ x f. x ∷ f) (omega (arith, second_sum a b 0 ha hb (omega arith)))
              (decode_pad (fourth (b % 16 * 4)) _))
decode_from-encode (a ∷ b ∷ c ∷ s) (ha, (hb, (hc, h))) =
    decode_letter first (a / 4) _ (omega arith)
    ∙ decode_letter (second (a / 4)) (a % 4 * 16 + b / 16) _ (omega arith)
    ∙ ap₂ (λ x f. x ∷ f) (first_sum a b 0 ha hb)
        (decode_letter (third (a % 4 * 16 + b / 16)) (b % 16 * 4 + c / 64) _ (omega arith)
          ∙ ap₂ (λ x f. x ∷ f) (second_sum a b c ha hb hc)
              (decode_letter (fourth (b % 16 * 4 + c / 64)) (c % 64) _ (omega arith)
                ∙ ap₂ (λ x f. x ∷ f) (third_sum a b c hb hc) (decode_from-encode s h)))

decode_noise :
    (g : Group) (c : ℕ) (f : Bytes) → is_noise c ≡ true → decode_from g (c ∷ f) ≡ decode_from g f
unfolding decode_from is_noise
decode_noise g c f e = ground (arith, e)

-- One round of the loop, for what the rest is decoded to.
abbrev round : Group → ℕ → (Group → Bytes) → Bytes
round g c next = elim (c == b'=') [
  | true ↦ []
  | false ↦ elim (index_b64 c == xx) [
    | true ↦ next g
    | false ↦ complete g (index_b64 c) (next (next_group g (index_b64 c)))
  ]
]

decode_from-without_noise :
    (g : Group) (f : Bytes) → decode_from g (without_noise f) ≡ decode_from g f
unfolding decode_from
decode_from-without_noise g [] = refl
decode_from-without_noise g (c ∷ f) = elim (Bool-cases (is_noise c)) [
  | inl e ↦ rw e (decode_from-without_noise g f ∙ sym (decode_noise g c f e))
  | inr e ↦ rw e (ap (round g c) (fun_ext (λ j. decode_from-without_noise j f)))
]

-- A string is decoded to the bytes whose encoding it is, in groups of four letters with signs that
-- fill the last group, whatever other bytes stand between.
pub b64_decodestring-encode :
    (s f : Bytes) → All IsByte s → without_noise f ≡ encode s → b64_decodestring f ≡ s
unfolding b64_decodestring
b64_decodestring-encode s f h e =
    sym (decode_from-without_noise first f) ∙ ap (decode_from first) e ∙ decode_from-encode s h
