-- ===== src/Base64/RoundTrip.antt =====
-- base64Decode gives back what base64Encode was given.
use Prim.Native.Nat.{bit_and, bit_or}
use dora_foxglove.Prelude.{
  ℕ, ◌+◌, ◌*◌, ◌/◌, ◌%◌, ◌^◌, ◌<◌, ◌≡◌, refl, sym, ap, ◌∙◌, Bool, false, List, [], ◌∷◌, ◌++◌,
  Option, none, some, ok, err, arith, ◌==◌, ==_iff, length, All, append-nil, append_assoc,
}
use dora_foxglove.Prelude.Bits.{
  bit_or_shifted, bit_and_low2, bit_and_low4, bit_and_low6, all_below, all_below_sound,
}
use dora_foxglove.Base64.{
  alphabet, pad_character, encode, returned, sextet, byte, padding, shift_in, decode_loop, outcome,
  decode,
}

abbrev pub IsByte : ℕ → Type 0
IsByte b = b < 256

abbrev is_value : ℕ → Option ℕ → Bool
is_value s none = false
is_value s (some v) = v == s

value_of : (s : ℕ) (o : Option ℕ) → is_value s o ≡ Bool.true → o ≡ some s
value_of s none h = cc
value_of s (some v) h = ap some ((==_iff v s).0 h)

-- Each of the 64 characters decodes to its place in the alphabet.
pub sextet-alphabet : (s : ℕ) → s < 64 → sextet (alphabet s) ≡ some s
unfolding all_below sextet alphabet
sextet-alphabet s h =
    value_of s _ (all_below_sound 64 (λ x. is_value x (sextet (alphabet x))) s refl h)

-- A character of the alphabet adds its six bits below what `temp` holds.
pub shift_in-alphabet :
    (temp s : ℕ) (decoded rest : List ℕ)
    → s < 64
    → shift_in temp decoded (alphabet s ∷ rest) ≡ ok (temp * 64 % 2 ^ 32 + s)
unfolding shift_in
shift_in-alphabet temp s decoded rest h = rw (sextet-alphabet s h, shift_in) (ap ok joined)
  where
    joined : bit_or (temp * 2 ^ 6 % 2 ^ 32) s ≡ temp * 64 % 2 ^ 32 + s
    joined =
        let low : temp * 2 ^ 6 % 2 ^ 32 ≡ temp % 2 ^ 26 * 2 ^ 6 = omega arith in
        rw low (bit_or_shifted 6 (temp % 2 ^ 26) s h ∙ omega arith)

-- The three index expressions of the encoder, as arithmetic.
second_index :
    (a b : ℕ) → IsByte a → IsByte b → bit_or (bit_and a 0b11 * 16) (b / 16) ≡ a % 4 * 16 + b / 16
second_index a b ha hb = rw (bit_and_low2 a ha) (bit_or_shifted 4 (a % 4) (b / 16) (omega arith))

third_index :
    (b c : ℕ) → IsByte b → IsByte c → bit_or (bit_and b 0b1111 * 4) (c / 64) ≡ b % 16 * 4 + c / 64
third_index b c hb hc = rw (bit_and_low4 b hb) (bit_or_shifted 2 (b % 16) (c / 64) (omega arith))

-- `temp` after one more character.
abbrev pub pushed : ℕ → ℕ → ℕ
pushed temp s = temp * 64 % 2 ^ 32 + s

push_12 : (t p q : ℕ) → q < 64 → t % 2 ^ 6 ≡ p → pushed t q % 2 ^ 12 ≡ p * 2 ^ 6 + q
push_12 t p q h e = omega arith

push_18 : (t p q : ℕ) → q < 64 → t % 2 ^ 12 ≡ p → pushed t q % 2 ^ 18 ≡ p * 2 ^ 6 + q
push_18 t p q h e = omega arith

push_24 : (t p q : ℕ) → q < 64 → t % 2 ^ 18 ≡ p → pushed t q % 2 ^ 24 ≡ p * 2 ^ 6 + q
push_24 t p q h e = omega arith

-- After two, three and four characters the low bits of `temp` are the sextets read, whatever it
-- held before.
pub low_12 : (t p q : ℕ) → p < 64 → q < 64 → pushed (pushed t p) q % 2 ^ 12 ≡ p * 2 ^ 6 + q
low_12 t p q hp hq = push_12 (pushed t p) p q hq (omega arith)

low_18 :
    (t p q r : ℕ)
    → p < 64
    → q < 64
    → r < 64
    → pushed (pushed (pushed t p) q) r % 2 ^ 18 ≡ (p * 2 ^ 6 + q) * 2 ^ 6 + r
low_18 t p q r hp hq hr = push_18 (pushed (pushed t p) q) _ r hr (low_12 t p q hp hq)

low_24 :
    (t p q r s : ℕ)
    → p < 64
    → q < 64
    → r < 64
    → s < 64
    → pushed (pushed (pushed (pushed t p) q) r) s % 2 ^ 24
      ≡ ((p * 2 ^ 6 + q) * 2 ^ 6 + r) * 2 ^ 6 + s
low_24 t p q r s hp hq hr hs = push_24 _ _ s hs (low_18 t p q r hp hq hr)

-- The bytes that the decoder takes out of `temp`, for a group of three, two and one bytes.
group_bytes :
    (x a b c : ℕ)
    → IsByte a
    → IsByte b
    → IsByte c
    → x % 2 ^ 24
      ≡ ((a / 4 * 2 ^ 6 + (a % 4 * 16 + b / 16)) * 2 ^ 6 + (b % 16 * 4 + c / 64)) * 2 ^ 6 + c % 64
    → (byte (x / 2 ^ 16) ≡ a) × (byte (x / 2 ^ 8) ≡ b) × (byte x ≡ c)
group_bytes x a b c ha hb hc e = omega arith

pair_bytes :
    (x a b : ℕ)
    → IsByte a
    → IsByte b
    → x % 2 ^ 18 ≡ (a / 4 * 2 ^ 6 + (a % 4 * 16 + b / 16)) * 2 ^ 6 + b % 16 * 4
    → (byte (x * 64 % 2 ^ 32 / 2 ^ 16) ≡ a) × (byte (x * 64 % 2 ^ 32 / 2 ^ 8) ≡ b)
pair_bytes x a b ha hb e = omega arith

single_byte :
    (x a : ℕ)
    → IsByte a
    → x % 2 ^ 12 ≡ a / 4 * 2 ^ 6 + a % 4 * 16
    → byte (x * 64 % 2 ^ 32 / 2 ^ 10) ≡ a
single_byte x a ha e = omega arith

-- A whole group of four characters of the alphabet.
pub decode_loop-group :
    (t p q r s : ℕ) (decoded rest : List ℕ)
    → p < 64
    → q < 64
    → r < 64
    → s < 64
    → let T = pushed (pushed (pushed (pushed t p) q) r) s in
      decode_loop t decoded (alphabet p ∷ alphabet q ∷ alphabet r ∷ alphabet s ∷ rest)
      ≡ decode_loop T (decoded ++ byte (T / 2 ^ 16) ∷ byte (T / 2 ^ 8) ∷ byte T ∷ []) rest
unfolding decode_loop
decode_loop-group t p q r s decoded rest hp hq hr hs = rw (
  shift_in-alphabet t p decoded _ hp,
  shift_in-alphabet _ q decoded _ hq,
  shift_in-alphabet _ r decoded _ hr,
  shift_in-alphabet _ s decoded _ hs,
)

-- A group that ends in one pad character, or in two (whatever follows the first of them).
decode_loop-pad1 :
    (t p q r : ℕ) (decoded : List ℕ)
    → p < 64
    → q < 64
    → r < 64
    → let T = pushed (pushed (pushed t p) q) r * 64 % 2 ^ 32 in
      decode_loop t decoded (alphabet p ∷ alphabet q ∷ alphabet r ∷ pad_character ∷ [])
      ≡ err (returned (decoded ++ byte (T / 2 ^ 16) ∷ byte (T / 2 ^ 8) ∷ []))
unfolding decode_loop
decode_loop-pad1 t p q r decoded hp hq hr =
    rw
      (
        shift_in-alphabet t p decoded _ hp,
        shift_in-alphabet _ q decoded _ hq,
        shift_in-alphabet _ r decoded _ hr,
      )
      (unfold shift_in sextet padding in refl)

pub decode_loop-pad2 :
    (t p q x : ℕ) (decoded : List ℕ)
    → p < 64
    → q < 64
    → let T = pushed (pushed t p) q * 64 % 2 ^ 32 in
      decode_loop t decoded (alphabet p ∷ alphabet q ∷ pad_character ∷ x ∷ [])
      ≡ err (returned (decoded ++ byte (T / 2 ^ 10) ∷ []))
unfolding decode_loop
decode_loop-pad2 t p q x decoded hp hq =
    rw (shift_in-alphabet t p decoded _ hp, shift_in-alphabet _ q decoded _ hq)
      (unfold shift_in sextet padding in refl)

decode_loop-encode :
    (xs : List ℕ) (temp : ℕ) (decoded : List ℕ)
    → All IsByte xs
    → outcome (decode_loop temp decoded (encode xs)) ≡ ok (decoded ++ xs)
unfolding encode outcome
decode_loop-encode [] temp decoded h = unfold decode_loop in ap ok (sym (append-nil decoded))
decode_loop-encode (a ∷ []) temp decoded h =
    let x = pushed (pushed temp (a / 4)) (a % 4 * 16) in
    let last : byte (x * 64 % 2 ^ 32 / 2 ^ 10) ≡ a =
      single_byte x a h.0 (low_12 temp (a / 4) (a % 4 * 16) (omega arith) (omega arith)) in
    rw (
      bit_and_low2 a h.0,
      decode_loop-pad2 temp (a / 4) (a % 4 * 16) pad_character decoded (omega arith) (omega arith),
      last,
    )
decode_loop-encode (a ∷ b ∷ []) temp decoded h =
    let q = a % 4 * 16 + b / 16 in
    let r = b % 16 * 4 in
    let x = pushed (pushed (pushed temp (a / 4)) q) r in
    let (first, second) =
      pair_bytes x a b h.0 h.1.0
        (low_18 temp (a / 4) q r (omega arith) (omega arith) (omega arith)) in
    rw (
      second_index a b h.0 h.1.0,
      bit_and_low4 b h.1.0,
      decode_loop-pad1 temp (a / 4) q r decoded (omega arith) (omega arith) (omega arith),
      first,
      second,
    )
decode_loop-encode (a ∷ b ∷ c ∷ rest) temp decoded h =
    let q = a % 4 * 16 + b / 16 in
    let r = b % 16 * 4 + c / 64 in
    let s = c % 64 in
    let x = pushed (pushed (pushed (pushed temp (a / 4)) q) r) s in
    let (first, second, third) =
      group_bytes x a b c h.0 h.1.0 h.1.1.0
        (low_24 temp (a / 4) q r s (omega arith) (omega arith) (omega arith) (omega arith)) in
    rw
      (
        second_index a b h.0 h.1.0,
        third_index b c h.1.0 h.1.1.0,
        bit_and_low6 c h.1.1.0,
        decode_loop-group temp (a / 4) q r s decoded (encode rest) (omega arith) (omega arith)
            (omega arith) (omega arith),
        first,
        second,
        third,
        decode_loop-encode rest x (decoded ++ a ∷ b ∷ c ∷ []) h.1.1.1,
      )
      (ap ok (append_assoc decoded (a ∷ b ∷ c ∷ []) rest))

length-encode_mod : (xs : List ℕ) → length (encode xs) % 4 ≡ 0
unfolding encode
length-encode_mod [] = refl
length-encode_mod (a ∷ []) = refl
length-encode_mod (a ∷ b ∷ []) = refl
length-encode_mod (a ∷ b ∷ c ∷ rest) = omega (arith, length-encode_mod rest)

-- Decoding what was encoded gives the same bytes back, for every list of bytes.
pub decode-encode : (xs : List ℕ) → All IsByte xs → decode (encode xs) ≡ ok xs
unfolding decode
decode-encode xs h = rw (length-encode_mod xs) (decode_loop-encode xs 0 [] h)
