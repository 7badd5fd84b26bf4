-- ===== src/Base64.antt =====
-- foxglove-websocket/src/base64.cpp: base64Encode and base64Decode over lists of bytes.
-- `>> k` is `/ 2 ^ k`, `<< k` is `* 2 ^ k`; `temp` is a uint32_t, so its shift is taken `% 2 ^ 32`.
pub mod RoundTrip
pub mod Decoding
pub mod Characters
mod Tests
use Prim.Native.Nat.{bit_and, bit_or}
use dora_foxglove.Prelude.{
  ℕ, ◌+◌, ◌-◌, ◌*◌, ◌/◌, ◌%◌, ◌^◌, Bool, ◌&&◌, List, [], ◌∷◌, ◌++◌, Option, none, some, Result, ok,
  err, ◌>>=◌, leb, ◌==◌, if◌then◌else◌, length, get_or,
}
use dora_foxglove.Prelude.Texts.{codes}

-- `ALPHABET`; the index of a read is always below 64.
pub alphabet : ℕ → ℕ
alphabet i = get_or (codes "ABCDEFGHIJKLMNOPQRSTUVWXYZabcdefghijklmnopqrstuvwxyz0123456789+/") i 0

abbrev pub pad_character : ℕ
pad_character = b'='

-- The loop over groups of three bytes, and the `switch` over the one or two bytes left.
pub encode : List ℕ → List ℕ
encode [] = []
encode (a ∷ []) =
    alphabet (a / 4) ∷ alphabet (bit_and a 0b11 * 16) ∷ pad_character ∷ pad_character ∷ []
encode (a ∷ b ∷ []) =
    alphabet (a / 4)
    ∷ alphabet (bit_or (bit_and a 0b11 * 16) (b / 16))
    ∷ alphabet (bit_and b 0b1111 * 4)
    ∷ pad_character
    ∷ []
encode (a ∷ b ∷ c ∷ rest) =
    alphabet (a / 4)
    ∷ alphabet (bit_or (bit_and a 0b11 * 16) (b / 16))
    ∷ alphabet (bit_or (bit_and b 0b1111 * 4) (c / 64))
    ∷ alphabet (bit_and c 0b111111)
    ∷ encode rest

-- What `base64Decode` throws. `past_end` is no exception of the source: it stands for a read of
-- `*it` at or behind `input.end()`.
pub data Error : Type 0 where
  invalid_length invalid_padding invalid_character past_end : Error

-- How the loop is left from inside: by `return decoded` or by a `throw`.
pub data Stop : Type 0 where
  returned : List ℕ → Stop
  thrown : Error → Stop

-- The value that `temp |= ...` adds for a character of the alphabet.
pub sextet : ℕ → Option ℕ
sextet c =
    if leb 0x41 c && leb c 0x5a
    then some (c - 0x41)
    else if leb 0x61 c && leb c 0x7a
    then some (c - 0x47)
    else if leb 0x30 c && leb c 0x39
    then some (c + 0x04)
    else if c == 0x2b
    then some 0x3e
    else if c == 0x2f
    then some 0x3f
    else none

abbrev pub byte : ℕ → ℕ
byte x = x % 256

-- `switch (input.end() - it)` at a pad character.
pub padding : ℕ → List ℕ → ℕ → Stop
padding temp decoded left =
    if left == 1
    then returned (decoded ++ byte (temp / 2 ^ 16) ∷ byte (temp / 2 ^ 8) ∷ [])
    else if left == 2
    then returned (decoded ++ byte (temp / 2 ^ 10) ∷ [])
    else thrown invalid_padding

-- One round of the inner loop; the list is the input from `it` on, the result the new `temp`.
pub shift_in : ℕ → List ℕ → List ℕ → Result Stop ℕ
shift_in temp decoded [] = err (thrown past_end)
shift_in temp decoded (c ∷ rest) =
    let shifted = temp * 2 ^ 6 % 2 ^ 32 in
    elim (sextet c) [
      | some v ↦ ok (bit_or shifted v)
      | none ↦
          if c == pad_character
          then err (padding shifted decoded (length (c ∷ rest)))
          else err (thrown invalid_character)
    ]

-- The `while` loop. A group of one to three characters would be read past its end.
pub decode_loop : ℕ → List ℕ → List ℕ → Result Stop (List ℕ)
decode_loop temp decoded [] = ok decoded
decode_loop temp decoded (a ∷ b ∷ c ∷ d ∷ rest) = do
  t1 ← shift_in temp decoded (a ∷ b ∷ c ∷ d ∷ rest)
  t2 ← shift_in t1 decoded (b ∷ c ∷ d ∷ rest)
  t3 ← shift_in t2 decoded (c ∷ d ∷ rest)
  t4 ← shift_in t3 decoded (d ∷ rest)
  decode_loop t4 (decoded ++ byte (t4 / 2 ^ 16) ∷ byte (t4 / 2 ^ 8) ∷ byte t4 ∷ []) rest
decode_loop temp decoded _ = err (thrown past_end)

pub outcome : Result Stop (List ℕ) → Result Error (List ℕ)
outcome (ok decoded) = ok decoded
outcome (err (returned decoded)) = ok decoded
outcome (err (thrown e)) = err e

-- The count of pad characters at the end serves only `reserve`, which changes no result.
pub decode : List ℕ → Result Error (List ℕ)
unfolding outcome
decode input =
    if length input % 4 == 0 then outcome (decode_loop 0 [] input) else err invalid_length
