-- ===== src/Base64/Decoding.antt =====
-- base64Decode on any input, well formed or not, and the size of what base64Encode writes.
use dora_foxglove.Prelude.{
  ℕ, ◌+◌, ◌*◌, ◌/◌, ◌%◌, ◌^◌, ◌≤◌, ◌<◌, ◌≡◌, refl, ap, List, [], ◌∷◌, ◌++◌, Result, ok, err, ◌>>=◌,
  arith, ◌==◌, length, length-append, All, All-append, Bool-cases, Option-cases, inl, inr,
}
use dora_foxglove.Base64.{
  alphabet, pad_character, encode, Error, invalid_length, invalid_padding, invalid_character,
  past_end, Stop, returned, thrown, sextet, byte, padding, shift_in, decode_loop, outcome, decode,
}
use dora_foxglove.Base64.RoundTrip.{IsByte, decode_loop-pad2, low_12}

-- Every three bytes, the last ones rounded up, become four characters.
length-encode : (xs : List ℕ) → length (encode xs) ≡ (length xs + 2) / 3 * 4
unfolding encode
length-encode [] = refl
length-encode (a ∷ []) = refl
length-encode (a ∷ b ∷ []) = refl
length-encode (a ∷ b ∷ c ∷ rest) = omega (arith, length-encode rest)

-- An answer of the decoder for an input that holds room for `n` bytes: bytes, at most `n` and at
-- least `n - 2` of them, or one of the three exceptions, but no read past the end.
abbrev pub Ends : ℕ → Result Error (List ℕ) → Type 0
Ends n (ok xs) = All IsByte xs × (length xs ≤ n) × (n ≤ length xs + 2)
Ends n (err past_end) = ⊥
Ends n (err e) = Unit {0}

-- How one round may stop, with `left` characters to go: only among the last two by a return.
abbrev Stopped : List ℕ → ℕ → Result Stop ℕ → Type 0
Stopped decoded left (ok t) = Unit {0}
Stopped decoded left (err (returned xs)) =
    All IsByte xs × (length decoded + 1 ≤ length xs) × (length xs ≤ length decoded + 2) × (left ≤ 2)
Stopped decoded left (err (thrown past_end)) = ⊥
Stopped decoded left (err (thrown e)) = Unit {0}

padding-Stopped :
    (temp left : ℕ) (decoded : List ℕ)
    → All IsByte decoded
    → Stopped decoded left (err (padding temp decoded left))
unfolding padding
padding-Stopped temp left decoded h = elim (Bool-cases (left == 1)) [
  | inl e ↦ rw e (
    All-append IsByte decoded _ h (omega arith),
    ground (arith, length-append decoded (byte (temp / 2 ^ 16) ∷ byte (temp / 2 ^ 8) ∷ [])),
    ground (arith, length-append decoded (byte (temp / 2 ^ 16) ∷ byte (temp / 2 ^ 8) ∷ [])),
    ground arith,
  )
  | inr e ↦ elim (Bool-cases (left == 2)) [
    | inl e' ↦
        rw (e, e')
          (
            All-append IsByte decoded _ h (omega arith),
            ground (arith, length-append decoded (byte (temp / 2 ^ 10) ∷ [])),
            ground (arith, length-append decoded (byte (temp / 2 ^ 10) ∷ [])),
            ground arith,
          )
    | inr e' ↦ rw (e, e') tt
  ]
]

shift_in-Stopped :
    (temp c : ℕ) (decoded rest : List ℕ)
    → All IsByte decoded
    → Stopped decoded (length (c ∷ rest)) (shift_in temp decoded (c ∷ rest))
unfolding shift_in
shift_in-Stopped temp c decoded rest h = elim (Option-cases (sextet c)) [
  | inr (v, e) ↦ rw (e, shift_in) tt
  | inl e ↦ elim (Bool-cases (c == pad_character)) [
    | inl p ↦ rw (e, p, shift_in) (padding-Stopped _ (length (c ∷ rest)) decoded h)
    | inr p ↦ rw (e, p, shift_in) tt
  ]
]

bind-Ends :
    (n left : ℕ) (decoded : List ℕ) (m : Result Stop ℕ) (k : ℕ → Result Stop (List ℕ))
    → Stopped decoded left m
    → (left ≤ 2 → n ≡ length decoded + 3)
    → ((t : ℕ) → Ends n (outcome (k t)))
    → Ends n (outcome (m >>= k))
unfolding outcome
bind-Ends n left decoded (ok t) k s small h = h t
bind-Ends n left decoded (err (returned xs)) k s small h =
    let e = small s.3 in (s.0, omega arith, omega arith)
bind-Ends n left decoded (err (thrown invalid_length)) k s small h = tt
bind-Ends n left decoded (err (thrown invalid_padding)) k s small h = tt
bind-Ends n left decoded (err (thrown invalid_character)) k s small h = tt
bind-Ends n left decoded (err (thrown past_end)) k s small h = s

decode_loop-Ends :
    (input : List ℕ) (temp n : ℕ) (decoded : List ℕ)
    → All IsByte decoded
    → length input % 4 ≡ 0
    → n ≡ length decoded + length input / 4 * 3
    → Ends n (outcome (decode_loop temp decoded input))
unfolding decode_loop
decode_loop-Ends [] temp n decoded h m e = unfold outcome in (h, omega arith, omega arith)
decode_loop-Ends (a ∷ []) temp n decoded h m e = absurd (omega arith)
decode_loop-Ends (a ∷ b ∷ []) temp n decoded h m e = absurd (omega arith)
decode_loop-Ends (a ∷ b ∷ c ∷ []) temp n decoded h m e = absurd (omega arith)
decode_loop-Ends (a ∷ b ∷ c ∷ d ∷ rest) temp n decoded h m e =
    bind-Ends n _ decoded _ _ (shift_in-Stopped temp a decoded _ h) (λ s. omega arith)
      λ t1.
        bind-Ends n _ decoded _ _ (shift_in-Stopped t1 b decoded _ h) (λ s. omega arith)
          λ t2.
            bind-Ends n _ decoded _ _ (shift_in-Stopped t2 c decoded _ h) (λ s. omega arith)
              λ t3.
                bind-Ends n _ decoded _ _ (shift_in-Stopped t3 d decoded _ h) (λ s. omega arith)
                  λ t4.
                    let group = byte (t4 / 2 ^ 16) ∷ byte (t4 / 2 ^ 8) ∷ byte t4 ∷ [] in
                    decode_loop-Ends rest t4 n (decoded ++ group)
                      (All-append IsByte decoded group h (omega arith)) (omega arith)
                      (omega (arith, length-append decoded group))

-- For every input the decoder ends with bytes or with an exception and never reads past the end of
-- the input; the bytes are three for each four characters, less two at most.
pub decode-Ends : (input : List ℕ) → Ends (length input / 4 * 3) (decode input)
unfolding decode
decode-Ends input = elim (Bool-cases (length input % 4 == 0)) [
  | inl e ↦
      rw e (decode_loop-Ends input 0 (length input / 4 * 3) [] tt (ground arith) (omega arith))
  | inr e ↦ rw e tt
]

-- For two characters of the alphabet, a pad character in third place and any fourth character,
-- the input is accepted and gives one byte: the fourth character is not looked at.
decode_junk_after_pad :
    (p q x : ℕ)
    → p < 64
    → q < 64
    → decode (alphabet p ∷ alphabet q ∷ pad_character ∷ x ∷ []) ≡ ok (byte ((p * 64 + q) / 16) ∷ [])
unfolding decode
decode_junk_after_pad p q x hp hq =
    rw (decode_loop-pad2 0 p q x [] hp hq)
      (unfold outcome in ap (λ (b : ℕ). ok (b ∷ [])) (omega (arith, low_12 0 p q hp hq)))
