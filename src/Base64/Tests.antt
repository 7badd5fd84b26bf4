-- ===== src/Base64/Tests.antt =====
-- base64 at concrete inputs.
use dora_foxglove.Prelude.{ℕ, ◌≡◌, List, [], ◌∷◌, ok, arith}
use dora_foxglove.Base64.{encode, decode}
use dora_foxglove.Base64.RoundTrip.{decode-encode}
use dora_foxglove.Base64.Decoding.{Ends, decode-Ends}

abbrev four_bytes : List ℕ
four_bytes = 0 ∷ 255 ∷ 16 ∷ 131 ∷ []

decode-encode_example : decode (encode four_bytes) ≡ ok four_bytes
decode-encode_example = decode-encode four_bytes (omega arith)

decode-Ends_example : Ends 3 (decode (b'A' ∷ b'A' ∷ b'=' ∷ b'?' ∷ []))
decode-Ends_example = decode-Ends (b'A' ∷ b'A' ∷ b'=' ∷ b'?' ∷ [])
