-- ===== src/Base64/Characters.antt =====
-- What base64Encode writes are ASCII characters.
use dora_foxglove.Prelude.{ℕ, zero, suc, List, [], ◌∷◌, arith, All, get_or}
use dora_foxglove.Prelude.Texts.{codes, IsAscii}
use dora_foxglove.Base64.{alphabet, encode}

-- Every character of base64 is ASCII.
get_or-IsAscii : (xs : List ℕ) (i : ℕ) → All IsAscii xs → IsAscii (get_or xs i 0)
get_or-IsAscii [] i h = omega arith
get_or-IsAscii (x ∷ xs) zero h = h.0
get_or-IsAscii (x ∷ xs) (suc i) h = get_or-IsAscii xs i h.1

alphabet-IsAscii : (i : ℕ) → IsAscii (alphabet i)
unfolding alphabet
alphabet-IsAscii i =
    get_or-IsAscii (codes "ABCDEFGHIJKLMNOPQRSTUVWXYZabcdefghijklmnopqrstuvwxyz0123456789+/") i
      (omega arith)

pub encode-IsAscii : (xs : List ℕ) → All IsAscii (encode xs)
unfolding encode
encode-IsAscii [] = tt
encode-IsAscii (a ∷ []) = (alphabet-IsAscii _, (alphabet-IsAscii _, omega arith))
encode-IsAscii (a ∷ b ∷ []) =
    (alphabet-IsAscii _, (alphabet-IsAscii _, (alphabet-IsAscii _, omega arith)))
encode-IsAscii (a ∷ b ∷ c ∷ rest) = (
  alphabet-IsAscii _,
  (alphabet-IsAscii _, (alphabet-IsAscii _, (alphabet-IsAscii _, encode-IsAscii rest))),
)
