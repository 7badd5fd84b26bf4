-- ===== src/Bytes.antt =====
-- Raw memory as lists of bytes: what `reinterpret_cast<const uint8_t*>(&x)` appends to a buffer on
-- a little-endian machine, and what `memcpy(&x, buffer.data() + offset, n); offset += n` reads. A
-- reader is given the buffer from `offset` on and returns what is behind the bytes that it took.
-- Also WriteUint32LE, WriteUint64LE and ReadUint32LE of
-- foxglove-websocket/include/foxglove/websocket/serialization.hpp (the little-endian branch).
pub mod Laws
pub mod Locality
use dora_foxglove.Prelude.{
  ℕ, zero, suc, ◌*◌, ◌+◌, ◌-◌, ◌/◌, ◌%◌, ◌^◌, Bool, List, [], ◌∷◌, ◌++◌, Result, ok, err,
  ◌>>=◌ as result_bind, leb, if◌then◌else◌,
}

-- The `k` bytes of an unsigned number, lowest first.
unfoldable pub put_le : ℕ → ℕ → List ℕ
put_le zero v = []
put_le (suc k) v = v % 256 ∷ put_le k (v / 256)

unfoldable pub get_le : List ℕ → ℕ
get_le [] = 0
get_le (b ∷ bs) = b + 256 * get_le bs

-- A `static_cast` or an initialisation of a uint32_t from a size_t.
abbrev pub u32 : ℕ → ℕ
u32 x = x % 2 ^ 32

abbrev pub write_u32_le : ℕ → List ℕ
write_u32_le v = put_le 4 v

abbrev pub write_u64_le : ℕ → List ℕ
write_u64_le v = put_le 8 v

-- `out_of_bounds` is a read behind the end of the buffer, and `bad_bool` a byte that is no value of
-- `bool`: both are undefined behaviour. `length_error` is what `resize` throws.
pub data Fault : Type 0 where
  out_of_bounds bad_bool length_error : Fault

abbrev pub Reader : Type 0 → Type 0
Reader A = List ℕ → Result Fault (A × List ℕ)

infixl 5 ◌>>=◌ ◌>>◌
abbrev pub ◌>>=◌ : {A B : Type 0} → Reader A → (A → Reader B) → Reader B
◌>>=◌ m f s = result_bind (m s) (λ p. f p.0 p.1)

abbrev pub ◌>>◌ : {B : Type 0} → Reader (Unit {0}) → Reader B → Reader B
m >> k = m >>= λ _. k

abbrev pub return : {A : Type 0} → A → Reader A
return a s = ok (a, s)

unfoldable pub read_bytes : ℕ → Reader (List ℕ)
read_bytes zero s = ok ([], s)
read_bytes (suc n) [] = err out_of_bounds
read_bytes (suc n) (b ∷ s) = result_bind (read_bytes n s) (λ p. ok (b ∷ p.0, p.1))

-- A fixed-width unsigned number; a float or a double is read as its bit pattern.
unfoldable pub read_le : ℕ → Reader ℕ
read_le k = do bs ← read_bytes k; return (get_le bs)

abbrev pub read_u8 : Reader ℕ
read_u8 = read_le 1

abbrev pub read_u32 : Reader ℕ
read_u32 = read_le 4

abbrev pub read_u64 : Reader ℕ
read_u64 = read_le 8

abbrev bool_of : ℕ → Reader Bool
bool_of zero s = ok (Bool.false, s)
bool_of (suc zero) s = ok (Bool.true, s)
bool_of (suc (suc n)) s = err bad_bool

unfoldable pub put_bool : Bool → List ℕ
put_bool Bool.false = 0 ∷ []
put_bool Bool.true = 1 ∷ []

pub read_bool : Reader Bool
read_bool = do b ← read_u8; bool_of b

-- The elements of a vector one behind the other.
unfoldable pub put_all : {A : Type 0} → (A → List ℕ) → List A → List ℕ
put_all put [] = []
put_all put (x ∷ xs) = put x ++ put_all put xs

pub read_many : {A : Type 0} → Reader A → ℕ → Reader (List A)
read_many read zero s = ok ([], s)
read_many read (suc n) s =
    result_bind (read s) (λ p. result_bind (read_many read n p.1) (λ q. ok (p.0 ∷ q.0, q.1)))

-- `resize(n)` of a vector with elements of `size` bytes, over the longest that the library allows.
pub resize : ℕ → ℕ → Reader (Unit {0})
resize size n s = if leb (n * size) (2 ^ 63 - 1) then ok (tt, s) else err length_error
