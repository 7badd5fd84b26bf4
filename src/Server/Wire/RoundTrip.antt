-- ===== src/Server/Wire/RoundTrip.antt =====
-- What ServiceResponse::read reads back from what ServiceResponse::write wrote, and a fetch-asset
-- response that cannot be read back.
use dora_foxglove.Prelude.{
  ℕ, zero, suc, ◌^◌, ◌<◌, ◌≤◌, ◌≡◌, refl, sym, ap, List, [], ◌∷◌, ◌++◌, ok, err, arith, length,
  append_assoc, ◌==◌, if◌then◌else◌, ◌>>=◌ as result_bind,
}
use dora_foxglove.Bytes.{u32, put_le, read_bytes, read_le, get_le, out_of_bounds, length_error}
use dora_foxglove.Bytes.Laws.{read_le-put_le, read_bytes-append}
use dora_foxglove.Server.Types.{ServiceResponse}
use dora_foxglove.Server.Wire.{write, read, read_terminated, read_rest, without_last}

-- The ids are of type uint32_t, and the size of the encoding fits the 32 bits that it is sent in.
pub record IsValid (r : ServiceResponse) : Type 0 where
  pub service_id_fits : r.service_id < 2 ^ 32
  pub call_id_fits : r.call_id < 2 ^ 32
  pub encoding_fits : length r.encoding < 2 ^ 32

read_rest-terminated : (payload : List ℕ) → read_rest (payload ++ 0 ∷ []) ≡ ok (payload, [])
unfolding read_rest without_last
read_rest-terminated [] = refl
read_rest-terminated (b ∷ payload) = ap (λ bytes. ok (bytes, [])) (kept b payload)
  where
    kept : (b : ℕ) (payload : List ℕ) → without_last b (payload ++ 0 ∷ []) ≡ b ∷ payload
    kept b [] = refl
    kept b (c ∷ payload) = ap (λ bytes. b ∷ bytes) (kept c payload)

-- A service call request or response whose ids have 32 bits and whose encoding is shorter than 4
-- GiB is read back as it was written, whatever bytes its encoding and its payload hold.
pub read-write : (r : ServiceResponse) → IsValid r → read (write r) ≡ ok (r, [])
unfolding read read_terminated write
read-write r v = simp append_assoc (
    rw (
      read_le-put_le 4 r.service_id _ v.service_id_fits,
      read_le-put_le 4 r.call_id _ v.call_id_fits,
      mod_small,
      read_le-put_le 4 (length r.encoding) _ v.encoding_fits,
      read_bytes-append r.encoding (r.payload ++ 0 ∷ []),
      read_rest-terminated r.payload,
    ))
  where
    mod_small : u32 (length r.encoding) ≡ length r.encoding
    mod_small = let f = v.encoding_fits in omega arith

-- Eleven bytes and the zero behind them: the length of the encoding has the zero for its upper byte.
pub read_eleven :
    (b0 b1 b2 b3 b4 b5 b6 b7 b8 b9 b10 : ℕ)
    → read (b0 ∷ b1 ∷ b2 ∷ b3 ∷ b4 ∷ b5 ∷ b6 ∷ b7 ∷ b8 ∷ b9 ∷ b10 ∷ [])
      ≡ err (if get_le (b8 ∷ b9 ∷ b10 ∷ 0 ∷ []) == 0 then length_error else out_of_bounds)
unfolding read read_terminated read_le read_bytes read_rest
read_eleven b0 b1 b2 b3 b4 b5 b6 b7 b8 b9 b10 = behind (get_le (b8 ∷ b9 ∷ b10 ∷ 0 ∷ []))
  where
    if_positive : (n : ℕ) → (if suc n == 0 then length_error else out_of_bounds) ≡ out_of_bounds
    if_positive n = ground arith

    behind :
        (n : ℕ)
        → result_bind {B = ServiceResponse × List ℕ} (read_bytes n []) (λ p.
          result_bind {B = ServiceResponse × List ℕ} (read_rest p.1) (λ q. ok (
            record {
              service_id = get_le (b0 ∷ b1 ∷ b2 ∷ b3 ∷ []);
              call_id = get_le (b4 ∷ b5 ∷ b6 ∷ b7 ∷ []);
              encoding = p.0;
              payload = q.0;
            },
            q.1,
          )))
          ≡ err (if n == 0 then length_error else out_of_bounds)
    behind zero = refl
    behind (suc n) = ap err (sym (if_positive n))

pub length-write : (r : ServiceResponse) → 12 ≤ length (write r)
unfolding write put_le
length-write r = omega arith
