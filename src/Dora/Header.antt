-- ===== src/Dora/Header.antt =====
-- class Header: serialize of dora/Header.h, deserialize of examples/src/Header.h.
use dora_foxglove.Prelude.{ℕ, ◌^◌, ◌<◌, ◌≡◌, List, ◌++◌, ok, arith, length, append_assoc}
use dora_foxglove.Bytes.{put_le, u32, Reader, ◌>>=◌, return, read_bytes, read_u32, read_u64}
use dora_foxglove.Bytes.Laws.{read_le-put_le, read_bytes-append}
use dora_foxglove.Bytes.Locality.{
  IsLocal, return-IsLocal, >>=-IsLocal, read_bytes-IsLocal, read_le-IsLocal,
}

-- `stamp` is a double, kept as its bit pattern; the text is its bytes.
pub record Header : Type 0 where
  pub seq : ℕ
  pub stamp : ℕ
  pub frame_id : List ℕ

unfoldable pub serialize : Header → List ℕ
serialize h = put_le 4 h.seq ++ put_le 8 h.stamp ++ put_le 4 (u32 (length h.frame_id)) ++ h.frame_id

pub deserialize : Reader Header
deserialize = do
  seq ← read_u32
  stamp ← read_u64
  frame_id_size ← read_u32
  frame_id ← read_bytes frame_id_size
  return (record { seq = seq; stamp = stamp; frame_id = frame_id })

-- The ranges of the C++ types, and a text whose size fits the 32 bits that it is sent in.
pub record IsValid (h : Header) : Type 0 where
  pub seq_fits : h.seq < 2 ^ 32
  pub stamp_fits : h.stamp < 2 ^ 64
  pub frame_id_fits : length h.frame_id < 2 ^ 32

pub deserialize-serialize :
    (h : Header) (rest : List ℕ) → IsValid h → deserialize (serialize h ++ rest) ≡ ok (h, rest)
unfolding serialize deserialize
deserialize-serialize h rest v = simp append_assoc (
    rw (
      read_le-put_le 4 h.seq _ v.seq_fits,
      read_le-put_le 8 h.stamp _ v.stamp_fits,
      mod_small,
      read_le-put_le 4 (length h.frame_id) _ v.frame_id_fits,
      read_bytes-append h.frame_id rest,
    ))
  where
    mod_small : u32 (length h.frame_id) ≡ length h.frame_id
    mod_small = let f = v.frame_id_fits in omega arith

pub deserialize-IsLocal : IsLocal deserialize
unfolding deserialize
deserialize-IsLocal = >>=-IsLocal (read_le-IsLocal 4) λ seq.
    >>=-IsLocal (read_le-IsLocal 8) λ stamp. >>=-IsLocal (read_le-IsLocal 4) λ n.
      >>=-IsLocal (read_bytes-IsLocal n)
        λ frame_id. return-IsLocal (record { seq = seq; stamp = stamp; frame_id = frame_id })
