-- ===== src/Dora/PointCloud.antt =====
-- classes PointField and PointCloud2: serialize of dora/PointCloud.h, deserialize of
-- examples/src/PointCloud.h.
use dora_foxglove.Prelude.{
  ℕ, ◌+◌, ◌^◌, ◌<◌, ◌≤◌, ◌≡◌, Bool, List, ◌++◌, ok, arith, length, length-append, All, append_assoc,
}
use dora_foxglove.Bytes.{
  put_le, u32, Reader, ◌>>=◌, return, read_bytes, read_u8, read_u32, put_bool, read_bool, put_all,
  read_many,
}
use dora_foxglove.Bytes.Laws.{
  length-put_le, read_le-put_le, read_bytes-append, read_bool-put_bool, read_many-put_all,
}
use dora_foxglove.Bytes.Locality.{
  IsLocal, return-IsLocal, >>=-IsLocal, read_bytes-IsLocal, read_le-IsLocal, read_bool-IsLocal,
  read_many-IsLocal,
}
use dora_foxglove.Dora.Header.{Header}
use dora_foxglove.Dora.Header

-- The name is its bytes; `datatype` is one byte, a number of the enumeration NumericType.
pub record PointField : Type 0 where
  pub name : List ℕ
  pub offset : ℕ
  pub datatype : ℕ
  pub count : ℕ

unfoldable pub serialize_field : PointField → List ℕ
serialize_field f =
    put_le 4 (u32 (length f.name))
    ++ f.name
    ++ put_le 4 f.offset
    ++ put_le 1 f.datatype
    ++ put_le 4 f.count

pub deserialize_field : Reader PointField
deserialize_field = do
  name_size ← read_u32
  name ← read_bytes name_size
  offset ← read_u32
  datatype ← read_u8
  count ← read_u32
  return (record { name = name; offset = offset; datatype = datatype; count = count })

pub record PointCloud2 : Type 0 where
  pub header : Header
  pub height : ℕ
  pub width : ℕ
  pub fields : List PointField
  pub is_bigendian : Bool
  pub point_step : ℕ
  pub row_step : ℕ
  pub points : List ℕ
  pub is_dense : Bool

-- `points` is the member `data`.
unfoldable pub serialize : PointCloud2 → List ℕ
serialize c =
    Header.serialize c.header
    ++ put_le 4 c.height
    ++ put_le 4 c.width
    ++ put_le 4 (u32 (length c.fields))
    ++ put_all serialize_field c.fields
    ++ put_bool c.is_bigendian
    ++ put_le 4 c.point_step
    ++ put_le 4 c.row_step
    ++ put_le 4 (u32 (length c.points))
    ++ c.points
    ++ put_bool c.is_dense

pub deserialize : Reader PointCloud2
deserialize = do
  header ← Header.deserialize
  height ← read_u32
  width ← read_u32
  fields_size ← read_u32
  fields ← read_many deserialize_field fields_size
  is_bigendian ← read_bool
  point_step ← read_u32
  row_step ← read_u32
  data_size ← read_u32
  points ← read_bytes data_size
  is_dense ← read_bool
  return (record {
    header = header;
    height = height;
    width = width;
    fields = fields;
    is_bigendian = is_bigendian;
    point_step = point_step;
    row_step = row_step;
    points = points;
    is_dense = is_dense;
  })

-- The ranges of the C++ types, and texts and vectors whose sizes fit 32 bits.
pub record IsValidField (f : PointField) : Type 0 where
  pub name_fits : length f.name < 2 ^ 32
  pub offset_fits : f.offset < 2 ^ 32
  pub datatype_fits : f.datatype < 2 ^ 8
  pub count_fits : f.count < 2 ^ 32

pub record IsValid (c : PointCloud2) : Type 0 where
  pub header_valid : Header.IsValid c.header
  pub height_fits : c.height < 2 ^ 32
  pub width_fits : c.width < 2 ^ 32
  pub fields_fit : length c.fields < 2 ^ 32
  pub fields_valid : All IsValidField c.fields
  pub point_step_fits : c.point_step < 2 ^ 32
  pub row_step_fits : c.row_step < 2 ^ 32
  pub points_fit : length c.points < 2 ^ 32

-- The bytes that a serialised cloud has beside its points, as far as they are always there.
pub points-le-serialize : (c : PointCloud2) → length c.points + 22 ≤ length (serialize c)
unfolding serialize
points-le-serialize c = simp (length-append, length-put_le) (omega arith)

u32_small : (n : ℕ) → n < 2 ^ 32 → u32 n ≡ n
u32_small n h = omega arith

pub deserialize_field-serialize_field :
    (f : PointField) (rest : List ℕ)
    → IsValidField f
    → deserialize_field (serialize_field f ++ rest) ≡ ok (f, rest)
unfolding serialize_field deserialize_field
deserialize_field-serialize_field f rest v = simp append_assoc (
    rw (
      u32_small (length f.name) v.name_fits,
      read_le-put_le 4 (length f.name) _ v.name_fits,
      read_bytes-append f.name _,
      read_le-put_le 4 f.offset _ v.offset_fits,
      read_le-put_le 1 f.datatype _ v.datatype_fits,
      read_le-put_le 4 f.count _ v.count_fits,
    ))

-- A point cloud is read back from what was written, with whatever follows left over.
pub deserialize-serialize :
    (c : PointCloud2) (rest : List ℕ) → IsValid c → deserialize (serialize c ++ rest) ≡ ok (c, rest)
unfolding serialize deserialize
deserialize-serialize c rest v = simp append_assoc (
    rw (
      Header.deserialize-serialize c.header _ v.header_valid,
      read_le-put_le 4 c.height _ v.height_fits,
      read_le-put_le 4 c.width _ v.width_fits,
      u32_small (length c.fields) v.fields_fit,
      read_le-put_le 4 (length c.fields) _ v.fields_fit,
      read_many-put_all IsValidField serialize_field deserialize_field
          deserialize_field-serialize_field c.fields _ v.fields_valid,
      read_bool-put_bool c.is_bigendian _,
      read_le-put_le 4 c.point_step _ v.point_step_fits,
      read_le-put_le 4 c.row_step _ v.row_step_fits,
      u32_small (length c.points) v.points_fit,
      read_le-put_le 4 (length c.points) _ v.points_fit,
      read_bytes-append c.points _,
      read_bool-put_bool c.is_dense rest,
    ))

deserialize_field-IsLocal : IsLocal deserialize_field
unfolding deserialize_field
deserialize_field-IsLocal = >>=-IsLocal (read_le-IsLocal 4) λ n.
    >>=-IsLocal (read_bytes-IsLocal n) λ name. >>=-IsLocal (read_le-IsLocal 4) λ offset.
      >>=-IsLocal (read_le-IsLocal 1)
        λ datatype. >>=-IsLocal (read_le-IsLocal 4) λ count. return-IsLocal _

pub deserialize-IsLocal : IsLocal deserialize
unfolding deserialize
deserialize-IsLocal = >>=-IsLocal Header.deserialize-IsLocal λ header.
    >>=-IsLocal (read_le-IsLocal 4) λ height. >>=-IsLocal (read_le-IsLocal 4) λ width.
      >>=-IsLocal (read_le-IsLocal 4) λ fields_size.
        >>=-IsLocal (read_many-IsLocal fields_size deserialize_field-IsLocal) λ fields.
          >>=-IsLocal read_bool-IsLocal λ is_bigendian.
            >>=-IsLocal (read_le-IsLocal 4) λ point_step.
              >>=-IsLocal (read_le-IsLocal 4) λ row_step.
                >>=-IsLocal (read_le-IsLocal 4) λ data_size.
                  >>=-IsLocal (read_bytes-IsLocal data_size)
                    λ points. >>=-IsLocal read_bool-IsLocal λ is_dense. return-IsLocal _
