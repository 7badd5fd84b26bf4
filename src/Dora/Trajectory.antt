-- ===== src/Dora/Trajectory.antt =====
-- classes Vector3, Quaternion, Pose and Path: serialize of dora/Path.h, deserialize of
-- examples/src/Path.h. A double is kept as its bit pattern.
use dora_foxglove.Prelude.{ℕ, ◌*◌, ◌^◌, ◌<◌, ◌≡◌, List, ◌++◌, ok, arith, length, All, append_assoc}
use dora_foxglove.Bytes.{put_le, Reader, ◌>>=◌, ◌>>◌, return, read_u64, put_all, read_many, resize}
use dora_foxglove.Bytes.Laws.{read_le-put_le, read_many-put_all, resize_fits}
use dora_foxglove.Bytes.Locality.{
  IsLocal, return-IsLocal, >>=-IsLocal, read_le-IsLocal, read_many-IsLocal, resize-IsLocal,
}
use dora_foxglove.Dora.Header.{Header}
use dora_foxglove.Dora.Header

pub record Vector3 : Type 0 where
  pub x : ℕ
  pub y : ℕ
  pub z : ℕ

pub record Quaternion : Type 0 where
  pub x : ℕ
  pub y : ℕ
  pub z : ℕ
  pub w : ℕ

pub record Pose : Type 0 where
  pub position : Vector3
  pub orientation : Quaternion

-- `class Path`.
pub record Trajectory : Type 0 where
  pub header : Header
  pub points : List Pose

-- The body of the loop over `points`.
unfoldable pub serialize_pose : Pose → List ℕ
serialize_pose p =
    put_le 8 p.position.x
    ++ put_le 8 p.position.y
    ++ put_le 8 p.position.z
    ++ put_le 8 p.orientation.x
    ++ put_le 8 p.orientation.y
    ++ put_le 8 p.orientation.z
    ++ put_le 8 p.orientation.w

unfoldable pub serialize : Trajectory → List ℕ
serialize t =
    Header.serialize t.header ++ put_le 8 (length t.points) ++ put_all serialize_pose t.points

pub deserialize_pose : Reader Pose
deserialize_pose = do
  px ← read_u64
  py ← read_u64
  pz ← read_u64
  ox ← read_u64
  oy ← read_u64
  oz ← read_u64
  ow ← read_u64
  return (record {
    position = record { x = px; y = py; z = pz };
    orientation = record { x = ox; y = oy; z = oz; w = ow };
  })

-- A Pose takes 56 bytes in memory. What is left over is not reported to the caller.
pub deserialize : Reader Trajectory
deserialize = do
  header ← Header.deserialize
  points_size ← read_u64
  resize 56 points_size
  points ← read_many deserialize_pose points_size
  return (record { header = header; points = points })

pub record IsValidPose (p : Pose) : Type 0 where
  pub px : p.position.x < 2 ^ 64
  pub py : p.position.y < 2 ^ 64
  pub pz : p.position.z < 2 ^ 64
  pub ox : p.orientation.x < 2 ^ 64
  pub oy : p.orientation.y < 2 ^ 64
  pub oz : p.orientation.z < 2 ^ 64
  pub ow : p.orientation.w < 2 ^ 64

pub record IsValid (t : Trajectory) : Type 0 where
  pub header_valid : Header.IsValid t.header
  pub points_fit : length t.points * 56 < 2 ^ 63
  pub points_valid : All IsValidPose t.points

pub deserialize_pose-serialize_pose :
    (p : Pose) (rest : List ℕ)
    → IsValidPose p
    → deserialize_pose (serialize_pose p ++ rest) ≡ ok (p, rest)
unfolding serialize_pose deserialize_pose
deserialize_pose-serialize_pose p rest v = simp append_assoc (
    rw (
      read_le-put_le 8 p.position.x _ v.px,
      read_le-put_le 8 p.position.y _ v.py,
      read_le-put_le 8 p.position.z _ v.pz,
      read_le-put_le 8 p.orientation.x _ v.ox,
      read_le-put_le 8 p.orientation.y _ v.oy,
      read_le-put_le 8 p.orientation.z _ v.oz,
      read_le-put_le 8 p.orientation.w rest v.ow,
    ))

-- A path is read back from what was written, with whatever follows left over.
pub deserialize-serialize :
    (t : Trajectory) (rest : List ℕ) → IsValid t → deserialize (serialize t ++ rest) ≡ ok (t, rest)
unfolding serialize deserialize
deserialize-serialize t rest v =
    let points_fit = v.points_fit in
    simp append_assoc (
      rw (
        Header.deserialize-serialize t.header _ v.header_valid,
        read_le-put_le 8 (length t.points) _ (omega arith),
        resize_fits 56 (length t.points) _ v.points_fit,
        read_many-put_all IsValidPose serialize_pose deserialize_pose
            deserialize_pose-serialize_pose t.points rest v.points_valid,
      ))

deserialize_pose-IsLocal : IsLocal deserialize_pose
unfolding deserialize_pose
deserialize_pose-IsLocal = >>=-IsLocal (read_le-IsLocal 8) λ px.
    >>=-IsLocal (read_le-IsLocal 8) λ py. >>=-IsLocal (read_le-IsLocal 8) λ pz.
      >>=-IsLocal (read_le-IsLocal 8) λ ox. >>=-IsLocal (read_le-IsLocal 8) λ oy.
        >>=-IsLocal (read_le-IsLocal 8) λ oz. >>=-IsLocal (read_le-IsLocal 8) λ ow. return-IsLocal _

pub deserialize-IsLocal : IsLocal deserialize
unfolding deserialize
deserialize-IsLocal = >>=-IsLocal Header.deserialize-IsLocal λ header.
    >>=-IsLocal (read_le-IsLocal 8) λ n.
      >>=-IsLocal (resize-IsLocal 56 n)
        λ _. >>=-IsLocal (read_many-IsLocal n deserialize_pose-IsLocal) λ points. return-IsLocal _
