-- ===== src/Programs/Sender.antt =====
-- dora/main.cc: the test data and the filling of the point cloud. Its threads call the `send...`
-- methods of Dora.Transport once a second. The bit pattern of the double i / 100.0 and that of
-- 1 / sqrt(3) are parameters, and so is what the members hold that the program does not set.
pub mod Filling
use dora_foxglove.Prelude.{
  ℕ, zero, suc, ◌+◌, ◌*◌, Bool, true, false, List, [], ◌∷◌, ◌++◌, Result, ok, err, ◌>>=◌,
  if◌then◌else◌,
}
use dora_foxglove.Prelude.Texts.{codes}
use dora_foxglove.Bytes.{put_le, put_all, Fault, out_of_bounds, read_bytes}
use dora_foxglove.Dora.Header.{Header}
use dora_foxglove.Dora.LaserScan.{LaserScan}
use dora_foxglove.Dora.PointCloud.{PointCloud2, PointField}
use dora_foxglove.Dora.Trajectory.{Trajectory, Pose}

-- `memcpy` of the bytes into a buffer, from an offset on.
unfoldable pub overwrite : ℕ → List ℕ → List ℕ → Result Fault (List ℕ)
overwrite zero [] buffer = ok buffer
overwrite zero (b ∷ bytes) [] = err out_of_bounds
overwrite zero (b ∷ bytes) (x ∷ buffer) = overwrite zero bytes buffer >>= λ rest. ok (b ∷ rest)
overwrite (suc offset) bytes [] = err out_of_bounds
overwrite (suc offset) bytes (x ∷ buffer) = overwrite offset bytes buffer >>= λ rest. ok (x ∷ rest)

-- The loop over the points from the `i`-th on; each copies `point_step` bytes of its row.
unfoldable pub fill : ℕ → ℕ → List (List ℕ) → List ℕ → Result Fault (List ℕ)
fill point_step i [] buffer = ok buffer
fill point_step i (row ∷ rows) buffer = do
  (bytes, _) ← read_bytes point_step row
  filled ← overwrite (i * point_step) bytes buffer
  fill point_step (suc i) rows filled

-- `resize` of an empty vector.
unfoldable pub zeros : ℕ → List ℕ
zeros zero = []
zeros (suc n) = 0 ∷ zeros n

-- The floats 1.0f to 4.0f, a row for each point.
abbrev pub floats : ℕ → List ℕ
floats f = put_le 4 f ++ put_le 4 f ++ put_le 4 f

abbrev pub rows : List (List ℕ)
rows = floats 0x3f800000 ∷ floats 0x40000000 ∷ floats 0x40400000 ∷ floats 0x40800000 ∷ []

abbrev pub base_frame : List ℕ
base_frame = codes "base_frame"

-- FLOAT32 of PointField::NumericType.
abbrev float32 : ℕ
float32 = 7

abbrev pub fields : List PointField
fields =
    record { name = codes "x"; offset = 0; datatype = float32; count = 1 }
    ∷ record { name = codes "y"; offset = 4; datatype = float32; count = 1 }
    ∷ record { name = codes "z"; offset = 8; datatype = float32; count = 1 }
    ∷ []

-- Members that are not set keep what they are built with.
abbrev pub scan : LaserScan → LaserScan
scan unset = record unset {
  header = record unset.header { frame_id = base_frame };
  ranges = 0x3f800000 ∷ 0x40000000 ∷ 0x40400000 ∷ [];
  intensities = 0x3f000000 ∷ 0x3fc00000 ∷ 0x40200000 ∷ [];
}

-- point_step, width and height.
abbrev pub point_step : ℕ
point_step = 12

unfoldable pub cloud : Header → Result Fault PointCloud2
cloud unset = do
  points ← fill point_step 0 rows (zeros (point_step * 4 * 1))
  ok (record {
    header = record unset { frame_id = base_frame };
    height = 1;
    width = 4;
    fields = fields;
    is_bigendian = false;
    point_step = point_step;
    row_step = point_step * 4;
    points = points;
    is_dense = true;
  })

module _ (hundredths : ℕ → ℕ) (inverse_sqrt3 : ℕ) where
  abbrev pub pose : ℕ → Pose
  pose i = record {
    position = record { x = hundredths i; y = hundredths i; z = hundredths i };
    orientation = record { x = inverse_sqrt3; y = inverse_sqrt3; z = inverse_sqrt3; w = 0 };
  }

  -- The loop from `i`, with so many rounds left.
  unfoldable pub poses : ℕ → ℕ → List Pose
  poses zero i = []
  poses (suc rounds) i = pose i ∷ poses rounds (suc i)

  unfoldable pub path : Header → Trajectory
  path unset = record { header = record unset { frame_id = base_frame }; points = poses 100 0 }
