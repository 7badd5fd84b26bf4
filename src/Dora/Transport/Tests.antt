-- ===== src/Dora/Transport/Tests.antt =====
-- Messages for the transport, and its theorems at them.
use dora_foxglove.Prelude.{
  ℕ, zero, suc, ◌-◌, ◌^◌, ◌<◌, ◌≡◌, refl, ap, true, List, [], ◌∷◌, ◌++◌, ok, err, arith, length,
}
use dora_foxglove.Bytes.{put_le, put_all, put_bool, Fault}
use dora_foxglove.Dora.Header.{Header}
use dora_foxglove.Dora.Header
use dora_foxglove.Dora.PointCloud
use dora_foxglove.Dora.PointCloud.{PointCloud2}
use dora_foxglove.Dora.LaserScan
use dora_foxglove.Dora.LaserScan.{LaserScan}
use dora_foxglove.Dora.Transport.{
  fault, send_point_cloud2, receive_point_cloud2, receive_point_cloud2-send_point_cloud2,
  receive_point_cloud2_wraps, laser_scan_truncated,
}

abbrev base_frame : Header
base_frame = record { seq = 0; stamp = 0; frame_id = b'b' ∷ b'a' ∷ b's' ∷ b'e' ∷ [] }

-- Ranges 1.0 and 2.0, and an intensity of 0.5.
abbrev scan : LaserScan
scan = record {
  header = base_frame;
  angle_min = 0;
  angle_max = 0;
  angle_increment = 0;
  time_increment = 0;
  scan_time = 0;
  range_min = 0;
  range_max = 0;
  ranges = 0x3f80_0000 ∷ 0x4000_0000 ∷ [];
  intensities = 0x3f00_0000 ∷ [];
}

scan-IsValid : LaserScan.IsValid scan
scan-IsValid = omega arith

abbrev cloud_of : List ℕ → PointCloud2
cloud_of points = record {
  header = base_frame;
  height = 1;
  width = 1;
  fields = record { name = b'x' ∷ []; offset = 0; datatype = 7; count = 1 } ∷ [];
  is_bigendian = true;
  point_step = 4;
  row_step = 4;
  points = points;
  is_dense = true;
}

cloud-IsValid : (points : List ℕ) → length points < 2 ^ 32 → PointCloud.IsValid (cloud_of points)
cloud-IsValid points h = omega arith

abbrev cloud : PointCloud2
cloud = cloud_of (0 ∷ 0 ∷ 0x80 ∷ 0x3f ∷ [])

receive_point_cloud2-send_point_cloud2_example :
    receive_point_cloud2 (send_point_cloud2 cloud ++ []) ≡ ok cloud
unfolding PointCloud.serialize PointCloud.serialize_field Header.serialize put_le put_all put_bool
receive_point_cloud2-send_point_cloud2_example =
    receive_point_cloud2-send_point_cloud2 cloud [] (cloud-IsValid _ (omega arith)) (omega arith)

zeros : ℕ → List ℕ
zeros zero = []
zeros (suc n) = 0 ∷ zeros n

length-zeros : (n : ℕ) → length (zeros n) ≡ n
unfolding zeros
length-zeros zero = refl
length-zeros (suc n) = ap suc (length-zeros n)

-- As many points as a vector's size in 32 bits allows.
abbrev full_cloud : PointCloud2
full_cloud = cloud_of (zeros (2 ^ 32 - 1))

receive_point_cloud2_wraps_example :
    (f : Fault) × (receive_point_cloud2 (send_point_cloud2 full_cloud) ≡ err (fault f))
receive_point_cloud2_wraps_example =
    receive_point_cloud2_wraps full_cloud
      (cloud-IsValid (zeros (2 ^ 32 - 1)) (omega (arith, length-zeros (2 ^ 32 - 1))))
      (omega (arith, length-zeros (2 ^ 32 - 1), PointCloud.points-le-serialize full_cloud))

laser_scan_truncated_example : (f : Fault) × (LaserScan.deserialize (0 ∷ 0 ∷ 0 ∷ []) ≡ err f)
unfolding LaserScan.serialize Header.serialize put_le put_all
laser_scan_truncated_example = laser_scan_truncated scan (0 ∷ 0 ∷ 0 ∷ []) 0 _ scan-IsValid refl
