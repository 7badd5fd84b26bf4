-- ===== src/Dora/LaserScan.antt =====
-- class LaserScan: serialize of dora/LaserScan.h, deserialize of examples/src/LaserScan.h.
-- A float is kept as its bit pattern.
use dora_foxglove.Prelude.{ℕ, ◌*◌, ◌^◌, ◌<◌, ◌≡◌, List, ◌++◌, ok, arith, length, All, append_assoc}
use dora_foxglove.Bytes.{
  put_le, Reader, ◌>>=◌, ◌>>◌, return, read_u32, read_u64, put_all, read_many, resize,
}
use dora_foxglove.Bytes.Laws.{read_le-put_le, read_many-put_all, resize_fits}
use dora_foxglove.Bytes.Locality.{
  IsLocal, return-IsLocal, >>=-IsLocal, read_le-IsLocal, read_many-IsLocal, resize-IsLocal,
}
use dora_foxglove.Dora.Header.{Header}
use dora_foxglove.Dora.Header

pub record LaserScan : Type 0 where
  pub header : Header
  pub angle_min : ℕ
  pub angle_max : ℕ
  pub angle_increment : ℕ
  pub time_increment : ℕ
  pub scan_time : ℕ
  pub range_min : ℕ
  pub range_max : ℕ
  pub ranges : List ℕ
  pub intensities : List ℕ

-- The sizes are of type size_t, eight bytes; the arrays are copied whole.
unfoldable pub serialize : LaserScan → List ℕ
serialize s =
    Header.serialize s.header
    ++ put_le 4 s.angle_min
    ++ put_le 4 s.angle_max
    ++ put_le 4 s.angle_increment
    ++ put_le 4 s.time_increment
    ++ put_le 4 s.scan_time
    ++ put_le 4 s.range_min
    ++ put_le 4 s.range_max
    ++ put_le 8 (length s.ranges)
    ++ put_all (put_le 4) s.ranges
    ++ put_le 8 (length s.intensities)
    ++ put_all (put_le 4) s.intensities

-- The code keeps `offset` to itself: what is left over is not reported to the caller.
pub deserialize : Reader LaserScan
deserialize = do
  header ← Header.deserialize
  angle_min ← read_u32
  angle_max ← read_u32
  angle_increment ← read_u32
  time_increment ← read_u32
  scan_time ← read_u32
  range_min ← read_u32
  range_max ← read_u32
  ranges_size ← read_u64
  resize 4 ranges_size
  ranges ← read_many read_u32 ranges_size
  intensities_size ← read_u64
  resize 4 intensities_size
  intensities ← read_many read_u32 intensities_size
  return (record {
    header = header;
    angle_min = angle_min;
    angle_max = angle_max;
    angle_increment = angle_increment;
    time_increment = time_increment;
    scan_time = scan_time;
    range_min = range_min;
    range_max = range_max;
    ranges = ranges;
    intensities = intensities;
  })

-- The ranges of the C++ types, and arrays that a vector can hold.
pub record IsValid (s : LaserScan) : Type 0 where
  pub header_valid : Header.IsValid s.header
  pub angle_min_fits : s.angle_min < 2 ^ 32
  pub angle_max_fits : s.angle_max < 2 ^ 32
  pub angle_increment_fits : s.angle_increment < 2 ^ 32
  pub time_increment_fits : s.time_increment < 2 ^ 32
  pub scan_time_fits : s.scan_time < 2 ^ 32
  pub range_min_fits : s.range_min < 2 ^ 32
  pub range_max_fits : s.range_max < 2 ^ 32
  pub ranges_fit : length s.ranges * 4 < 2 ^ 63
  pub ranges_valid : All (λ x. x < 256 ^ 4) s.ranges
  pub intensities_fit : length s.intensities * 4 < 2 ^ 63
  pub intensities_valid : All (λ x. x < 256 ^ 4) s.intensities

floats_back :
    (xs rest : List ℕ)
    → All (λ x. x < 256 ^ 4) xs
    → read_many read_u32 (length xs) (put_all (put_le 4) xs ++ rest) ≡ ok (xs, rest)
floats_back =
    read_many-put_all (λ x. x < 256 ^ 4) (put_le 4) read_u32 (λ x rest. read_le-put_le 4 x rest)

-- A scan is read back from what was written, with whatever follows left over.
pub deserialize-serialize :
    (s : LaserScan) (rest : List ℕ) → IsValid s → deserialize (serialize s ++ rest) ≡ ok (s, rest)
unfolding serialize deserialize
deserialize-serialize s rest v =
    let ranges_fit = v.ranges_fit in
    let intensities_fit = v.intensities_fit in
    simp append_assoc (
      rw (
        Header.deserialize-serialize s.header _ v.header_valid,
        read_le-put_le 4 s.angle_min _ v.angle_min_fits,
        read_le-put_le 4 s.angle_max _ v.angle_max_fits,
        read_le-put_le 4 s.angle_increment _ v.angle_increment_fits,
        read_le-put_le 4 s.time_increment _ v.time_increment_fits,
        read_le-put_le 4 s.scan_time _ v.scan_time_fits,
        read_le-put_le 4 s.range_min _ v.range_min_fits,
        read_le-put_le 4 s.range_max _ v.range_max_fits,
        read_le-put_le 8 (length s.ranges) _ (omega arith),
        resize_fits 4 (length s.ranges) _ v.ranges_fit,
        floats_back s.ranges _ v.ranges_valid,
        read_le-put_le 8 (length s.intensities) _ (omega arith),
        resize_fits 4 (length s.intensities) _ v.intensities_fit,
        floats_back s.intensities rest v.intensities_valid,
      ))

pub deserialize-IsLocal : IsLocal deserialize
unfolding deserialize
deserialize-IsLocal = >>=-IsLocal Header.deserialize-IsLocal λ header.
    >>=-IsLocal (read_le-IsLocal 4) λ angle_min. >>=-IsLocal (read_le-IsLocal 4) λ angle_max.
      >>=-IsLocal (read_le-IsLocal 4) λ angle_increment.
        >>=-IsLocal (read_le-IsLocal 4) λ time_increment.
          >>=-IsLocal (read_le-IsLocal 4) λ scan_time. >>=-IsLocal (read_le-IsLocal 4) λ range_min.
            >>=-IsLocal (read_le-IsLocal 4) λ range_max. >>=-IsLocal (read_le-IsLocal 8) λ n.
              >>=-IsLocal (resize-IsLocal 4 n) λ _.
                >>=-IsLocal (read_many-IsLocal n (read_le-IsLocal 4)) λ ranges.
                  >>=-IsLocal (read_le-IsLocal 8) λ m. >>=-IsLocal (resize-IsLocal 4 m) λ _.
                    >>=-IsLocal (read_many-IsLocal m (read_le-IsLocal 4))
                      λ intensities. return-IsLocal _
