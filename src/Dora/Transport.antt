-- ===== src/Dora/Transport.antt =====
-- sendLaserScan, sendPointCloud2 and sendPath of dora/*.h, receiveLaserScan, receivePointCloud2
-- and receivePath of examples/src/*.h: a message goes over a connection of its own, behind its
-- size in four bytes. A connection is the list of the bytes sent before it is closed; a read that
-- asks for more fails with the end of file that the socket library throws.
mod Tests
use dora_foxglove.Prelude.{
  ℕ, zero, suc, ◌+◌, ◌%◌, ◌^◌, ◌≤◌, ◌<◌, ◌≡◌, refl, ap, ◌∙◌, List, [], ◌∷◌, ◌++◌, Result, ok, err,
  arith, length, append-nil, append_assoc, Result-cases, inl, inr,
}
use dora_foxglove.Bytes.{put_le, u32, Reader, Fault, read_bytes, read_u32}
use dora_foxglove.Bytes.Laws.{read_le-put_le, read_bytes-append, read_bytes_exact}
use dora_foxglove.Bytes.Locality.{IsLocal, prefix_fails}
use dora_foxglove.Dora.PointCloud
use dora_foxglove.Dora.PointCloud.{PointCloud2}
use dora_foxglove.Dora.LaserScan
use dora_foxglove.Dora.LaserScan.{LaserScan}
use dora_foxglove.Dora.Trajectory
use dora_foxglove.Dora.Trajectory.{Trajectory}

-- `uint32_t data_length = data.size();` and the two writes.
send : List ℕ → List ℕ
send message = put_le 4 (u32 (length message)) ++ message

pub send_laser_scan : LaserScan → List ℕ
send_laser_scan s = send (LaserScan.serialize s)

pub send_point_cloud2 : PointCloud2 → List ℕ
send_point_cloud2 c = send (PointCloud.serialize c)

pub send_path : Trajectory → List ℕ
send_path t = send (Trajectory.serialize t)

pub data ReceiveError : Type 0 where
  end_of_file : ReceiveError
  fault : Fault → ReceiveError

-- A read of exactly so many bytes from the socket.
from_socket : {A : Type 0} → Result Fault A → Result ReceiveError A
from_socket (ok a) = ok a
from_socket (err e) = err end_of_file

from_buffer : {A B : Type 0} → Result Fault (A × B) → Result ReceiveError A
from_buffer (ok (a, rest)) = ok a
from_buffer (err e) = err (fault e)

abbrev bind :
    {A B : Type 0} → Result ReceiveError A → (A → Result ReceiveError B) → Result ReceiveError B
bind (ok a) f = f a
bind (err e) f = err e

-- The two reads, and the deserialisation of the buffer, which holds the message alone.
receive : {A : Type 0} → Reader A → List ℕ → Result ReceiveError A
receive deserialize connection =
    bind (from_socket (read_u32 connection))
      λ p. bind (from_socket (read_bytes p.0 p.1)) λ q. from_buffer (deserialize q.0)

pub receive_laser_scan : List ℕ → Result ReceiveError LaserScan
receive_laser_scan = receive LaserScan.deserialize

pub receive_point_cloud2 : List ℕ → Result ReceiveError PointCloud2
receive_point_cloud2 = receive PointCloud.deserialize

pub receive_path : List ℕ → Result ReceiveError Trajectory
receive_path = receive Trajectory.deserialize

module _ {A : Type 0} (p : Reader A) (a : A) (message : List ℕ) where
  receive-send :
      (rest : List ℕ)
      → p message ≡ ok (a, [])
      → length message < 2 ^ 32
      → receive p (send message ++ rest) ≡ ok a
  unfolding receive send
  receive-send rest whole fits =
      let small : u32 (length message) ≡ length message = omega arith in
      rw
        (
          append_assoc (put_le 4 (u32 (length message))) message rest,
          read_le-put_le 4 (u32 (length message)) (message ++ rest) (omega arith),
        )
        (unfold from_socket from_buffer in rw (small, read_bytes-append message rest, whole))

-- The first `n` elements of a longer list, the next one, and the others.
split_at :
    (n : ℕ) (xs : List ℕ)
    → n < length xs
    → (front : List ℕ) × (x : ℕ) × (back : List ℕ) × (xs ≡ front ++ x ∷ back) × (n ≡ length front)
split_at n [] h = absurd (omega arith)
split_at zero (x ∷ xs) h = ([], x, xs, refl, refl)
split_at (suc n) (x ∷ xs) h =
    let (front, y, back, e, l) = split_at n xs (omega arith) in
    (x ∷ front, y, back, ap (λ (ys : List ℕ). x ∷ ys) e, ap suc l)

-- If the size that is sent is that of a front part, the receiver works on that part.
receive-send_cut :
    {A : Type 0} (p : Reader A) (message front back : List ℕ) (f : Fault)
    → message ≡ front ++ back
    → u32 (length message) ≡ length front
    → p front ≡ err f
    → receive p (send message) ≡ err (fault f)
unfolding receive send
receive-send_cut p message front back f e l q =
    let sent =
      ap (read_bytes (u32 (length message))) e
      ∙ read_bytes_exact (u32 (length message)) front back l in
    rw (read_le-put_le 4 (u32 (length message)) message (omega arith))
      (unfold from_socket from_buffer in rw (sent, q))

module _ {A : Type 0} (p : Reader A) (local : IsLocal p) (a : A) where
  receive-send_wraps :
      (message : List ℕ)
      → p message ≡ ok (a, [])
      → 2 ^ 32 ≤ length message
      → (f : Fault) × (receive p (send message) ≡ err (fault f))
  receive-send_wraps message whole large =
      let (front, x, back, e, l) = split_at (u32 (length message)) message (omega arith) in
      let (f, q) = prefix_fails local a front x back (rw e at whole) in
      (f, receive-send_cut p message front (x ∷ back) f e l q)

-- A laser scan whose fields are in the ranges of their types and whose serialised form is shorter
-- than 4 GiB arrives as it was sent, whatever is sent behind it on the same connection.
pub receive_laser_scan-send_laser_scan :
    (s : LaserScan) (rest : List ℕ)
    → LaserScan.IsValid s
    → length (LaserScan.serialize s) < 2 ^ 32
    → receive_laser_scan (send_laser_scan s ++ rest) ≡ ok s
unfolding receive_laser_scan send_laser_scan
receive_laser_scan-send_laser_scan s rest v fits =
    receive-send LaserScan.deserialize s (LaserScan.serialize s) rest
      (rw append-nil at (LaserScan.deserialize-serialize s [] v)) fits

-- A point cloud whose fields are in the ranges of their types and whose serialised form is
-- shorter than 4 GiB arrives as it was sent, whatever is sent behind it on the same connection.
pub receive_point_cloud2-send_point_cloud2 :
    (c : PointCloud2) (rest : List ℕ)
    → PointCloud.IsValid c
    → length (PointCloud.serialize c) < 2 ^ 32
    → receive_point_cloud2 (send_point_cloud2 c ++ rest) ≡ ok c
unfolding receive_point_cloud2 send_point_cloud2
receive_point_cloud2-send_point_cloud2 c rest v fits =
    receive-send PointCloud.deserialize c (PointCloud.serialize c) rest
      (rw append-nil at (PointCloud.deserialize-serialize c [] v)) fits

-- A path whose fields are in the ranges of their types and whose serialised form is shorter than
-- 4 GiB arrives as it was sent, whatever is sent behind it on the same connection.
pub receive_path-send_path :
    (t : Trajectory) (rest : List ℕ)
    → Trajectory.IsValid t
    → length (Trajectory.serialize t) < 2 ^ 32
    → receive_path (send_path t ++ rest) ≡ ok t
unfolding receive_path send_path
receive_path-send_path t rest v fits =
    receive-send Trajectory.deserialize t (Trajectory.serialize t) rest
      (rw append-nil at (Trajectory.deserialize-serialize t [] v)) fits

-- A point cloud whose fields are in the ranges of their types and whose serialised form has 4 GiB
-- or more never arrives when nothing is sent behind it: its size wraps, and the receiver gets a
-- fault.
pub receive_point_cloud2_wraps :
    (c : PointCloud2)
    → PointCloud.IsValid c
    → 2 ^ 32 ≤ length (PointCloud.serialize c)
    → (f : Fault) × (receive_point_cloud2 (send_point_cloud2 c) ≡ err (fault f))
unfolding receive_point_cloud2 send_point_cloud2
receive_point_cloud2_wraps c v large =
    receive-send_wraps PointCloud.deserialize PointCloud.deserialize-IsLocal c
      (PointCloud.serialize c) (rw append-nil at (PointCloud.deserialize-serialize c [] v)) large

-- Reading a proper front part of the serialised form of a scan, whose fields are in the ranges of
-- their types, is a fault.
pub laser_scan_truncated :
    (s : LaserScan) (front : List ℕ) (x : ℕ) (back : List ℕ)
    → LaserScan.IsValid s
    → LaserScan.serialize s ≡ front ++ x ∷ back
    → (f : Fault) × (LaserScan.deserialize front ≡ err f)
laser_scan_truncated s front x back v e =
    prefix_fails LaserScan.deserialize-IsLocal s front x back
      (rw (append-nil, e) at (LaserScan.deserialize-serialize s [] v))
