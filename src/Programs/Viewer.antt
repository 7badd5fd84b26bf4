-- ===== src/Programs/Viewer.antt =====
-- examples/src/laser_scan_server.cpp: CreateType, and main with its three receivers, three channels
-- and the loop that broadcasts. The arithmetic of floats, the classes that the FlatBuffers compiler
-- generates and the contents of files are parameters.
pub mod Channels
pub mod Served
pub mod Main
pub mod Serving
pub mod Ending
use dora_foxglove.Prelude.{
  ℕ, List, [], ◌∷◌, map, none, String, Result, ok, err, ◌==◌, if◌then◌else◌, ◌>>=◌ as result_bind,
}
use dora_foxglove.Prelude.Texts.{text_of}
use dora_foxglove.Base64.{encode}
use dora_foxglove.Dora.Header.{Header}
use dora_foxglove.Dora.LaserScan.{LaserScan}
use dora_foxglove.Dora.PointCloud.{PointCloud2, PointField}
use dora_foxglove.Dora.Trajectory.{Trajectory, Pose}
use dora_foxglove.Dora.Transport.{
  ReceiveError, receive_laser_scan, receive_point_cloud2, receive_path,
}
use dora_foxglove.Server.Types.{Env, ChannelWithoutId}
use dora_foxglove.Server.Effects.{M, ◌>>=◌, ◌>>◌, return}
use dora_foxglove.Server.Subscriptions.{add_channels}
use dora_foxglove.Server.Publish.{broadcast_message}

-- foxglove::NumericType.
pub data NumericType : Type 0 where
  unknown uint8 int8 uint16 int16 uint32 int32 float32 float64 : NumericType

unfoldable pub create_type : ℕ → NumericType
create_type type =
    if type == 0
    then unknown
    else if type == 1
    then uint8
    else if type == 2
    then int8
    else if type == 3
    then uint16
    else if type == 4
    then int16
    else if type == 5
    then uint32
    else if type == 6
    then int32
    else if type == 7
    then float32
    else if type == 8
    then float64
    else unknown

-- Conversions and the difference of doubles, and of a float to a double, on their bit patterns.
pub record Floats : Type 0 where
  pub to_int : ℕ → ℕ
  pub of_int : ℕ → ℕ
  pub minus : ℕ → ℕ → ℕ
  pub to_u32 : ℕ → ℕ
  pub widen : ℕ → ℕ

-- `foxglove::Time(stamp, stamp - sec)` with `int sec = stamp`: the seconds and the nanoseconds.
pub record Time : Type 0 where
  pub seconds : ℕ
  pub nanoseconds : ℕ

unfoldable pub time : Floats → ℕ → Time
time F stamp = record {
  seconds = F.to_u32 stamp;
  nanoseconds = F.to_u32 (F.minus stamp (F.of_int (F.to_int stamp)));
}

-- A PackedElementField.
pub record PackedField : Type 0 where
  pub name : List ℕ
  pub offset : ℕ
  pub numeric_type : NumericType

-- The bytes of a finished buffer: what CreateLaserScan, CreatePointCloud and CreatePosesInFrame make
-- of their arguments. The pose at the origin that the first two are given is part of them.
pub record Builder : Type 0 where
  pub laser_scan : Time → List ℕ → ℕ → ℕ → List ℕ → List ℕ → List ℕ
  pub point_cloud : Time → List ℕ → ℕ → List PackedField → List ℕ → List ℕ
  pub poses_in_frame : Time → List ℕ → List Pose → List ℕ

unfoldable pub packed : PointField → PackedField
packed f = record { name = f.name; offset = f.offset; numeric_type = create_type f.datatype }

module _ (F : Floats) (B : Builder) where
  unfoldable pub scan_message : LaserScan → List ℕ
  scan_message s =
      B.laser_scan (time F s.header.stamp) s.header.frame_id (F.widen s.angle_min)
        (F.widen s.angle_max) (map F.widen s.ranges) (map F.widen s.intensities)

  unfoldable pub cloud_message : PointCloud2 → List ℕ
  cloud_message c =
      B.point_cloud (time F c.header.stamp) c.header.frame_id c.point_step (map packed c.fields)
        c.points

  unfoldable pub path_message : Trajectory → List ℕ
  path_message t = B.poses_in_frame (time F t.header.stamp) t.header.frame_id t.points

-- What the three receivers give, one after the other, on their connections.
pub record Data : Type 0 where
  pub scan : LaserScan
  pub cloud : PointCloud2
  pub path : Trajectory

unfoldable pub receive_all : List ℕ → List ℕ → List ℕ → Result ReceiveError Data
receive_all first second third = result_bind (receive_laser_scan first) λ scan.
    result_bind (receive_point_cloud2 second) λ cloud.
      result_bind (receive_path third)
        λ path. ok (record { scan = scan; cloud = cloud; path = path })

-- A channel with the contents of a schema's file.
abbrev pub channel_of : String → String → List ℕ → ChannelWithoutId
channel_of topic schema_name file = record {
  topic = topic;
  encoding = "flatbuffer";
  schema_name = schema_name;
  schema = text_of (encode file);
  schema_encoding = none;
}

abbrev pub laser_channel : List ℕ → ChannelWithoutId
laser_channel = channel_of "laserScan_msg" "foxglove.LaserScan"

abbrev pub cloud_channel : List ℕ → ChannelWithoutId
cloud_channel = channel_of "pointCloud_msg" "foxglove.PointCloud"

abbrev pub path_channel : List ℕ → ChannelWithoutId
path_channel = channel_of "path_msg" "foxglove.PosesInFrame"

-- `front`; addChannels gives as many ids as it was given channels.
abbrev pub front : List ℕ → ℕ
front [] = 0
front (id ∷ ids) = id

module _ (env : Env) where
  unfoldable pub add_three : List ℕ → List ℕ → List ℕ → M (ℕ × ℕ × ℕ)
  add_three laser cloud path = do
    first ← add_channels env (laser_channel laser ∷ [])
    second ← add_channels env (cloud_channel cloud ∷ [])
    third ← add_channels env (path_channel path ∷ [])
    return (front first, front second, front third)

  -- One round of the loop: the clock is read before each broadcast, which gives the timestamp, and
  -- by the server in it.
  unfoldable pub broadcast_round :
      Floats → Builder → (ℕ × ℕ × ℕ) → (ℕ × ℕ × ℕ) → (ℕ × ℕ × ℕ) → Data → M (Unit {0})
  broadcast_round F B (first, second, third) (n1, n2, n3) (t1, t2, t3) received = do
    broadcast_message env n1 first t1 (scan_message F B received.scan)
    broadcast_message env n2 second t2 (cloud_message F B received.cloud)
    broadcast_message env n3 third t3 (path_message F B received.path)
