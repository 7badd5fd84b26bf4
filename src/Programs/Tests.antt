-- ===== src/Programs/Tests.antt =====
-- The theorems on the programs, at the test data of the sender and a server with two clients.
use Prim.Native.String.{◌++◌ as ◌<>◌}
use dora_foxglove.Prelude.{
  ℕ, ◌≡◌, refl, true, false, List, [], ◌∷◌, ◌++◌, Option, none, some, String, ok, err,
  if◌then◌else◌, arith,
}
use dora_foxglove.Bytes.{put_le, put_all, put_bool}
use dora_foxglove.Server.Types.{Server, Env, ClientInfo, std_error, not_std}
use dora_foxglove.Prelude.Texts.{contains}
use dora_foxglove.Prelude.Maps.{lookup}
use dora_foxglove.Server.Session.{opened, closed, new_server}
use dora_foxglove.Server.Publish.{broadcast_message}
use dora_foxglove.Server.Publish.Broadcasting.{deliveries, broadcast_reaches}
use dora_foxglove.Dora.Header
use dora_foxglove.Dora.Header.{Header}
use dora_foxglove.Dora.LaserScan
use dora_foxglove.Dora.LaserScan.{LaserScan}
use dora_foxglove.Dora.PointCloud
use dora_foxglove.Dora.Trajectory
use dora_foxglove.Dora.Transport.{send_laser_scan, send_point_cloud2, send_path}
use dora_foxglove.Programs.Sender
use dora_foxglove.Programs.Sender.{fill, rows, zeros, floats}
use dora_foxglove.Programs.Sender.Filling.{concat, fill-concat}
use dora_foxglove.Programs.Viewer.{
  Floats, Builder, Data, receive_all, broadcast_round, scan_message, cloud_message, path_message,
}
use dora_foxglove.Programs.Viewer.Served.{IsSendable, receive_all-send, data_served}
use dora_foxglove.Programs.Viewer.Main.{World, Schedule, uncaught, main}
use dora_foxglove.Programs.Viewer.Serving.{cloud_unread}
use dora_foxglove.Programs.Viewer.Ending.{Starts, started_history, main_unread}
use dora_foxglove.Server.Construction.{Library}
use dora_foxglove.Server.Lifecycle.{Transport, Service}
use dora_foxglove.Server.Payload.{JsonLib}
use dora_foxglove.Serialization.Instance.{data_json}

fill-concat_example : fill 12 0 rows (zeros 48) ≡ ok (concat rows)
unfolding zeros put_le
fill-concat_example = fill-concat 12 rows (zeros 48) (omega arith) refl

abbrev unset_header : Header
unset_header = record { seq = 0; stamp = 0; frame_id = [] }

abbrev unset_scan : LaserScan
unset_scan = record {
  header = unset_header;
  angle_min = 0;
  angle_max = 0;
  angle_increment = 0;
  time_increment = 0;
  scan_time = 0;
  range_min = 0;
  range_max = 0;
  ranges = [];
  intensities = [];
}

abbrev received : Data
received = record {
  scan = Sender.scan unset_scan;
  cloud = record {
    header = record unset_header { frame_id = Sender.base_frame };
    height = 1;
    width = 1;
    fields = Sender.fields;
    is_bigendian = false;
    point_step = 12;
    row_step = 12;
    points = 0 ∷ 0 ∷ 128 ∷ 63 ∷ 0 ∷ 0 ∷ 128 ∷ 63 ∷ 0 ∷ 0 ∷ 128 ∷ 63 ∷ [];
    is_dense = true;
  };
  path = record {
    header = record unset_header { frame_id = Sender.base_frame };
    points = Sender.pose (λ i. i) 1 0 ∷ [];
  };
}

received-IsSendable : IsSendable received
unfolding LaserScan.serialize PointCloud.serialize PointCloud.serialize_field Trajectory.serialize
    Trajectory.serialize_pose Header.serialize put_le put_all put_bool
received-IsSendable = record {
  scan_valid = omega arith;
  scan_fits = omega arith;
  cloud_valid = omega arith;
  cloud_fits = omega arith;
  path_valid = omega arith;
  path_fits = omega arith;
}

abbrev floats_as_they_are : Floats
floats_as_they_are = record {
  to_int = λ d. d;
  of_int = λ d. d;
  minus = λ d e. 0;
  to_u32 = λ d. d;
  widen = λ d. d;
}

abbrev builder : Builder
builder = record {
  laser_scan = λ time frame first last ranges intensities. ranges;
  point_cloud = λ time frame stride fields points. points;
  poses_in_frame = λ time frame poses. frame;
}

abbrev env : Env
env = record {
  name = "C++ FlatBuffers example server";
  supported_encodings = [];
  metadata = [];
  session_id = "1";
  capabilities = [];
  topic_whitelist = [];
  send_buffer_limit = 10_000_000;
  has_handler = λ handler. true;
  answer = λ c log. none;
  reachable = λ hdl log. true;
  buffered_amount = λ hdl log. 0;
}

abbrev client_of : List (ℕ × ℕ) → ClientInfo
client_of subscriptions = record {
  subscriptions_by_channel = subscriptions;
  advertised_channels = [];
  subscribed_to_connection_graph = false;
}

-- Client 3 is subscribed to channels 1 and 3, client 4 to channel 2.
abbrev serving : Server
serving = record new_server {
  clients = (3, client_of ((1, 9) ∷ (3, 8) ∷ [])) ∷ (4, client_of ((2, 9) ∷ [])) ∷ [];
}

broadcast_reaches_example :
    broadcast_message env 100 1 100 (1 ∷ 2 ∷ []) serving
    ≡ (ok tt, record serving { log = deliveries 1 100 (1 ∷ 2 ∷ []) serving.clients [] })
unfolding lookup
broadcast_reaches_example =
    broadcast_reaches env 100 1 100 (1 ∷ 2 ∷ []) (λ hdl log. refl) (λ hdl log. refl) serving
      (refl, (refl, tt))

data_served_example :
    (receive_all
        (send_laser_scan received.scan ++ [])
        (send_point_cloud2 received.cloud ++ [])
        (send_path received.path ++ [])
      ≡ ok received)
    × (broadcast_round env floats_as_they_are builder
          (1, 2, 3)
          (103, 104, 105)
          (100, 101, 102)
          received
          serving
        ≡ (
          ok tt,
          record serving {
            log =
                deliveries 3 102
                  (path_message floats_as_they_are builder received.path)
                  serving.clients
                  (deliveries 2 101
                    (cloud_message floats_as_they_are builder received.cloud)
                    serving.clients
                    (deliveries 1 100
                      (scan_message floats_as_they_are builder received.scan)
                      serving.clients
                      []));
          },
        ))
unfolding lookup scan_message cloud_message path_message
data_served_example =
    data_served env floats_as_they_are builder received [] [] [] 1 2 3 103 104 105 100 101 102
      serving received-IsSendable (λ hdl log. refl) (λ hdl log. refl) (λ hdl log. refl)
      (λ hdl log. refl) (refl, (refl, tt))

abbrev transport : Transport
transport = record {
  stopped = λ history. false;
  run_ends = λ history. true;
  is_listening = λ history. true;
  attached = λ history hdl. true;
  handled = λ history. closed 3 ∷ [];
  listen_error = λ host port history. none;
  accept_error = λ history. none;
  endpoint_error = λ history. none;
  success = "Success";
  to_string = λ n. "8765";
}

abbrev library : Library
library = record {
  init_error = none;
  no_delay_error = λ hdl. none;
  local_port = ok 8765;
  remote_endpoint = λ hdl. some "127.0.0.1";
}

abbrev world_of : (String → Option (List ℕ)) → World
world_of files = record {
  library = library;
  transport = transport;
  files = files;
  first = send_laser_scan received.scan ++ [];
  second = send_point_cloud2 received.cloud ++ [];
  third = send_path received.path ++ [];
  floats = floats_as_they_are;
  builder = builder;
}

abbrev json : JsonLib
json = data_json (λ message. err not_std)

-- A client joins before there are channels, and a second one during the first pause.
abbrev schedule : Schedule
schedule = record {
  started = opened 3 ∷ [];
  first_added = [];
  second_added = [];
  third_added = [];
  rounds =
      record {
        clocks = (100, 101, 102);
        server_clocks = (103, 104, 105);
        meanwhile = opened 4 ∷ [];
      }
      ∷ record { clocks = (200, 201, 202); server_clocks = (203, 204, 205); meanwhile = [] }
      ∷ [];
}

abbrev starts : Starts transport
starts = record { listens = refl; accepts = refl; listening = refl; resolved = refl; runs = refl }

-- Only the first file is there.
abbrev one_file : String → Option (List ℕ)
one_file name = if contains ("scan.bfbs" ∷ []) name then some (1 ∷ []) else none

main_unread_example :
    (l : Service) × (main json
        (world_of one_file)
        env
        schedule
        ("server" ∷ "scan.bfbs" ∷ "cloud.bfbs" ∷ "path.bfbs" ∷ [])
      ≡ (uncaught (std_error ("Could not open file " <> "cloud.bfbs")), some l))
    × (l.has_thread ≡ true)
    × (l.history ≡ started_history)
unfolding contains
main_unread_example =
    main_unread json (world_of one_file) env schedule received "server" "scan.bfbs" "cloud.bfbs"
      "path.bfbs" [] "cloud.bfbs" (receive_all-send received [] [] [] received-IsSendable) refl
      starts (cloud_unread (1 ∷ []) (refl, omega arith) refl)
