-- ===== src/Server/Subscriptions/Tests.antt =====
-- The theorems on channels at a server with one channel.
use dora_foxglove.Prelude.{ℕ, ◌≤◌, ◌≡◌, true, [], ◌∷◌, none, ok, arith}
use dora_foxglove.Prelude.Maps.{lookup, emplace, Every-emplace, Every-none}
use dora_foxglove.Server.Types.{Server, Env, ChannelWithoutId}
use dora_foxglove.Server.Session.{new_server}
use dora_foxglove.Server.Subscriptions.{add_channels}
use dora_foxglove.Server.Subscriptions.Fresh.{IdsGiven, numbered, added_or, add_channels-IdsGiven}

abbrev env : Env
env = record {
  name = "dora";
  supported_encodings = [];
  metadata = [];
  session_id = "";
  capabilities = [];
  topic_whitelist = [];
  send_buffer_limit = 1000;
  has_handler = λ h. true;
  answer = λ c log. none;
  reachable = λ hdl log. true;
  buffered_amount = λ hdl log. 0;
}

abbrev scans : ChannelWithoutId
scans = record {
  topic = "scan";
  encoding = "flatbuffer";
  schema_name = "LaserScan";
  schema = "";
  schema_encoding = none;
}

abbrev clouds : ChannelWithoutId
clouds = record scans { topic = "cloud"; schema_name = "PointCloud" }

abbrev server : Server
server = record new_server {
  next_channel_id = 1;
  channels = (1, record { id = 1; without_id = scans }) ∷ [];
}

server-IdsGiven : IdsGiven server
unfolding emplace
server-IdsGiven =
    Every-emplace (λ id channel. id ≤ 1) 1 (record { id = 1; without_id = scans }) [] (Every-none _)
      (omega arith)

add_channels-IdsGiven_example :
    let (r, t) = add_channels env (clouds ∷ scans ∷ []) server in
    (r ≡ ok (2 ∷ 3 ∷ []))
    × IdsGiven t
    × ((id : ℕ)
        → lookup id t.channels
          ≡ added_or id (numbered 1 (clouds ∷ scans ∷ [])) (lookup id server.channels))
add_channels-IdsGiven_example =
    add_channels-IdsGiven env (clouds ∷ scans ∷ []) server (omega arith) server-IdsGiven
