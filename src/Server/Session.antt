-- ===== src/Server/Session.antt =====
-- The life of a server: the calls of its callbacks and public methods in the order in which they
-- run. The callbacks of the messages run one after the other in the thread of the CallbackQueue. Of
-- stop, an action is what it does to the members when its wait and its join are over; what runs in
-- the meantime are actions before it. The handlers are set before, and start changes no member.
pub mod Stable
pub mod Methods
pub mod Messages
pub mod Owner
pub mod Runs
pub mod Plain
pub mod Subscribing
pub mod Telling
pub mod Told
pub mod SubscribedExist
pub mod OneSubscriber
pub mod ChannelsAgree
mod Tests
use dora_foxglove.Prelude.{ℕ, List, [], ◌∷◌, Option, none, String}
use dora_foxglove.Prelude.Int.{ℤ, pos}
use dora_foxglove.Server.Types.{
  Server, Env, ChannelWithoutId, ServiceWithoutId, Parameter, MapOfSets, ServiceResponse, Notice,
  StatusLevel,
}
use dora_foxglove.Server.Effects.{M, ◌>>=◌, done, update}
use dora_foxglove.Server.Payload.{JsonLib}
use dora_foxglove.Server.Status.{send_status, send_status_to, remove_statuses}
use dora_foxglove.Server.Subscriptions.{add_channels, remove_channels}
use dora_foxglove.Server.Parameters.{publish_parameter_values, update_parameter_values}
use dora_foxglove.Server.Graph.{update_connection_graph}
use dora_foxglove.Server.Services.{add_services, remove_services}
use dora_foxglove.Server.Wire.{FetchAssetResponse}
use dora_foxglove.Server.Publish.{
  broadcast_message, send_message, broadcast_time, send_service_response, send_service_failure,
  send_fetch_asset_response,
}
use dora_foxglove.Server.Connections.{handle_connection_opened, handle_connection_closed}
use dora_foxglove.Server.Dispatch.{Frame, handle_message}

-- The members of a new server.
abbrev pub new_server : Server
new_server = record {
  next_channel_id = 0;
  clients = [];
  channels = [];
  client_channels = [];
  client_param_subscriptions = [];
  next_service_id = 0;
  services = [];
  graph = record {
    subscription_count = pos 0;
    published_topics = [];
    subscribed_topics = [];
    advertised_services = [];
  };
  last_buffer_warning = none;
  log = [];
}

-- `_clients.clear()` at the end of stop.
abbrev pub without_clients : Server → Server
without_clients s = record s { clients = [] }

pub data Action : Type 0 where
  opened closed : ℕ → Action
  received : ℕ → ℕ × ℕ → ℕ → Frame → Action
  channels_added : List ChannelWithoutId → Action
  channels_removed : List ℕ → Action
  services_added : List ServiceWithoutId → Action
  services_removed : List ℕ → Action
  message_broadcast : ℕ → ℕ → ℕ → List ℕ → Action
  message_sent : ℕ → ℕ → ℕ → ℕ → List ℕ → Action
  time_broadcast : ℕ → Action
  parameters_published : ℕ → List Parameter → Option String → Action
  parameters_updated : List Parameter → Action
  graph_updated : MapOfSets → MapOfSets → MapOfSets → Action
  service_answered : ℕ → ServiceResponse → Action
  service_failed : ℕ → ℕ → ℕ → Notice → Action
  asset_sent : ℕ → FetchAssetResponse → Action
  status_sent : StatusLevel → String → Option String → Action
  status_sent_to : ℕ → StatusLevel → String → Option String → Action
  statuses_removed : List String → Action
  stopped : Action

module _ (J : JsonLib) (env : Env) where
  pub step : Action → M (Unit {0})
  step (opened hdl) = handle_connection_opened env hdl
  step (closed hdl) = handle_connection_closed env hdl
  step (received now stale hdl frame) = handle_message J env now stale hdl frame
  step (channels_added channels) = add_channels env channels >>= λ ids. done
  step (channels_removed ids) = remove_channels env ids
  step (services_added services) = add_services env services >>= λ ids. done
  step (services_removed ids) = remove_services env ids
  step (message_broadcast now chan_id timestamp payload) =
      broadcast_message env now chan_id timestamp payload
  step (message_sent now hdl chan_id timestamp payload) =
      send_message env now hdl chan_id timestamp payload
  step (time_broadcast timestamp) = broadcast_time env timestamp
  step (parameters_published hdl parameters id) = publish_parameter_values env hdl parameters id
  step (parameters_updated parameters) = update_parameter_values env parameters
  step (graph_updated published subscribed services) =
      update_connection_graph env published subscribed services
  step (service_answered hdl r) = send_service_response env hdl r
  step (service_failed hdl service_id call_id message) =
      send_service_failure env hdl service_id call_id message
  step (asset_sent hdl r) = send_fetch_asset_response env hdl r
  step (status_sent level message id) = send_status env level message id
  step (status_sent_to hdl level message id) = send_status_to env hdl level message id
  step (statuses_removed ids) = remove_statuses env ids
  step stopped = update without_clients

  -- The members after the actions, whether or not one of them throws.
  unfoldable pub run : List Action → Server → Server
  run [] s = s
  run (a ∷ rest) s = run rest (step a s).1
