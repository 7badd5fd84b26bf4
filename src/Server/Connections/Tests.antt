-- ===== src/Server/Connections/Tests.antt =====
-- A subscription to parameters at a server without clients.
use dora_foxglove.Prelude.{◌≡◌, refl, true, [], ◌∷◌, none, ok, is_some}
use dora_foxglove.Prelude.Int.{pos}
use dora_foxglove.Prelude.Maps.{lookup}
use dora_foxglove.Server.Types.{Server, Env}
use dora_foxglove.Server.Parameters.{subscribe_params}
use dora_foxglove.Server.Connections.{handle_connection_closed}
use dora_foxglove.Server.Connections.Late.{late_subscription_stays}

abbrev env : Env
env = record {
  name = "dora";
  supported_encodings = [];
  metadata = [];
  session_id = "1";
  capabilities = "parametersSubscribe" ∷ [];
  topic_whitelist = [];
  send_buffer_limit = 10_000_000;
  has_handler = λ handler. true;
  answer = λ c log. none;
  reachable = λ hdl log. true;
  buffered_amount = λ hdl log. 0;
}

abbrev deserted : Server
deserted = record {
  next_channel_id = 0;
  clients = [];
  channels = [];
  client_channels = [];
  client_param_subscriptions = [];
  next_service_id = 0;
  services = [];
  graph = record {
    subscription_count = pos 0;
    published_topics = [];
    subscribed_topics = [];
    advertised_services = [];
  };
  last_buffer_warning = none;
  log = [];
}

late_subscription_stays_example :
    (is_some
        (lookup 3 (subscribe_params env 3 ("speed" ∷ []) deserted).1.client_param_subscriptions)
      ≡ true)
    × (handle_connection_closed env 3 (subscribe_params env 3 ("speed" ∷ []) deserted).1
        ≡ (ok tt, (subscribe_params env 3 ("speed" ∷ []) deserted).1))
unfolding lookup
late_subscription_stays_example = late_subscription_stays env 3 ("speed" ∷ []) deserted refl
