-- ===== src/Server/Tests.antt =====
-- The theorems of the server at a server with one channel and one client, whose handlers are all
-- set and never throw.
use dora_foxglove.Prelude.{
  ℕ, ◌≡◌, refl, true, false, List, [], ◌∷◌, none, some, String, ok, err, arith,
}
use dora_foxglove.Prelude.Maps.{lookup}
use dora_foxglove.Prelude.Int.{pos}
use dora_foxglove.Prelude.Texts.{contains}
use dora_foxglove.Server.Types.{
  Server, Env, ChannelWithoutId, ClientInfo, ClientAdvertisement, ServiceWithoutId, ServiceResponse,
  sent, called, binary, status, error, text, subscribe_call, unsubscribe_call, service_request_call,
  client_message_call, not_std,
}
use dora_foxglove.Server.Effects.{logged, ◌>>◌}
use dora_foxglove.Server.Payload.{JsonLib, Kind, thrown}
use dora_foxglove.Server.Wire.{
  write, read, data_message, client_data_message, service_request_message,
}
use dora_foxglove.Bytes.{put_le}
use dora_foxglove.Server.Wire.RoundTrip
use dora_foxglove.Server.Wire.RoundTrip.{read-write}
use dora_foxglove.Server.Subscriptions.{subscribe_one, unsubscribe_one, find_by_sub_id}
use dora_foxglove.Server.Subscriptions.Invariant.{SubscribedExist}
use dora_foxglove.Server.Graph.{
  handle_subscribe_connection_graph, handle_unsubscribe_connection_graph, whole_graph, count_up,
}
use dora_foxglove.Server.Graph.SecondSubscriber.{second_subscriber_unflagged}
use dora_foxglove.Server.Publish.{send_message}
use dora_foxglove.Server.Publish.Delivery.{subscribed_then_sent, unsubscribed_then_silent}
use dora_foxglove.Server.Connections.{handle_connection_closed}
use dora_foxglove.Server.Connections.Closing.{IsForgotten, closed-IsForgotten}
use dora_foxglove.Server.Dispatch.{handle_binary_message}
use dora_foxglove.Server.Operations.{resize_error}
use dora_foxglove.Bytes.{get_le}
use dora_foxglove.Server.Dispatch.Delivery.{
  client_message_delivered, service_request_delivered, short_request_reads_past,
}
use dora_foxglove.Server.Session.{run, new_server, opened, closed, channels_added, channels_removed}
use dora_foxglove.Server.Session.SubscribedExist.{run-SubscribedExist}

-- A JSON library that takes no text.
abbrev no_json : JsonLib
no_json = record {
  Json = ℕ;
  parse = λ text. err not_std;
  at = λ j key. err not_std;
  index = λ j key. err (thrown not_std);
  find = λ j key. none;
  elements = λ j. [];
  kind = λ j. Kind.number_unsigned;
  equals = λ j key. false;
  depth = λ j. 0;
  get_bool = λ j. err not_std;
  get_i64 = λ j. ok (pos j);
  get_u32 = λ j. ok j;
  get_double = λ j. ok j;
  get_string = λ j. err not_std;
  get_strings = λ j. err not_std;
  get_array = λ j. err not_std;
  get_object = λ j. err not_std;
}

abbrev env_with : List String → Env
env_with capabilities = record {
  name = "dora";
  supported_encodings = [];
  metadata = [];
  session_id = "1";
  capabilities = capabilities;
  topic_whitelist = [];
  send_buffer_limit = 10_000_000;
  has_handler = λ handler. true;
  answer = λ c log. none;
  reachable = λ hdl log. true;
  buffered_amount = λ hdl log. 0;
}

abbrev env : Env
env = env_with ("clientPublish" ∷ "services" ∷ [])

abbrev scan_channel : ChannelWithoutId
scan_channel = record {
  topic = "/scan";
  encoding = "json";
  schema_name = "foxglove.LaserScan";
  schema = "";
  schema_encoding = none;
}

abbrev client_of : List (ℕ × ℕ) → ClientInfo
client_of subscriptions = record {
  subscriptions_by_channel = subscriptions;
  advertised_channels = [];
  subscribed_to_connection_graph = false;
}

abbrev teleop : ClientAdvertisement
teleop = record { channel_id = 7; topic = "/cmd"; encoding = "json"; schema_name = ""; schema = [] }

abbrev reset_service : ServiceWithoutId
reset_service = record {
  name = "/reset";
  kind = "Empty";
  request = none;
  response = none;
  request_schema = some "";
  response_schema = some "";
}

-- Client 3 with its subscriptions; it has advertised a channel.
abbrev server_of : List (ℕ × ℕ) → Server
server_of subscriptions = record new_server {
  next_channel_id = 1;
  clients = (3, client_of subscriptions) ∷ [];
  channels = (1, record { id = 1; without_id = scan_channel }) ∷ [];
  client_channels = (3, (7, teleop) ∷ []) ∷ [];
  services = (5, reset_service) ∷ [];
  graph = record {
    subscription_count = pos 1;
    published_topics = [];
    subscribed_topics = [];
    advertised_services = [];
  };
}

abbrev reset_request : ServiceResponse
reset_request = record {
  service_id = 5;
  call_id = 1;
  encoding = b'j' ∷ b's' ∷ [];
  payload = 1 ∷ 2 ∷ 3 ∷ [];
}

reset_request-IsValid : RoundTrip.IsValid reset_request
reset_request-IsValid = omega arith

run-SubscribedExist_example : SubscribedExist (
    run no_json env
      (opened 3 ∷ channels_added (scan_channel ∷ []) ∷ channels_removed (1 ∷ []) ∷ closed 3 ∷ [])
      new_server)
run-SubscribedExist_example =
    run-SubscribedExist no_json env
      (opened 3 ∷ channels_added (scan_channel ∷ []) ∷ channels_removed (1 ∷ []) ∷ closed 3 ∷ [])

subscribed_then_sent_example :
    ((subscribe_one env 3 [] 9 1 >> send_message env 0 3 1 100 (1 ∷ [])) (server_of [])).1.log
    ≡ sent 3 (binary (data_message 9 100 (1 ∷ []))) ∷ called (subscribe_call 1 3) ∷ []
unfolding lookup find_by_sub_id
subscribed_then_sent_example =
    subscribed_then_sent env 0 3 9 1 100 (1 ∷ []) (server_of []) (client_of []) (λ log. refl)
      (λ log. refl) refl (record { id = 1; without_id = scan_channel }) refl refl refl refl refl

unsubscribed_then_silent_example :
    ((unsubscribe_one env 3 ((1, 9) ∷ []) 9 >> send_message env 0 3 1 100 (1 ∷ []))
      (server_of ((1, 9) ∷ []))).1.log
    ≡ called (unsubscribe_call 1 3) ∷ []
unfolding lookup find_by_sub_id
unsubscribed_then_silent_example =
    unsubscribed_then_silent env 0 3 9 1 100 (1 ∷ []) (server_of ((1, 9) ∷ []))
      (client_of ((1, 9) ∷ [])) (λ log. refl) (λ log. refl) refl refl refl refl

closed-IsForgotten_example :
    ((handle_connection_closed env 3 (server_of ((1, 9) ∷ []))).0 ≡ ok tt)
    × IsForgotten 3 (handle_connection_closed env 3 (server_of ((1, 9) ∷ []))).1
unfolding lookup
closed-IsForgotten_example =
    closed-IsForgotten env 3 (server_of ((1, 9) ∷ [])) (client_of ((1, 9) ∷ [])) refl

client_message_delivered_example :
    handle_binary_message env 3 50 (0, 0) (client_data_message 7 (1 ∷ 2 ∷ [])) (server_of []) ≡ (
      ok tt,
      logged
          (called (
            client_message_call
              (record {
                log_time = 50;
                publish_time = 50;
                sequence = 0;
                advertisement = teleop;
                data_length = 7;
                bytes = 1 ∷ 7 ∷ 0 ∷ 0 ∷ 0 ∷ 1 ∷ 2 ∷ [];
              })
              3))
          (server_of []),
    )
unfolding lookup contains client_data_message put_le
client_message_delivered_example =
    client_message_delivered env 3 50 (0, 0) (server_of []) 7 (1 ∷ 2 ∷ []) ((7, teleop) ∷ []) teleop
      (omega arith) refl refl refl refl (λ c. refl)

service_request_delivered_example :
    handle_binary_message env 3 50 (0, 0) (service_request_message reset_request) (server_of [])
    ≡ (ok tt, logged (called (service_request_call reset_request 3)) (server_of []))
unfolding lookup contains
service_request_delivered_example =
    service_request_delivered env 3 50 (0, 0) (server_of []) reset_request reset_service
      reset_request-IsValid refl refl refl refl

short_request_reads_past_example :
    handle_binary_message env 3 50
      (0, 0)
      (2 ∷ 5 ∷ 0 ∷ 0 ∷ 0 ∷ 1 ∷ 0 ∷ 0 ∷ 0 ∷ 0 ∷ 0 ∷ 0 ∷ [])
      (server_of [])
    ≡ (err resize_error, server_of [])
unfolding contains get_le
short_request_reads_past_example =
    short_request_reads_past env 3 50 (0, 0) (server_of []) 5 0 0 0 1 0 0 0 0 0 0 refl

read-write_example : read (write reset_request) ≡ ok (reset_request, [])
read-write_example = read-write reset_request reset_request-IsValid

second_subscriber_unflagged_example :
    (handle_subscribe_connection_graph env 3 >> handle_unsubscribe_connection_graph env 3)
      (server_of [])
    ≡ (
      ok tt,
      logged
          (sent 3
            (status error (text "Client was not subscribed to connection graph updates") none))
          (logged (sent 3 (whole_graph (server_of []))) (count_up (server_of []))),
    )
unfolding lookup
second_subscriber_unflagged_example =
    second_subscriber_unflagged env 3 (server_of []) (client_of []) refl (λ log. refl) refl refl
