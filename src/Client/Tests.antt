-- ===== src/Client/Tests.antt =====
-- The theorems on the client at a server with one channel and one client, with a JSON library of
-- data that reads every text as one request.
use dora_foxglove.Prelude.{ℕ, ◌≡◌, refl, true, false, List, [], ◌∷◌, none, some, Result, ok, arith}
use dora_foxglove.Server.Types.{Server, Env, Exn, not_std, error}
use dora_foxglove.Server.Effects.{try}
use dora_foxglove.Server.Payload.{JsonLib}
use dora_foxglove.Server.Status.{send_status_and_log_msg}
use dora_foxglove.Server.Operations.{required_capability, text_failure}
use dora_foxglove.Server.Dispatch.{handle_text_message, text_frame}
use dora_foxglove.Server.Session.{new_server}
use dora_foxglove.Serialization.Instance.{
  Value, data_json, data_writer, data_json-Reads, data_json-IsNested,
}
use dora_foxglove.Client.{
  Client, Endpoint, sent, connecting, asio_started, perpetual_started, thread_started, noted,
  new_client, start_client, destroy, request,
}
use dora_foxglove.Client.Requests.{Request, subscribe, payload}
use dora_foxglove.Client.Effect.{effect}
use dora_foxglove.Client.Exchange.{request_carried}
use dora_foxglove.Client.Connection.{
  Action, connected, closed, requested, published, is_open, run, SentOpen, run-SentOpen,
}

-- Two subscriptions.
abbrev asked : Request
asked = subscribe ((9, 1) ∷ (10, 2) ∷ [])

abbrev meaning : List ℕ → Result Exn Value
meaning bytes = ok (payload data_writer asked)

abbrev json : JsonLib
json = data_json meaning

abbrev env : Env
env = record {
  name = "dora";
  supported_encodings = [];
  metadata = [];
  session_id = "1";
  capabilities = [];
  topic_whitelist = [];
  send_buffer_limit = 10_000_000;
  has_handler = λ handler. true;
  answer = λ c log. none;
  reachable = λ hdl log. true;
  buffered_amount = λ hdl log. 0;
}

-- Client 3 is connected, and there is channel 1.
abbrev server : Server
server = record new_server {
  clients =
      (
        3,
        record {
          subscriptions_by_channel = [];
          advertised_channels = [];
          subscribed_to_connection_graph = false;
        },
      )
      ∷ [];
  channels =
      (
        1,
        record {
          id = 1;
          without_id = record {
            topic = "/scan";
            encoding = "json";
            schema_name = "";
            schema = "";
            schema_encoding = none;
          };
        },
      )
      ∷ [];
}

-- Connections are numbered by the length of the log; every message goes out.
abbrev endpoint : Endpoint
endpoint = record {
  get_connection = λ uri log. some 8;
  send_error = λ k frame log. none;
  no_connection = not_std;
}

abbrev client : Client
client = record new_client { connection = some 7; log = connecting 7 true false ∷ [] }

request_carried_example :
    (request endpoint data_writer asked client ≡ (ok tt, noted (sent 7 (text_frame [])) client))
    × (handle_text_message json env 3 [] server
        ≡ try
            (effect env 3 asked)
            (λ e. send_status_and_log_msg env 3 error (text_failure "subscribe" e))
            server)
unfolding required_capability
request_carried_example =
    request_carried json data_writer (data_json-Reads meaning) (data_json-IsNested meaning) env 3
      endpoint client 7 asked server (omega arith) refl refl refl refl refl

-- A client behind its constructor.
abbrev constructed : Client
constructed = record new_client { log = thread_started ∷ perpetual_started ∷ asio_started ∷ [] }

abbrev actions : List Action
actions =
    connected "ws://localhost:8765" true false
    ∷ requested asked
    ∷ closed
    ∷ published 1 []
    ∷ connected "ws://localhost:8765" true false
    ∷ []

run-SentOpen_example :
    SentOpen (run endpoint data_writer actions constructed).log
    × ((k : ℕ)
        → (run endpoint data_writer actions constructed).connection ≡ some k
        → is_open k (destroy endpoint (run endpoint data_writer actions constructed)).log ≡ false)
unfolding start_client
run-SentOpen_example = run-SentOpen endpoint data_writer constructed actions refl
