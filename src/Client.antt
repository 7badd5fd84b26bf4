-- ===== src/Client.antt =====
-- foxglove-websocket/include/foxglove/websocket/websocket_client.hpp: the client, over the
-- websocketpp endpoint and the JSON library as parameters. Each method takes the client to a result
-- and the client after it; the mutex makes a method one step.
pub mod Requests
pub mod Effect
pub mod Handled
pub mod HandledParameters
pub mod Exchange
pub mod Connection
mod Tests
use Prim.Native.String.{◌++◌ as ◌<>◌}
use dora_foxglove.Prelude.{
  ℕ, Bool, true, false, List, [], ◌∷◌, Option, none, some, String, Result, ok, err, if◌then◌else◌,
}
use dora_foxglove.Server.Types.{Exn, std_error, ServiceResponse}
use dora_foxglove.Server.Dispatch.{Frame, text_frame, binary_frame, other_frame}
use dora_foxglove.Server.Payload.{JsonWriter}
use dora_foxglove.Server.Wire.{client_data_message, service_request_message}
use dora_foxglove.Client.Requests.{Request, payload}

-- What can be seen of a client: a connection is opened, with the handlers that are set for it, or
-- closed, a message goes out on a connection, and a handler of the user gets a message. The endpoint
-- and its thread are started and ended.
pub data Output : Type 0 where
  asio_started perpetual_started thread_started perpetual_stopped thread_joined : Output
  connecting : ℕ → Bool → Bool → Output
  closing : ℕ → Output
  sent : ℕ → Frame → Output
  text_received binary_received : List ℕ → Output

pub record Client : Type 0 where
  pub connection : Option ℕ
  pub has_text_handler : Bool
  pub has_binary_handler : Bool
  pub log : List Output

-- The websocketpp endpoint: the connection for a URI, none with an error code, and what `send`
-- throws for a connection, or for none.
pub record Endpoint : Type 0 where
  pub get_connection : String → List Output → Option ℕ
  pub send_error : ℕ → Frame → List Output → Option Exn
  pub no_connection : Exn

abbrev pub Method : Type 0
Method = Client → Result Exn (Unit {0}) × Client

-- The members as they are declared.
abbrev pub new_client : Client
new_client = record {
  connection = none;
  has_text_handler = false;
  has_binary_handler = false;
  log = [];
}

abbrev pub noted : Output → Client → Client
noted o c = record c { log = o ∷ c.log }

-- Client(), with the exception of `init_asio` if it throws.
unfoldable pub start_client : Option Exn → Result Exn Client
start_client none =
    ok (noted thread_started (noted perpetual_started (noted asio_started new_client)))
start_client (some e) = err e

module _ (E : Endpoint) where
  -- `connect` with a handler for the opening and for the closing of the connection, if set.
  unfoldable pub connect : String → Bool → Bool → Method
  connect uri on_open on_close c = elim (E.get_connection uri c.log) [
    | none ↦ (
      err (std_error ("Failed to get connection from URI " <> uri)),
      record c { connection = none },
    )
    | some k ↦ (ok tt, noted (connecting k on_open on_close) (record c { connection = some k }))
  ]

  -- The other `connect`: the handler for the opening sets the value of the promise.
  abbrev pub connect_future : String → Method
  connect_future uri = connect uri true false

  unfoldable pub close : Method
  close c = elim (c.connection) [
    | none ↦ (ok tt, c)
    | some k ↦ (ok tt, noted (closing k) (record c { connection = none }))
  ]

  -- ~Client().
  unfoldable pub destroy : Client → Client
  unfolding close
  destroy c = noted thread_joined (noted perpetual_stopped (close c).1)

  -- sendText and sendBinary.
  unfoldable pub send : Frame → Method
  send frame c = elim (c.connection) [
    | none ↦ (err E.no_connection, c)
    | some k ↦ elim (E.send_error k frame c.log) [
      | some e ↦ (err e, c)
      | none ↦ (ok tt, noted (sent k frame) c)
    ]
  ]

  -- The methods that send JSON.
  unfoldable pub request : {Json : Type 0} → JsonWriter Json → Request → Method
  request W r = send (text_frame (W.dump (payload W r)))

  unfoldable pub publish : ℕ → List ℕ → Method
  publish channel_id buffer = send (binary_frame (client_data_message channel_id buffer))

  unfoldable pub send_service_request : ServiceResponse → Method
  send_service_request r = send (binary_frame (service_request_message r))

unfoldable pub message_handler : Frame → Client → Client
message_handler (text_frame message) c =
    if c.has_text_handler then noted (text_received message) c else c
message_handler (binary_frame message) c =
    if c.has_binary_handler then noted (binary_received message) c else c
message_handler (other_frame message) c = c

-- The argument says whether the new handler holds a function.
unfoldable pub set_text_message_handler : Bool → Client → Client
set_text_message_handler set c = record c { has_text_handler = set }

unfoldable pub set_binary_message_handler : Bool → Client → Client
set_binary_message_handler set c = record c { has_binary_handler = set }
