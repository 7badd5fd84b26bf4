-- ===== src/Server/Construction.antt =====
-- How a server is made: the constructor, socketInit, getPort and remoteEndpointString of class
-- Server, and foxglove-websocket/src/server_factory.cpp. websocketpp and OpenSSL are a parameter: an
-- error is the message of its error code.
pub mod Tls
use Prim.Native.String.{◌++◌ as ◌<>◌}
use dora_foxglove.Prelude.{
  ℕ, Bool, true, false, List, [], ◌∷◌, ◌++◌, Option, none, some, String, Result, ok, err, not,
  if◌then◌else◌,
}
use dora_foxglove.Server.Types.{Server, Exn, std_error, StatusLevel, info, warning, error}
use dora_foxglove.Server.Session.{new_server}

-- The log levels of websocketpp that the server names: APP, WARNING and RECOVERABLE.
pub data LogLevel : Type 0 where
  app warn rerror : LogLevel

-- StatusLevelToLogLevel.
abbrev pub status_level_to_log_level : StatusLevel → LogLevel
status_level_to_log_level info = app
status_level_to_log_level warning = warn
status_level_to_log_level error = rerror

-- Which of the server's methods websocketpp calls, and when.
pub data Callback : Type 0 where
  socket_init tls_init validate_connection handle_connection_opened : Callback
  handle_connection_closed handle_message : Callback

-- What is called on the endpoint, and what is written to its logs.
pub data Setup : Type 0 where
  logs_redirected asio_started access_cleared no_delay_set : Setup
  access_set : LogLevel → Setup
  callback_set : Callback → Setup
  reuse_addr_set : Setup
  backlog_set : ℕ → Setup
  queue_started : ℕ → Setup
  written : LogLevel → String → Setup

-- The configurations of websocketpp, WebSocketNoTls and WebSocketTls.
pub data Configuration : Type 0 where
  no_tls tls : Configuration

pub record Library : Type 0 where
  pub init_error : Option String
  pub no_delay_error : ℕ → Option String
  pub local_port : Result String ℕ
  pub remote_endpoint : ℕ → Option String

unfoldable pub setup_tls_handler : Configuration → List Setup
setup_tls_handler no_tls = written app "Server running without TLS" ∷ []
setup_tls_handler tls = callback_set tls_init ∷ []

module _ (L : Library) where
  -- The constructor: what it calls, in order, and the members or the exception.
  unfoldable pub construct : Configuration → List Setup × Result Exn Server
  unfolding setup_tls_handler
  construct configuration = elim (L.init_error) [
    | some message ↦ (
      logs_redirected ∷ [],
      err (std_error ("Failed to initialize websocket server: " <> message)),
    )
    | none ↦ (
      logs_redirected
          ∷ asio_started
          ∷ access_cleared
          ∷ access_set app
          ∷ callback_set socket_init
          ∷ (setup_tls_handler configuration
              ++ (callback_set validate_connection
                  ∷ callback_set handle_connection_opened
                  ∷ callback_set handle_connection_closed
                  ∷ callback_set handle_message
                  ∷ reuse_addr_set
                  ∷ backlog_set 128
                  ∷ queue_started 1
                  ∷ [])),
      ok new_server,
    )
  ]

  -- ServerFactory::createServer.
  unfoldable pub create_server : Bool → List Setup × Result Exn Server
  create_server use_tls = if use_tls then construct tls else construct no_tls

  -- socketInit.
  unfoldable pub init_socket : ℕ → List Setup
  init_socket hdl = elim (L.no_delay_error hdl) [
    | none ↦ no_delay_set ∷ []
    | some message ↦ written rerror ("Failed to set TCP_NODELAY: " <> message) ∷ []
  ]

  unfoldable pub get_port : Result Exn ℕ
  get_port = elim (L.local_port) [
    | ok port ↦ ok port
    | err message ↦ err (std_error "Server not listening on any port. Has it been started before?")
  ]

  unfoldable pub remote_endpoint_string : ℕ → String
  remote_endpoint_string hdl = elim (L.remote_endpoint hdl) [
    | none ↦ "(unknown)"
    | some endpoint ↦ endpoint
  ]
