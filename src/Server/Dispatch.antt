-- ===== src/Server/Dispatch.antt =====
-- The messages of the clients: hasHandler, handleTextMessage, handleBinaryMessage and the callback
-- of handleMessage.
pub mod Delivery
pub mod Totality
use dora_foxglove.Prelude.{
  ℕ, ◌+◌, ◌-◌, ◌*◌, ◌%◌, ◌^◌, Bool, true, false, List, [], ◌∷◌, Option, none, some, String, Result,
  ok, err, not, ltb, ◌==◌, if◌then◌else◌, length, ◌>>=◌ as result_bind,
}
use dora_foxglove.Prelude.Maps.{Map, lookup}
use dora_foxglove.Prelude.Texts.{bytes_of, contains, str_eq}
use dora_foxglove.Bytes.{get_le, Fault, length_error}
use dora_foxglove.Server.Types.{
  Server, Env, Exn, channel_error, client_channel_error, service_error, not_std, unknown_operation,
  error, Notice, text, what, what_op, what_op_id, handler_failed, capability_missing,
  binary_capability_missing, handler_missing, unrecognized_opcode, unrecognized_binary_opcode,
  invalid_message_length, not_advertised, invalid_request_length, service_not_advertised, Handler,
  subscribe_handler, unsubscribe_handler, client_advertise_handler, client_unadvertise_handler,
  client_message_handler, parameter_request_handler, parameter_change_handler,
  parameter_subscription_handler, service_request_handler, connection_graph_handler,
  fetch_asset_handler, client_message_call, service_request_call, fetch_asset_call,
  out_of_bounds_read, ClientAdvertisement, ServiceResponse,
}
use dora_foxglove.Server.Effects.{
  M, ◌>>=◌, ◌>>◌, return, done, throw, lift, get, update, try, call, logged,
}
use dora_foxglove.Server.Payload.{JsonLib}
use dora_foxglove.Server.Status.{send_status_and_log_msg}
use dora_foxglove.Server.Subscriptions.{handle_subscribe, handle_unsubscribe}
use dora_foxglove.Server.ClientChannels.{handle_advertise, handle_unadvertise}
use dora_foxglove.Server.Parameters.{
  handle_get_parameters, handle_set_parameters, handle_subscribe_parameter_updates,
  handle_unsubscribe_parameter_updates,
}
use dora_foxglove.Server.Graph.{
  handle_subscribe_connection_graph, handle_unsubscribe_connection_graph,
}
use dora_foxglove.Server.Publish.{send_service_failure}
use dora_foxglove.Server.Wire.{read}
use dora_foxglove.Server.Operations.{
  hash_from, string_hash, Operation, operation_of, required_capability, required_binary_capability,
  handler_for, text_failure, message_failure, missing, subscribe, unsubscribe, advertise,
  unadvertise, get_parameters, set_parameters, subscribe_parameter_updates,
  unsubscribe_parameter_updates, subscribe_connection_graph, unsubscribe_connection_graph,
  fetch_asset, resize_error,
}

module _ (J : JsonLib) (env : Env) where
  open J use {Json, parse, at, get_string, get_u32}

  unfoldable pub handle_fetch_asset : Json → ℕ → M (Unit {0})
  handle_fetch_asset payload hdl = do
    uri ← lift (result_bind (at payload "uri") get_string)
    request_id ← lift (result_bind (at payload "requestId") get_u32)
    call env (fetch_asset_call uri request_id hdl)

  unfoldable pub run_operation : Operation → Json → ℕ → M (Unit {0})
  run_operation subscribe payload hdl = handle_subscribe J env payload hdl
  run_operation unsubscribe payload hdl = handle_unsubscribe J env payload hdl
  run_operation advertise payload hdl = handle_advertise J env hdl payload
  run_operation unadvertise payload hdl = handle_unadvertise J env hdl payload
  run_operation get_parameters payload hdl = handle_get_parameters J env payload hdl
  run_operation set_parameters payload hdl = handle_set_parameters J env payload hdl
  run_operation subscribe_parameter_updates payload hdl =
      handle_subscribe_parameter_updates J env payload hdl
  run_operation unsubscribe_parameter_updates payload hdl =
      handle_unsubscribe_parameter_updates J env payload hdl
  run_operation subscribe_connection_graph payload hdl = handle_subscribe_connection_graph env hdl
  run_operation unsubscribe_connection_graph payload hdl =
      handle_unsubscribe_connection_graph env hdl
  run_operation fetch_asset payload hdl = handle_fetch_asset payload hdl

  -- hasHandler, which throws on a hash that is no operation's.
  unfoldable pub has_handler : ℕ → M Bool
  has_handler h = elim (operation_of h) [
    | none ↦ throw (unknown_operation h)
    | some o ↦ return (env.has_handler (handler_for o))
  ]

  -- The `switch` of handleTextMessage.
  unfoldable pub dispatch : String → Json → ℕ → M (Unit {0})
  dispatch op payload hdl = elim (operation_of (string_hash op)) [
    | none ↦ send_status_and_log_msg env hdl error (unrecognized_opcode op)
    | some o ↦ run_operation o payload hdl
  ]

  -- handleTextMessage behind the parsing.
  unfoldable pub handle_operation : String → Json → ℕ → M (Unit {0})
  handle_operation op payload hdl = elim (missing env.capabilities (required_capability op)) [
    | some capability ↦ send_status_and_log_msg env hdl error (capability_missing op capability)
    | none ↦ do
      handled ← has_handler (string_hash op)
      if handled
          then try (dispatch op payload hdl)
              (λ e. send_status_and_log_msg env hdl error (text_failure op e))
          else send_status_and_log_msg env hdl error (handler_missing op)
  ]

  unfoldable pub handle_text_message : ℕ → List ℕ → M (Unit {0})
  handle_text_message hdl message = do
    payload ← lift (parse message)
    op ← lift (result_bind (at payload "op") get_string)
    handle_operation op payload hdl

-- The `catch` clauses around clientMessageHandler.
abbrev client_message_failure : Exn → Notice
client_message_failure (client_channel_error id t) = what (client_channel_error id t)
client_message_failure e = text "clientPublish: Failed to execute handler"

abbrev pub is_std : Exn → Bool
is_std not_std = false
is_std e = true

-- The four bytes behind the opcode.
abbrev pub channel_id_of : List ℕ → ℕ
channel_id_of (op ∷ a ∷ b ∷ c ∷ d ∷ rest) = get_le (a ∷ b ∷ c ∷ d ∷ [])
channel_id_of _ = 0

-- `now` is the clock in nanoseconds, and `stale` what an uninitialised ServiceRequest holds.
module _ (env : Env) (hdl now : ℕ) (stale : ℕ × ℕ) where
  unfoldable pub publish_client_message : ClientAdvertisement → List ℕ → M (Unit {0})
  publish_client_message advertisement message =
      try
        (call env (
          client_message_call
            (record {
              log_time = now;
              publish_time = now;
              sequence = 0;
              advertisement = advertisement;
              data_length = length message;
              bytes = message;
            })
            hdl))
        (λ e. send_status_and_log_msg env hdl error (client_message_failure e))

  -- The case MESSAGE_DATA.
  unfoldable pub handle_message_data : List ℕ → M (Unit {0})
  handle_message_data message =
      if not (env.has_handler client_message_handler)
      then done
      else if ltb (length message) 5
      then send_status_and_log_msg env hdl error (invalid_message_length (length message))
      else do
        s ← get
        elim (lookup hdl s.client_channels) [
          | none ↦ send_status_and_log_msg env hdl error (text "Client has no advertised channels")
          | some publications ↦ elim (lookup (channel_id_of message) publications) [
            | none ↦ send_status_and_log_msg env hdl error (not_advertised (channel_id_of message))
            | some advertisement ↦ publish_client_message advertisement message
          ]
        ]

  -- The `try` block around serviceRequestHandler; what is no std::exception passes through.
  unfoldable pub request_service : ServiceResponse → M (Unit {0})
  request_service request =
      try
        (if env.has_handler service_request_handler
          then call env (service_request_call request hdl)
          else throw (service_error request.service_id "No service handler"))
        (λ e.
          if is_std e
          then send_service_failure env hdl request.service_id request.call_id (what e)
          else throw e)

  -- What is done with the request that `read` gave, or with what it throws.
  unfoldable pub serve : Result Fault (ServiceResponse × List ℕ) → M (Unit {0})
  serve (err length_error) = throw resize_error
  serve (err fault) = update (logged out_of_bounds_read)
  serve (ok (request, rest)) = do
    s ← get
    elim (lookup request.service_id s.services) [
      | none ↦
          send_service_failure env hdl request.service_id request.call_id
            (service_not_advertised request.service_id)
      | some service ↦ request_service request
    ]

  -- The case SERVICE_CALL_REQUEST; `body` is the message behind the opcode.
  unfoldable pub handle_service_call_request : ℕ → List ℕ → M (Unit {0})
  handle_service_call_request size body =
      if ltb size 12
      then send_service_failure env hdl stale.0 stale.1 (invalid_request_length size)
      else serve (read body)

  -- The `switch` over the opcode.
  unfoldable pub run_binary : ℕ → List ℕ → M (Unit {0})
  run_binary op body =
      if op == 1
      then handle_message_data (op ∷ body)
      else if op == 2
      then handle_service_call_request (length (op ∷ body)) body
      else send_status_and_log_msg env hdl error (unrecognized_binary_opcode op)

  unfoldable pub handle_binary_message : List ℕ → M (Unit {0})
  handle_binary_message [] =
      send_status_and_log_msg env hdl error (text "Received an empty binary message")
  handle_binary_message (op ∷ body) =
      elim (missing env.capabilities (required_binary_capability op)) [
        | some capability ↦
            send_status_and_log_msg env hdl error (binary_capability_missing op capability)
        | none ↦ run_binary op body
      ]

-- The opcode of a WebSocket message; others than the two are ignored.
pub data Frame : Type 0 where
  text_frame binary_frame other_frame : List ℕ → Frame

module _ (J : JsonLib) (env : Env) (now : ℕ) (stale : ℕ × ℕ) where
  unfoldable pub handle_frame : ℕ → Frame → M (Unit {0})
  handle_frame hdl (text_frame message) = handle_text_message J env hdl message
  handle_frame hdl (binary_frame message) = handle_binary_message env hdl now stale message
  handle_frame hdl (other_frame message) = done

  -- The callback that handleMessage puts into the queue.
  unfoldable pub handle_message : ℕ → Frame → M (Unit {0})
  handle_message hdl frame =
      try (handle_frame hdl frame) (λ e. send_status_and_log_msg env hdl error (message_failure e))
