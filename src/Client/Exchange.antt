-- ===== src/Client/Exchange.antt =====
-- The client and the server together: a message that a method of the client sends does at the
-- server what the request means.
use dora_foxglove.Prelude.{ℕ, ◌≡◌, refl, ◌∙◌, arith, true, none, some, ok, All}
use dora_foxglove.Server.Types.{Server, Env, error}
use dora_foxglove.Server.Effects.{try, return}
use dora_foxglove.Server.Running.{lift_bind, on_none, on_some, bind_ok}
use dora_foxglove.Server.Payload.{JsonLib, JsonWriter}
use dora_foxglove.Server.Status.{send_status_and_log_msg}
use dora_foxglove.Server.Dispatch.{
  run_operation, has_handler, dispatch, handle_operation, handle_text_message, text_frame, Frame,
}
use dora_foxglove.Server.Operations.{
  Operation, operation_of, string_hash, missing, required_capability, handler_for, text_failure,
}
use dora_foxglove.Serialization.Laws.{Reads, IsNested}
use dora_foxglove.Serialization.Lists.{IsReadable}
use dora_foxglove.Client.Requests.{
  Request, subscribe, unsubscribe, advertise, unadvertise, get_parameters, set_parameters,
  subscribe_parameter_updates, unsubscribe_parameter_updates, fetch_asset, op, payload,
  payload_members,
}
use dora_foxglove.Client.{Client, Endpoint, sent, noted, send, request}
use dora_foxglove.Client.Effect.{effect}
use dora_foxglove.Client.Handled.{
  IsId, string_at, subscribe_handled, unsubscribe_handled, advertise_handled, unadvertise_handled,
}
use dora_foxglove.Client.HandledParameters.{
  get_parameters_handled, set_parameters_handled, subscribe_parameter_updates_handled,
  unsubscribe_parameter_updates_handled, fetch_asset_handled,
}

-- The operation that the server takes a request for.
abbrev pub operation : Request → Operation
operation (subscribe subscriptions) = Operation.subscribe
operation (unsubscribe ids) = Operation.unsubscribe
operation (advertise channels) = Operation.advertise
operation (unadvertise ids) = Operation.unadvertise
operation (get_parameters names id) = Operation.get_parameters
operation (set_parameters parameters id) = Operation.set_parameters
operation (subscribe_parameter_updates names) = Operation.subscribe_parameter_updates
operation (unsubscribe_parameter_updates names) = Operation.unsubscribe_parameter_updates
operation (fetch_asset uri id) = Operation.fetch_asset

-- Ids are of type uint32_t, the bytes of a parameter below 256 and the fields of a struct in order.
abbrev pub IsValid : Request → Type 0
IsValid (subscribe subscriptions) = All (λ x. IsId x.0 × IsId x.1) subscriptions
IsValid (unsubscribe ids) = All IsId ids
IsValid (advertise channels) = All (λ a. IsId a.channel_id) channels
IsValid (unadvertise ids) = All IsId ids
IsValid (get_parameters names id) = Unit {0}
IsValid (set_parameters parameters id) = All IsReadable parameters
IsValid (subscribe_parameter_updates names) = Unit {0}
IsValid (unsubscribe_parameter_updates names) = Unit {0}
IsValid (fetch_asset uri id) = IsId id

operation_of-op : (r : Request) → operation_of (string_hash (op r)) ≡ some (operation r)
unfolding operation_of string_hash
operation_of-op (subscribe subscriptions) = refl
operation_of-op (unsubscribe ids) = refl
operation_of-op (advertise channels) = refl
operation_of-op (unadvertise ids) = refl
operation_of-op (get_parameters names id) = refl
operation_of-op (set_parameters parameters id) = refl
operation_of-op (subscribe_parameter_updates names) = refl
operation_of-op (unsubscribe_parameter_updates names) = refl
operation_of-op (fetch_asset uri id) = refl

-- A message of a connected client that the endpoint takes.
send_ok :
    (E : Endpoint) (frame : Frame) (c : Client) (k : ℕ)
    → c.connection ≡ some k
    → E.send_error k frame c.log ≡ none
    → send E frame c ≡ (ok tt, noted (sent k frame) c)
unfolding send
send_ok E frame c k held sends = ground arith

module _ (J : JsonLib) (W : JsonWriter J.Json) (L : Reads J W) (N : IsNested J) (env : Env)
    (hdl : ℕ) where
  run_operation-payload :
      (r : Request) (s : Server)
      → IsValid r
      → run_operation J env (operation r) (payload W r) hdl s ≡ effect env hdl r s
  unfolding run_operation
  run_operation-payload (subscribe subscriptions) s h =
      subscribe_handled J W L env hdl subscriptions s h
  run_operation-payload (unsubscribe ids) s h = unsubscribe_handled J W L env hdl ids s h
  run_operation-payload (advertise channels) s h = advertise_handled J W L env hdl channels s h
  run_operation-payload (unadvertise ids) s h = unadvertise_handled J W L env hdl ids s h
  run_operation-payload (get_parameters names id) s h =
      get_parameters_handled J W L env hdl names id s
  run_operation-payload (set_parameters parameters id) s h =
      set_parameters_handled J W L env hdl N parameters id s h
  run_operation-payload (subscribe_parameter_updates names) s h =
      subscribe_parameter_updates_handled J W L env hdl names s
  run_operation-payload (unsubscribe_parameter_updates names) s h =
      unsubscribe_parameter_updates_handled J W L env hdl names s
  run_operation-payload (fetch_asset uri id) s h = fetch_asset_handled J W L env hdl uri id s h

  dispatch-payload :
      (r : Request) (s : Server)
      → IsValid r
      → dispatch J env (op r) (payload W r) hdl s ≡ effect env hdl r s
  unfolding dispatch
  dispatch-payload r s valid =
      on_some s _ _ (operation_of (string_hash (op r))) (operation r) (operation_of-op r)
      ∙ run_operation-payload r s valid

  handle_operation-payload :
      (r : Request) (s : Server)
      → IsValid r
      → missing env.capabilities (required_capability (op r)) ≡ none
      → env.has_handler (handler_for (operation r)) ≡ true
      → handle_operation J env (op r) (payload W r) hdl s
        ≡ try
            (effect env hdl r)
            (λ e. send_status_and_log_msg env hdl error (text_failure (op r) e))
            s
  unfolding handle_operation has_handler return try
  handle_operation-payload r s valid capable set =
      on_none s _ _ (missing env.capabilities (required_capability (op r))) capable
      ∙ (bind_ok s _ _ true s (
            on_some s _ _ (operation_of (string_hash (op r))) (operation r) (operation_of-op r)
            ∙ rw set refl)
          ∙ rw (dispatch-payload r s valid) refl)

  -- The text of a request, taken by handleTextMessage.
  request_understood :
      (r : Request) (s : Server)
      → IsValid r
      → J.parse (W.dump (payload W r)) ≡ ok (payload W r)
      → missing env.capabilities (required_capability (op r)) ≡ none
      → env.has_handler (handler_for (operation r)) ≡ true
      → handle_text_message J env hdl (W.dump (payload W r)) s
        ≡ try
            (effect env hdl r)
            (λ e. send_status_and_log_msg env hdl error (text_failure (op r) e))
            s
  unfolding handle_text_message payload
  request_understood r s valid reread capable set =
      rw (reread, lift_bind, string_at J W L (payload_members W r) "op" (op r) refl, lift_bind)
        (handle_operation-payload r s valid capable set)

  -- A request of a connected client goes out as one text message, and that message, taken by
  -- handleTextMessage of the server, does what the request means, where a throw on the way becomes
  -- an error status that names the operation. The endpoint takes the message, its text is read as
  -- the JSON that was written, the server has the capability that the operation needs and its
  -- handler, the ids are of type uint32_t, the bytes of a parameter's byte array are below 256 and
  -- the fields of each struct are listed in the order of their names.
  pub request_carried :
      (E : Endpoint) (c : Client) (k : ℕ) (r : Request) (s : Server)
      → IsValid r
      → J.parse (W.dump (payload W r)) ≡ ok (payload W r)
      → missing env.capabilities (required_capability (op r)) ≡ none
      → env.has_handler (handler_for (operation r)) ≡ true
      → c.connection ≡ some k
      → E.send_error k (text_frame (W.dump (payload W r))) c.log ≡ none
      → (request E W r c ≡ (ok tt, noted (sent k (text_frame (W.dump (payload W r)))) c))
        × (handle_text_message J env hdl (W.dump (payload W r)) s
            ≡ try
                (effect env hdl r)
                (λ e. send_status_and_log_msg env hdl error (text_failure (op r) e))
                s)
  unfolding request
  request_carried E c k r s valid reread capable set held sends =
      (send_ok E _ c k held sends, request_understood r s valid reread capable set)
