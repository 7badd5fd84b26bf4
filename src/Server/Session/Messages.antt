-- ===== src/Server/Session/Messages.antt =====
-- The messages of the clients keep what is stable.
use dora_foxglove.Prelude.{refl, ℕ, List, [], ◌∷◌, String, Result, ok, err, not, ◌==◌, ltb, length}
use dora_foxglove.Prelude.Maps.{lookup}
use dora_foxglove.Bytes.{Fault, length_error, out_of_bounds, bad_bool}
use dora_foxglove.Server.Types.{
  Server, Env, ServiceResponse, out_of_bounds_read, Notice, Parameter, client_message_handler,
  service_request_handler,
}
use dora_foxglove.Server.Payload.{JsonLib, Failure, thrown, undefined, out_of_fuel}
use dora_foxglove.Server.Keeps.{
  Keeps, Keeps->>=, Keeps-call, Keeps-send, Keeps-status, Keeps-if, Keeps-try, Keeps-option,
  Keeps-get, Keeps-update, Keeps-lift, Keeps-done, Keeps-return, Keeps-throw,
}
use dora_foxglove.Server.Parameters.{
  handle_get_parameters, change_parameters, handle_set_parameters,
  handle_subscribe_parameter_updates, handle_unsubscribe_parameter_updates,
}
use dora_foxglove.Server.Publish.{send_service_failure}
use dora_foxglove.Server.Dispatch.{
  handle_fetch_asset, run_operation, has_handler, dispatch, handle_operation, handle_text_message,
  publish_client_message, handle_message_data, request_service, handle_service_call_request,
  handle_binary_message, serve, run_binary, is_std, handle_frame, handle_message, Frame, text_frame,
  binary_frame, other_frame,
}
use dora_foxglove.Server.Operations.{
  resize_error, Operation, operation_of, string_hash, subscribe, unsubscribe, advertise,
  unadvertise, get_parameters, set_parameters, subscribe_parameter_updates,
  unsubscribe_parameter_updates, subscribe_connection_graph, unsubscribe_connection_graph,
  fetch_asset,
}
use dora_foxglove.Server.Session.Stable.{IsStable}
use dora_foxglove.Server.Session.Methods.{
  handle_subscribe-Keeps, handle_unsubscribe-Keeps, handle_advertise-Keeps,
  handle_unadvertise-Keeps, subscribe_params-Keeps, unsubscribe_params-Keeps,
}

module _ {env : Env} {P : Server → Type 0} (S : IsStable env P) (J : JsonLib) (hdl : ℕ) where
  open J use {Json, at, get_string}

  handle_get_parameters-Keeps : (payload : Json) → Keeps P (handle_get_parameters J env payload hdl)
  unfolding handle_get_parameters
  handle_get_parameters-Keeps payload =
      Keeps->>= (Keeps-lift _) λ names. Keeps->>= (Keeps-lift _) λ id. Keeps-call S.logs env _ refl

  change_parameters-Keeps :
      (payload : Json) (read : Result Failure (List Parameter))
      → Keeps P (change_parameters J env payload hdl read)
  unfolding change_parameters
  change_parameters-Keeps payload (ok parameters) =
      Keeps->>= (Keeps-lift _) λ id. Keeps-call S.logs env _ refl
  change_parameters-Keeps payload (err (thrown e)) = Keeps-throw e
  change_parameters-Keeps payload (err undefined) = Keeps-update _ (S.logs out_of_bounds_read refl)
  change_parameters-Keeps payload (err out_of_fuel) =
      Keeps-update _ (S.logs out_of_bounds_read refl)

  handle_set_parameters-Keeps : (payload : Json) → Keeps P (handle_set_parameters J env payload hdl)
  unfolding handle_set_parameters
  handle_set_parameters-Keeps payload =
      Keeps->>= (Keeps-lift _) λ parameters. change_parameters-Keeps payload _

  run_operation-Keeps :
      (o : Operation) (payload : Json) → Keeps P (run_operation J env o payload hdl)
  unfolding run_operation handle_subscribe_parameter_updates handle_unsubscribe_parameter_updates
      handle_fetch_asset
  run_operation-Keeps subscribe payload = handle_subscribe-Keeps S J hdl payload
  run_operation-Keeps unsubscribe payload = handle_unsubscribe-Keeps S J hdl payload
  run_operation-Keeps advertise payload = handle_advertise-Keeps S J hdl payload
  run_operation-Keeps unadvertise payload = handle_unadvertise-Keeps S J hdl payload
  run_operation-Keeps get_parameters payload = handle_get_parameters-Keeps payload
  run_operation-Keeps set_parameters payload = handle_set_parameters-Keeps payload
  run_operation-Keeps subscribe_parameter_updates payload =
      Keeps->>= (Keeps-lift _) λ names. subscribe_params-Keeps S hdl _
  run_operation-Keeps unsubscribe_parameter_updates payload =
      Keeps->>= (Keeps-lift _) λ names. unsubscribe_params-Keeps S hdl _
  run_operation-Keeps subscribe_connection_graph payload = S.joins hdl
  run_operation-Keeps unsubscribe_connection_graph payload = S.leaves hdl
  run_operation-Keeps fetch_asset payload =
      Keeps->>= (Keeps-lift _) λ uri. Keeps->>= (Keeps-lift _) λ id. Keeps-call S.logs env _ refl

  pub handle_operation-Keeps :
      (op : String) (payload : Json) → Keeps P (handle_operation J env op payload hdl)
  unfolding handle_operation dispatch has_handler
  handle_operation-Keeps op payload =
      Keeps-option _
        (Keeps->>=
          (Keeps-option (operation_of (string_hash op)) (Keeps-throw _) λ o. Keeps-return _)
          λ handled.
            Keeps-if handled
              (Keeps-try
                (Keeps-option (operation_of (string_hash op)) (Keeps-status S.logs env hdl _ _)
                  λ o. run_operation-Keeps o payload)
                λ e. Keeps-status S.logs env hdl _ _)
              (Keeps-status S.logs env hdl _ _))
        λ capability. Keeps-status S.logs env hdl _ _

module _ {env : Env} {P : Server → Type 0} (S : IsStable env P) (hdl now : ℕ) (stale : ℕ × ℕ) where
  failure-Keeps :
      (h service_id call_id : ℕ) (message : Notice)
      → Keeps P (send_service_failure env h service_id call_id message)
  unfolding send_service_failure
  failure-Keeps h service_id call_id message = Keeps-send S.logs env h _

  handle_message_data-Keeps :
      (message : List ℕ) → Keeps P (handle_message_data env hdl now stale message)
  unfolding handle_message_data publish_client_message
  handle_message_data-Keeps message =
      Keeps-if (not (env.has_handler client_message_handler)) Keeps-done (
        Keeps-if (ltb (length message) 5) (Keeps-status S.logs env hdl _ _) (
          Keeps->>= Keeps-get λ s.
            Keeps-option (lookup hdl s.client_channels) (Keeps-status S.logs env hdl _ _) λ p.
              Keeps-option (lookup _ p) (Keeps-status S.logs env hdl _ _)
                λ a. Keeps-try (Keeps-call S.logs env _ refl) λ e. Keeps-status S.logs env hdl _ _))

  request_service-Keeps :
      (request : ServiceResponse) → Keeps P (request_service env hdl now stale request)
  unfolding request_service
  request_service-Keeps request =
      Keeps-try
        (Keeps-if (env.has_handler service_request_handler) (Keeps-call S.logs env _ refl)
          (Keeps-throw _))
        λ e. Keeps-if (is_std e) (failure-Keeps hdl _ _ _) (Keeps-throw e)

  serve-Keeps : (r : Result Fault (ServiceResponse × List ℕ)) → Keeps P (serve env hdl now stale r)
  unfolding serve
  serve-Keeps (err length_error) = Keeps-throw resize_error
  serve-Keeps (err out_of_bounds) = Keeps-update _ (S.logs out_of_bounds_read refl)
  serve-Keeps (err bad_bool) = Keeps-update _ (S.logs out_of_bounds_read refl)
  serve-Keeps (ok (request, rest)) = Keeps->>= Keeps-get λ s.
      Keeps-option (lookup request.service_id s.services) (failure-Keeps hdl _ _ _)
        λ service. request_service-Keeps request

  handle_binary_message-Keeps :
      (message : List ℕ) → Keeps P (handle_binary_message env hdl now stale message)
  unfolding handle_binary_message run_binary handle_service_call_request
  handle_binary_message-Keeps [] = Keeps-status S.logs env hdl _ _
  handle_binary_message-Keeps (op ∷ body) =
      Keeps-option _
        (Keeps-if (op == 1) (handle_message_data-Keeps _) (
          Keeps-if (op == 2) (Keeps-if (ltb _ 12) (failure-Keeps hdl _ _ _) (serve-Keeps _))
            (Keeps-status S.logs env hdl _ _)))
        λ capability. Keeps-status S.logs env hdl _ _

module _ {env : Env} {P : Server → Type 0} (S : IsStable env P) (J : JsonLib) where
  pub handle_message-Keeps :
      (now : ℕ) (stale : ℕ × ℕ) (hdl : ℕ) (frame : Frame)
      → Keeps P (handle_message J env now stale hdl frame)
  unfolding handle_message handle_frame handle_text_message
  handle_message-Keeps now stale hdl frame =
      Keeps-try (framed frame) λ e. Keeps-status S.logs env hdl _ _
    where
      framed : (frame : Frame) → Keeps P (handle_frame J env now stale hdl frame)
      framed (text_frame message) =
          Keeps->>= (Keeps-lift _)
            λ payload. Keeps->>= (Keeps-lift _) λ op. handle_operation-Keeps S J hdl op payload
      framed (binary_frame message) = handle_binary_message-Keeps S hdl now stale message
      framed (other_frame message) = Keeps-done
