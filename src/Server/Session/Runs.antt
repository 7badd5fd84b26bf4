-- ===== src/Server/Session/Runs.antt =====
-- A session keeps what is stable: every call keeps it, also one that throws. A session without stop
-- keeps also what does not survive the removal of all clients.
use dora_foxglove.Prelude.{◌≡◌, refl, Bool, true, false, List, [], ◌∷◌, All}
use dora_foxglove.Server.Types.{Server, Env}
use dora_foxglove.Server.Payload.{JsonLib}
use dora_foxglove.Server.Status.{send_status, send_status_to, remove_statuses}
use dora_foxglove.Server.Effects.{update}
use dora_foxglove.Server.Keeps.{
  Keeps, Keeps->>=, Keeps-send, Keeps-broadcast, Keeps-update, Keeps-done,
}
use dora_foxglove.Server.Subscriptions.{ids}
use dora_foxglove.Server.Parameters.{publish_parameter_values}
use dora_foxglove.Server.Publish.{
  broadcast_time, send_service_response, send_service_failure, send_fetch_asset_response,
}
use dora_foxglove.Server.Session.{
  Action, opened, closed, received, channels_added, channels_removed, services_added,
  services_removed, message_broadcast, message_sent, time_broadcast, parameters_published,
  parameters_updated, graph_updated, service_answered, service_failed, asset_sent, status_sent,
  status_sent_to, statuses_removed, stopped, without_clients, step, run,
}
use dora_foxglove.Server.Session.Stable.{IsStable}
use dora_foxglove.Server.Session.Messages.{handle_message-Keeps}
use dora_foxglove.Server.Session.Owner.{
  add_channels-Keeps, add_services-Keeps, remove_channels-Keeps, handle_connection_opened-Keeps,
  update_parameter_values-Keeps, remove_services-Keeps, broadcast_message-Keeps, send_message-Keeps,
}
use dora_foxglove.Server.Session.Methods.{update_connection_graph-Keeps}

abbrev pub is_stop : Action → Bool
is_stop stopped = true
is_stop _ = false

-- No action is a stop.
abbrev pub NeverStops : List Action → Type 0
NeverStops = All (λ a. is_stop a ≡ false)

module _ {env : Env} {P : Server → Type 0} (S : IsStable env P) (J : JsonLib) where
  step-Keeps : (a : Action) → is_stop a ≡ false → Keeps P (step J env a)
  unfolding step broadcast_time publish_parameter_values send_service_response send_service_failure
      send_fetch_asset_response send_status send_status_to remove_statuses
  step-Keeps (opened hdl) going = handle_connection_opened-Keeps S hdl
  step-Keeps (closed hdl) going = S.closes hdl
  step-Keeps (received now stale hdl frame) going = handle_message-Keeps S J now stale hdl frame
  step-Keeps (channels_added channels) going =
      Keeps->>= (add_channels-Keeps S channels) λ ids. Keeps-done
  step-Keeps (channels_removed ids) going = remove_channels-Keeps S ids
  step-Keeps (services_added services) going =
      Keeps->>= (add_services-Keeps S services) λ ids. Keeps-done
  step-Keeps (services_removed ids) going = remove_services-Keeps S ids
  step-Keeps (message_broadcast now chan_id timestamp payload) going =
      broadcast_message-Keeps S now chan_id timestamp payload
  step-Keeps (message_sent now hdl chan_id timestamp payload) going =
      send_message-Keeps S now hdl chan_id timestamp payload
  step-Keeps (time_broadcast timestamp) going = Keeps-broadcast S.logs env _
  step-Keeps (parameters_published hdl parameters id) going = Keeps-send S.logs env hdl _
  step-Keeps (parameters_updated parameters) going = update_parameter_values-Keeps S parameters
  step-Keeps (graph_updated published subscribed services) going =
      update_connection_graph-Keeps S published subscribed services
  step-Keeps (service_answered hdl r) going = Keeps-send S.logs env hdl _
  step-Keeps (service_failed hdl service_id call_id message) going = Keeps-send S.logs env hdl _
  step-Keeps (asset_sent hdl r) going = Keeps-send S.logs env hdl _
  step-Keeps (status_sent level message id) going = Keeps-broadcast S.logs env _
  step-Keeps (status_sent_to hdl level message id) going = Keeps-send S.logs env hdl _
  step-Keeps (statuses_removed ids) going = Keeps-broadcast S.logs env _
  step-Keeps stopped going = cc

  pub run-serving :
      (actions : List Action) (s : Server) → NeverStops actions → P s → P (run J env actions s)
  unfolding run
  run-serving [] s going p = p
  run-serving (a ∷ rest) s going p =
      run-serving rest (step J env a s).1 going.1 ((step-Keeps a going.0).kept s p)

  module _ (emptied : (s : Server) → P s → P (without_clients s)) where
    any_step-Keeps : (a : Action) → Keeps P (step J env a)
    unfolding step update
    any_step-Keeps stopped = Keeps-update without_clients emptied
    any_step-Keeps (opened hdl) = step-Keeps (opened hdl) refl
    any_step-Keeps (closed hdl) = step-Keeps (closed hdl) refl
    any_step-Keeps (received now stale hdl frame) = step-Keeps (received now stale hdl frame) refl
    any_step-Keeps (channels_added channels) = step-Keeps (channels_added channels) refl
    any_step-Keeps (channels_removed ids) = step-Keeps (channels_removed ids) refl
    any_step-Keeps (services_added services) = step-Keeps (services_added services) refl
    any_step-Keeps (services_removed ids) = step-Keeps (services_removed ids) refl
    any_step-Keeps (message_broadcast now chan_id timestamp payload) =
        step-Keeps (message_broadcast now chan_id timestamp payload) refl
    any_step-Keeps (message_sent now hdl chan_id timestamp payload) =
        step-Keeps (message_sent now hdl chan_id timestamp payload) refl
    any_step-Keeps (time_broadcast timestamp) = step-Keeps (time_broadcast timestamp) refl
    any_step-Keeps (parameters_published hdl parameters id) =
        step-Keeps (parameters_published hdl parameters id) refl
    any_step-Keeps (parameters_updated parameters) = step-Keeps (parameters_updated parameters) refl
    any_step-Keeps (graph_updated published subscribed services) =
        step-Keeps (graph_updated published subscribed services) refl
    any_step-Keeps (service_answered hdl r) = step-Keeps (service_answered hdl r) refl
    any_step-Keeps (service_failed hdl service_id call_id message) =
        step-Keeps (service_failed hdl service_id call_id message) refl
    any_step-Keeps (asset_sent hdl r) = step-Keeps (asset_sent hdl r) refl
    any_step-Keeps (status_sent level message id) = step-Keeps (status_sent level message id) refl
    any_step-Keeps (status_sent_to hdl level message id) =
        step-Keeps (status_sent_to hdl level message id) refl
    any_step-Keeps (statuses_removed ids) = step-Keeps (statuses_removed ids) refl

    pub run-stable : (actions : List Action) (s : Server) → P s → P (run J env actions s)
    unfolding run
    run-stable [] s p = p
    run-stable (a ∷ rest) s p = run-stable rest (step J env a s).1 ((any_step-Keeps a).kept s p)
