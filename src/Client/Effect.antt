-- ===== src/Client/Effect.antt =====
-- What a request of the client means at the server: the abstract view of the JSON operations, with
-- no JSON in it.
use dora_foxglove.Prelude.{ℕ, Bool, [], none, some, ◌&&◌, not, if◌then◌else◌, is_some, map}
use dora_foxglove.Prelude.Maps.{lookup, emplace}
use dora_foxglove.Prelude.Texts.{to_set}
use dora_foxglove.Server.Types.{
  Env, error, text, already_advertised, not_whitelisted, ClientAdvertisement,
  parameter_request_call, parameter_change_call, fetch_asset_call,
}
use dora_foxglove.Server.Effects.{M, ◌>>=◌, ◌>>◌, get, update, for_each, call}
use dora_foxglove.Server.Status.{client_at, send_status_and_log_msg}
use dora_foxglove.Server.Subscriptions.{subscribe_one, unsubscribe_one}
use dora_foxglove.Server.ClientChannels.{
  is_whitelisted, publications, accept_channel, unadvertise_one,
}
use dora_foxglove.Server.Parameters.{subscribe_params, unsubscribe_params}
use dora_foxglove.Serialization.Lists.{received}
use dora_foxglove.Client.Requests.{
  Request, subscribe, unsubscribe, advertise, unadvertise, get_parameters, set_parameters,
  subscribe_parameter_updates, unsubscribe_parameter_updates, fetch_asset,
}

-- The client does not send the schema of a channel.
abbrev pub without_schema : ClientAdvertisement → ClientAdvertisement
without_schema a = record a { schema = [] }

module _ (env : Env) (hdl : ℕ) where
  -- A client's channel is kept, unless the client has advertised its id before or its topic is not
  -- allowed.
  unfoldable pub advertise_channel : Bool → ClientAdvertisement → M (Unit {0})
  advertise_channel is_first a = do
    s ← get
    if not is_first && is_some (lookup a.channel_id (publications hdl s))
        then send_status_and_log_msg env hdl error (already_advertised a.channel_id)
        else if not (is_whitelisted a.topic env.topic_whitelist)
        then send_status_and_log_msg env hdl error (not_whitelisted a.channel_id a.topic)
        else accept_channel env hdl (without_schema a)

  unfoldable pub effect : Request → M (Unit {0})
  effect (subscribe subscriptions) = do
    client ← client_at hdl
    for_each subscriptions λ subscription.
        subscribe_one env hdl client.subscriptions_by_channel subscription.0 subscription.1
  effect (unsubscribe ids) = do
    client ← client_at hdl
    for_each ids (unsubscribe_one env hdl client.subscriptions_by_channel)
  effect (advertise channels) = do
    s ← get
    update (λ t. record t { client_channels = emplace hdl [] t.client_channels })
    for_each channels (advertise_channel (not (is_some (lookup hdl s.client_channels))))
  effect (unadvertise ids) = do
    s ← get
    elim (lookup hdl s.client_channels) [
      | none ↦ send_status_and_log_msg env hdl error (text "Client has no advertised channels")
      | some _ ↦ for_each ids (unadvertise_one env hdl)
    ]
  effect (get_parameters names id) = call env (parameter_request_call names id hdl)
  effect (set_parameters parameters id) =
      call env (parameter_change_call (map received parameters) id hdl)
  effect (subscribe_parameter_updates names) = subscribe_params env hdl (to_set names)
  effect (unsubscribe_parameter_updates names) = unsubscribe_params env hdl (to_set names)
  effect (fetch_asset uri id) = call env (fetch_asset_call uri id hdl)
