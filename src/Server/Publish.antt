-- ===== src/Server/Publish.antt =====
-- What the server sends on its owner's behalf: broadcastMessage, sendMessage, broadcastTime,
-- sendServiceResponse, sendServiceFailure and sendFetchAssetResponse.
pub mod Delivery
pub mod Broadcasting
use dora_foxglove.Prelude.{
  ℕ, ◌/◌, ◌+◌, ◌-◌, ◌%◌, ◌^◌, Bool, List, [], ◌∷◌, Option, none, some, ok, err, ltb, leb,
  if◌then◌else◌, length,
}
use dora_foxglove.Prelude.Maps.{Map, lookup, or_else}
use dora_foxglove.Server.Types.{
  Server, Env, warning, Notice, text, Message, binary, service_call_failure, ServiceResponse,
  ClientInfo,
}
use dora_foxglove.Server.Effects.{M, ◌>>=◌, ◌>>◌, return, done, get, update, for_each, send}
use dora_foxglove.Server.Status.{handles, send_status_and_log_msg, broadcast}
use dora_foxglove.Server.Wire.{
  data_message, time_message, service_response_message, FetchAssetResponse, fetch_asset_message,
}

-- FOXGLOVE_DEBOUNCE with 2500 milliseconds: `last_call` is a static, set to the time of the first
-- pass. The times are of the system clock, in nanoseconds.
abbrev pub debounced : ℕ → Option ℕ → Bool
debounced now none = Bool.false
debounced now (some last_call) = ltb 2500 ((now - last_call) / 1_000_000)

module _ (env : Env) (now : ℕ) where
  -- The part behind the test of the buffer.
  unfoldable pub send_to_subscriber : ℕ → ℕ → ℕ → List ℕ → M (Unit {0})
  send_to_subscriber hdl chan_id timestamp payload = do
    s ← get
    elim (lookup hdl s.clients) [
      | none ↦ done
      | some client ↦ elim (lookup chan_id client.subscriptions_by_channel) [
        | none ↦ done
        | some sub_id ↦ send env hdl (binary (data_message sub_id timestamp payload))
      ]
    ]

  unfoldable pub warn_buffer_limit : ℕ → M (Unit {0})
  warn_buffer_limit hdl = do
    s ← get
    if debounced now s.last_buffer_warning
        then (update (λ t. record t { last_buffer_warning = some now })
            >> send_status_and_log_msg env hdl warning (text "Send buffer limit reached"))
        else update
            (λ t. record t { last_buffer_warning = some (or_else t.last_buffer_warning now) })

  unfoldable pub send_message : ℕ → ℕ → ℕ → List ℕ → M (Unit {0})
  send_message hdl chan_id timestamp payload = do
    s ← get
    if env.reachable hdl s.log
        then (if leb env.send_buffer_limit
              ((env.buffered_amount hdl s.log + length payload) % 2 ^ 64)
            then warn_buffer_limit hdl
            else send_to_subscriber hdl chan_id timestamp payload)
        else done

  unfoldable pub broadcast_message : ℕ → ℕ → List ℕ → M (Unit {0})
  broadcast_message chan_id timestamp payload = do
    s ← get
    for_each (handles s.clients) (λ h. send_message h chan_id timestamp payload)

module _ (env : Env) where
  unfoldable pub broadcast_time : ℕ → M (Unit {0})
  broadcast_time timestamp = broadcast env (binary (time_message timestamp))

  unfoldable pub send_service_response : ℕ → ServiceResponse → M (Unit {0})
  send_service_response hdl r = send env hdl (binary (service_response_message r))

  unfoldable pub send_service_failure : ℕ → ℕ → ℕ → Notice → M (Unit {0})
  send_service_failure hdl service_id call_id message =
      send env hdl (service_call_failure service_id call_id message)

  unfoldable pub send_fetch_asset_response : ℕ → FetchAssetResponse → M (Unit {0})
  send_fetch_asset_response hdl r = send env hdl (binary (fetch_asset_message r))
