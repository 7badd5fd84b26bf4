-- ===== src/Server/Publish/Broadcasting.antt =====
-- A broadcast on a channel reaches just the clients that are subscribed to it.
use dora_foxglove.Prelude.{
  ℕ, ◌≡◌, refl, ◌∙◌, false, true, List, [], ◌∷◌, Option, none, some, ok, All, Option-cases, inl,
  inr,
}
use dora_foxglove.Prelude.Maps.{Map, lookup}
use dora_foxglove.Server.Types.{Server, Env, Event, ClientInfo, binary, sent}
use dora_foxglove.Server.Effects.{for_each}
use dora_foxglove.Server.Running.{get_bind}
use dora_foxglove.Server.Status.{handles}
use dora_foxglove.Server.Wire.{data_message}
use dora_foxglove.Server.Publish.{send_message, broadcast_message}
use dora_foxglove.Server.Publish.Delivery.{
  at_limit, send_message_subscribed, send_message_unsubscribed,
}

-- What a client gets, in front of the events before: a message under its own id of the
-- subscription, if it has one.
abbrev pub delivery : ℕ → ℕ → List ℕ → Option ℕ → List Event → List Event
delivery hdl timestamp payload none log = log
delivery hdl timestamp payload (some sub_id) log =
    sent hdl (binary (data_message sub_id timestamp payload)) ∷ log

-- What the clients get, one after the other.
unfoldable pub deliveries : ℕ → ℕ → List ℕ → Map ClientInfo → List Event → List Event
deliveries chan_id timestamp payload [] log = log
deliveries chan_id timestamp payload ((hdl, c) ∷ clients) log =
    deliveries chan_id timestamp payload clients
      (delivery hdl timestamp payload (lookup chan_id c.subscriptions_by_channel) log)

-- Each entry is the one that its key finds, as in a map whose keys differ.
abbrev pub IsProper : Map ClientInfo → Type 0
IsProper clients = All (λ e. lookup e.0 clients ≡ some e.1) clients

module _ (env : Env) (now chan_id timestamp : ℕ) (payload : List ℕ)
    (reached : (hdl : ℕ) (log : List Event) → env.reachable hdl log ≡ true)
    (below : (hdl : ℕ) (log : List Event) → at_limit env hdl payload log ≡ false) where
  send_message-delivery :
      (hdl : ℕ) (c : ClientInfo) (s : Server)
      → lookup hdl s.clients ≡ some c
      → send_message env now hdl chan_id timestamp payload s ≡ (
        ok tt,
        record s {
          log = delivery hdl timestamp payload (lookup chan_id c.subscriptions_by_channel) s.log;
        },
      )
  send_message-delivery hdl c s e =
      elim (Option-cases (lookup chan_id c.subscriptions_by_channel)) [
        | inl absent ↦ rw absent (
            send_message_unsubscribed env now hdl chan_id timestamp payload s c (reached _ _)
              (below _ _) e absent)
        | inr (sub_id, present) ↦ rw present (
            send_message_subscribed env now hdl chan_id timestamp payload s c sub_id (reached _ _)
              (below _ _) e present)
      ]

  for_each-deliveries :
      (clients : Map ClientInfo) (s : Server)
      → All (λ e. lookup e.0 s.clients ≡ some e.1) clients
      → for_each (handles clients) (λ h. send_message env now h chan_id timestamp payload) s
        ≡ (ok tt, record s { log = deliveries chan_id timestamp payload clients s.log })
  unfolding for_each handles deliveries
  for_each-deliveries [] s h = refl
  for_each-deliveries ((hdl, c) ∷ clients) s h = rw (send_message-delivery hdl c s h.0) (
      for_each-deliveries clients
        (record s {
          log = delivery hdl timestamp payload (lookup chan_id c.subscriptions_by_channel) s.log;
        })
        h.1)

  -- With clients that can all be reached and whose buffers stay below the limit, a broadcast on a
  -- channel sends to each client that is subscribed to the channel one message, under the client's
  -- own id of the subscription, and nothing to the others, and changes nothing else.
  pub broadcast_reaches :
      (s : Server)
      → IsProper s.clients
      → broadcast_message env now chan_id timestamp payload s
        ≡ (ok tt, record s { log = deliveries chan_id timestamp payload s.clients s.log })
  unfolding broadcast_message
  broadcast_reaches s proper = get_bind s _ ∙ for_each-deliveries s.clients s proper
