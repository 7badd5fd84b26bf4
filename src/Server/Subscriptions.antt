-- ===== src/Server/Subscriptions.antt =====
-- Channels of the server and the clients' subscriptions to them: addChannels, removeChannels,
-- handleSubscribe and handleUnsubscribe.
pub mod Invariant
pub mod Fresh
mod Tests
use dora_foxglove.Prelude.{
  ℕ, ◌+◌, ◌%◌, ◌^◌, Bool, true, false, List, [], ◌∷◌, Option, none, some, String, Result, ok, err,
  ◌==◌, if◌then◌else◌, is_some, ◌>>=◌ as result_bind,
}
use dora_foxglove.Prelude.Maps.{Map, lookup, emplace, erase, modify, map_values}
use dora_foxglove.Server.Types.{
  Server, Env, Exn, StatusLevel, warning, error, Notice, subscription_id_used,
  channel_not_available, subscription_id_unknown, Message, advertise, unadvertise, ChannelWithoutId,
  Channel, ClientInfo, subscribe_call, unsubscribe_call,
}
use dora_foxglove.Server.Effects.{M, ◌>>=◌, ◌>>◌, return, done, lift, get, update, for_each, call}
use dora_foxglove.Server.Payload.{JsonLib}
use dora_foxglove.Server.Status.{client_at, change_client, send_status_and_log_msg, broadcast}

-- `++_nextChannelId`, a uint32_t.
abbrev pub next_id : ℕ → ℕ
next_id n = (n + 1) % 2 ^ 32

-- The loop of addChannels over `_channels`: the new channels, in order.
unfoldable pub register : List ChannelWithoutId → Server → List Channel × Server
register [] s = ([], s)
register (c ∷ cs) s =
    let new_id = next_id s.next_channel_id in
    let channel : Channel = record { id = new_id; without_id = c } in
    let (rest, s') =
      register cs
        (record s { next_channel_id = new_id; channels = emplace new_id channel s.channels }) in
    (channel ∷ rest, s')

abbrev pub ids : List Channel → List ℕ
ids [] = []
ids (c ∷ cs) = c.id ∷ ids cs

unfoldable pub add_channels : Env → List ChannelWithoutId → M (List ℕ)
add_channels env [] = return []
add_channels env (c ∷ cs) = λ s.
    let (added, s') = register (c ∷ cs) s in
    (broadcast env (advertise added) >> return (ids added)) s'

abbrev pub erase_all : {V : Type 0} → List ℕ → Map V → Map V
erase_all [] m = m
erase_all (k ∷ ks) m = erase_all ks (erase k m)

abbrev pub unsubscribed_from : List ℕ → ClientInfo → ClientInfo
unsubscribed_from ks c = record c {
  subscriptions_by_channel = erase_all ks c.subscriptions_by_channel;
}

-- Each client loses its subscriptions to the channels and gets the message.
unfoldable pub remove_channels : Env → List ℕ → M (Unit {0})
remove_channels env [] = done
remove_channels env (k ∷ ks) = do
  update (λ s. record s {
    channels = erase_all (k ∷ ks) s.channels;
    clients = map_values (unsubscribed_from (k ∷ ks)) s.clients;
  })
  broadcast env (unadvertise (k ∷ ks))

-- findSubscriptionBySubId: the channel of the first subscription with the id.
unfoldable pub find_by_sub_id : ℕ → Map ℕ → Option ℕ
find_by_sub_id sub_id [] = none
find_by_sub_id sub_id ((channel, id) ∷ m) =
    if id == sub_id then some channel else find_by_sub_id sub_id m

module _ (env : Env) (hdl : ℕ) where
  -- The rest of a round of handleSubscribe, behind `_channels.find(channelId)`.
  unfoldable pub subscribe_found : ℕ → ℕ → Option Channel → M (Unit {0})
  subscribe_found sub_id channel_id none =
      send_status_and_log_msg env hdl warning (channel_not_available channel_id)
  subscribe_found sub_id channel_id (some _) = do
    call env (subscribe_call channel_id hdl)
    change_client hdl (λ c. record c {
      subscriptions_by_channel = emplace channel_id sub_id c.subscriptions_by_channel;
    })

module _ (env : Env) (hdl : ℕ) (snapshot : Map ℕ) where
  -- One round of the loop of handleSubscribe; `snapshot` is the copy taken before the loop.
  unfoldable pub subscribe_one : ℕ → ℕ → M (Unit {0})
  subscribe_one sub_id channel_id = elim (find_by_sub_id sub_id snapshot) [
    | some _ ↦ send_status_and_log_msg env hdl error (subscription_id_used sub_id)
    | none ↦ do s ← get; subscribe_found env hdl sub_id channel_id (lookup channel_id s.channels)
  ]

  -- One round of the loop of handleUnsubscribe.
  unfoldable pub unsubscribe_one : ℕ → M (Unit {0})
  unsubscribe_one sub_id = elim (find_by_sub_id sub_id snapshot) [
    | none ↦ send_status_and_log_msg env hdl warning (subscription_id_unknown sub_id)
    | some channel_id ↦ do
      call env (unsubscribe_call channel_id hdl)
      change_client hdl
          (λ c. record c { subscriptions_by_channel = erase channel_id c.subscriptions_by_channel })
  ]

module _ (J : JsonLib) (env : Env) where
  open J use {Json, at, elements, get_u32}

  unfoldable pub handle_subscribe : Json → ℕ → M (Unit {0})
  handle_subscribe payload hdl = do
    client ← client_at hdl
    subscriptions ← lift (at payload "subscriptions")
    for_each (elements subscriptions) λ sub. do
      sub_id ← lift (result_bind (at sub "id") get_u32)
      channel_id ← lift (result_bind (at sub "channelId") get_u32)
      subscribe_one env hdl client.subscriptions_by_channel sub_id channel_id

  unfoldable pub handle_unsubscribe : Json → ℕ → M (Unit {0})
  handle_unsubscribe payload hdl = do
    client ← client_at hdl
    subscription_ids ← lift (at payload "subscriptionIds")
    for_each (elements subscription_ids) λ id. do
      sub_id ← lift (get_u32 id)
      unsubscribe_one env hdl client.subscriptions_by_channel sub_id
