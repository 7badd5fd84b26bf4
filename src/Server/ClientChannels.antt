-- ===== src/Server/ClientChannels.antt =====
-- Channels that the clients advertise: handleAdvertise and handleUnadvertise. `isWhitelisted` is
-- that of regex_utils.hpp, with a pattern as its test of a text.
pub mod Agreement
use dora_foxglove.Prelude.{
  ℕ, Bool, false, List, [], ◌∷◌, none, some, String, ◌==◌, ◌&&◌, ◌||◌, not, if◌then◌else◌, is_some,
  ◌>>=◌ as result_bind,
}
use dora_foxglove.Prelude.Maps.{Map, lookup, emplace, erase, modify, or_else}
use dora_foxglove.Server.Types.{
  Server, Env, error, text, already_advertised, not_whitelisted, ClientAdvertisement,
  client_advertise_call, client_unadvertise_call,
}
use dora_foxglove.Server.Effects.{M, ◌>>=◌, ◌>>◌, done, lift, get, update, for_each, call}
use dora_foxglove.Server.Payload.{JsonLib}
use dora_foxglove.Server.Status.{change_client, send_status_and_log_msg}

unfoldable pub is_whitelisted : String → List (String → Bool) → Bool
is_whitelisted name [] = false
is_whitelisted name (pattern ∷ patterns) = pattern name || is_whitelisted name patterns

-- A set of numbers.
unfoldable pub member : ℕ → List ℕ → Bool
member k [] = false
member k (j ∷ js) = j == k || member k js

unfoldable pub include : ℕ → List ℕ → List ℕ
unfolding member
include k js = if member k js then js else k ∷ js

unfoldable pub exclude : ℕ → List ℕ → List ℕ
exclude k [] = []
exclude k (j ∷ js) = let rest = exclude k js in if j == k then rest else j ∷ rest

-- The channels that a client has advertised, none if it has no entry.
unfoldable pub publications : ℕ → Server → Map ClientAdvertisement
publications hdl s = or_else (lookup hdl s.client_channels) []

abbrev change_publications :
    ℕ → (Map ClientAdvertisement → Map ClientAdvertisement) → Server → Server
change_publications hdl f s = record s { client_channels = modify hdl f s.client_channels }

module _ (env : Env) (hdl : ℕ) where
  -- The part of a round of handleAdvertise that calls the handler and keeps the channel.
  unfoldable pub accept_channel : ClientAdvertisement → M (Unit {0})
  accept_channel a = do
    call env (client_advertise_call a hdl)
    change_client hdl
        (λ c. record c { advertised_channels = include a.channel_id c.advertised_channels })
    update (change_publications hdl (emplace a.channel_id a))

  -- A round of handleUnadvertise; `erase` of an id that is not in the set changes nothing.
  unfoldable pub unadvertise_one : ℕ → M (Unit {0})
  unadvertise_one channel_id = do
    s ← get
    elim (lookup channel_id (publications hdl s)) [
      | none ↦ done
      | some _ ↦ do
        call env (client_unadvertise_call channel_id hdl)
        change_client hdl
            (λ c. record c { advertised_channels = exclude channel_id c.advertised_channels })
        update (change_publications hdl (erase channel_id))
    ]

module _ (J : JsonLib) (env : Env) (hdl : ℕ) where
  open J use {Json, at, elements, get_u32, get_string}

  -- A round of the loop of handleAdvertise. The members are read where the code reads them.
  unfoldable pub advertise_one : Bool → Json → M (Unit {0})
  advertise_one is_first_publication chan = do
    channel_id ← lift (result_bind (at chan "id") get_u32)
    s ← get
    if not is_first_publication && is_some (lookup channel_id (publications hdl s))
        then send_status_and_log_msg env hdl error (already_advertised channel_id)
        else do
          topic ← lift (result_bind (at chan "topic") get_string)
          if not (is_whitelisted topic env.topic_whitelist)
              then send_status_and_log_msg env hdl error (not_whitelisted channel_id topic)
              else do
                encoding ← lift (result_bind (at chan "encoding") get_string)
                schema_name ← lift (result_bind (at chan "schemaName") get_string)
                accept_channel env hdl (record {
                  channel_id = channel_id;
                  topic = topic;
                  encoding = encoding;
                  schema_name = schema_name;
                  schema = [];
                })

  unfoldable pub handle_advertise : Json → M (Unit {0})
  handle_advertise payload = do
    s ← get
    update (λ t. record t { client_channels = emplace hdl [] t.client_channels })
    channels ← lift (at payload "channels")
    for_each (elements channels) (advertise_one (not (is_some (lookup hdl s.client_channels))))

  unfoldable pub handle_unadvertise : Json → M (Unit {0})
  handle_unadvertise payload = do
    s ← get
    elim (lookup hdl s.client_channels) [
      | none ↦ send_status_and_log_msg env hdl error (text "Client has no advertised channels")
      | some _ ↦ do
        channel_ids ← lift (at payload "channelIds")
        for_each (elements channel_ids)
            λ id. do channel_id ← lift (get_u32 id); unadvertise_one env hdl channel_id
    ]
