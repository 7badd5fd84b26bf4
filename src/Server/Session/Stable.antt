-- ===== src/Server/Session/Stable.antt =====
-- What a property of the members has to withstand to hold in every session: each change that a
-- method makes of the members.
use dora_foxglove.Prelude.{ℕ, ◌≡◌, true, List, [], Option, some, String, is_some}
use dora_foxglove.Prelude.Maps.{Map, lookup, emplace, erase, modify, map_values}
use dora_foxglove.Server.Types.{
  Server, Env, ClientInfo, ChannelWithoutId, ServiceWithoutId, ClientAdvertisement, MapOfSets,
}
use dora_foxglove.Server.Keeps.{Keeps, IgnoresLog}
use dora_foxglove.Server.Subscriptions.{
  next_id, erase_all, unsubscribed_from, subscribe_one, unsubscribe_one,
}
use dora_foxglove.Server.ClientChannels.{include, exclude}
use dora_foxglove.Server.Graph.{
  handle_subscribe_connection_graph, handle_unsubscribe_connection_graph,
}
use dora_foxglove.Server.Connections.{new_client, handle_connection_closed}

abbrev pub with_subscription : ℕ → ℕ → ClientInfo → ClientInfo
with_subscription channel_id sub_id c = record c {
  subscriptions_by_channel = emplace channel_id sub_id c.subscriptions_by_channel;
}

abbrev pub without_subscription : ℕ → ClientInfo → ClientInfo
without_subscription channel_id c = record c {
  subscriptions_by_channel = erase channel_id c.subscriptions_by_channel;
}

abbrev pub with_advertised : ℕ → ClientInfo → ClientInfo
with_advertised id c = record c { advertised_channels = include id c.advertised_channels }

abbrev pub without_advertised : ℕ → ClientInfo → ClientInfo
without_advertised id c = record c { advertised_channels = exclude id c.advertised_channels }

abbrev pub at_client : ℕ → (ClientInfo → ClientInfo) → Server → Server
at_client hdl f s = record s { clients = modify hdl f s.clients }

abbrev pub at_channels : ℕ → (Map ClientAdvertisement → Map ClientAdvertisement) → Server → Server
at_channels hdl f s = record s { client_channels = modify hdl f s.client_channels }

abbrev pub with_registered : ChannelWithoutId → Server → Server
with_registered c s = record s {
  next_channel_id = next_id s.next_channel_id;
  channels =
      emplace (next_id s.next_channel_id)
        (record { id = next_id s.next_channel_id; without_id = c }) s.channels;
}

abbrev pub without_channels : List ℕ → Server → Server
without_channels ks s = record s {
  channels = erase_all ks s.channels;
  clients = map_values (unsubscribed_from ks) s.clients;
}

-- A change of a client finds the client. The methods at the end change the members between calls
-- of handlers.
pub record IsStable (env : Env) (P : Server → Type 0) : Type 0 where
  pub logs : IgnoresLog P
  pub registered : (c : ChannelWithoutId) (s : Server) → P s → P (with_registered c s)
  pub dropped : (ks : List ℕ) (s : Server) → P s → P (without_channels ks s)
  pub opened_channels :
      (hdl : ℕ) (s : Server)
      → P s
      → P (record s { client_channels = emplace hdl [] s.client_channels })
  pub advertised :
      (hdl : ℕ) (a : ClientAdvertisement) (s : Server) (c : ClientInfo)
      → P s
      → lookup hdl s.clients ≡ some c
      → is_some (lookup hdl s.client_channels) ≡ true
      → P (
          at_channels hdl (emplace a.channel_id a) (at_client hdl (with_advertised a.channel_id) s))
  pub unadvertised :
      (hdl id : ℕ) (s : Server) (c : ClientInfo)
      → P s
      → lookup hdl s.clients ≡ some c
      → P (at_channels hdl (erase id) (at_client hdl (without_advertised id) s))
  pub parameters :
      (m : Map (List String)) (s : Server) → P s → P (record s { client_param_subscriptions = m })
  pub services :
      (n : ℕ) (m : Map ServiceWithoutId) (s : Server)
      → P s
      → P (record s { next_service_id = n; services = m })
  pub warned : (w : Option ℕ) (s : Server) → P s → P (record s { last_buffer_warning = w })
  pub published :
      (topics subscribed_topics services : MapOfSets) (s : Server)
      → P s
      → P (record s {
        graph = record {
          subscription_count = s.graph.subscription_count;
          published_topics = topics;
          subscribed_topics = subscribed_topics;
          advertised_services = services;
        };
      })
  pub opened :
      (hdl : ℕ) (s : Server) → P s → P (record s { clients = emplace hdl new_client s.clients })
  pub subscribes :
      (hdl : ℕ) (snapshot : Map ℕ) (sub_id channel_id : ℕ)
      → Keeps P (subscribe_one env hdl snapshot sub_id channel_id)
  pub unsubscribes :
      (hdl : ℕ) (snapshot : Map ℕ) (sub_id : ℕ) → Keeps P (unsubscribe_one env hdl snapshot sub_id)
  pub closes : (hdl : ℕ) → Keeps P (handle_connection_closed env hdl)
  pub joins : (hdl : ℕ) → Keeps P (handle_subscribe_connection_graph env hdl)
  pub leaves : (hdl : ℕ) → Keeps P (handle_unsubscribe_connection_graph env hdl)
