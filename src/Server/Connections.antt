-- ===== src/Server/Connections.antt =====
-- Clients that come and go: validateConnection, handleConnectionOpened and handleConnectionClosed.
pub mod Closing
pub mod Late
mod Tests
use dora_foxglove.Prelude.{
  ℕ, Bool, true, false, List, [], ◌∷◌, Option, none, some, String, ok, err, ◌&&◌, if◌then◌else◌,
}
use dora_foxglove.Prelude.Int.{is_nat}
use dora_foxglove.Prelude.Maps.{Map, lookup, emplace, erase}
use dora_foxglove.Prelude.Texts.{contains}
use dora_foxglove.Server.Types.{
  Server, Env, Message, server_info, advertise, advertise_services, Channel, ClientInfo, Call,
  unsubscribe_call, client_unadvertise_call, connection_graph_call, connection_graph_handler,
}
use dora_foxglove.Server.Effects.{
  M, ◌>>=◌, ◌>>◌, return, done, get, update, try, for_each, call, send, handler_of,
}
use dora_foxglove.Server.Parameters.{subscribed_names, unsubscribe_params_without_subscriptions}
use dora_foxglove.Server.Graph.{count_down}

-- A connection is accepted if the client asks for the one supported subprotocol.
pub validate_connection : List String → Bool
unfolding contains
validate_connection subprotocols = contains subprotocols "foxglove.websocket.v1"

abbrev pub new_client : ClientInfo
new_client = record {
  subscriptions_by_channel = [];
  advertised_channels = [];
  subscribed_to_connection_graph = false;
}

abbrev values : {V : Type 0} → Map V → List V
values [] = []
values ((k, v) ∷ m) = v ∷ values m

abbrev keys : {V : Type 0} → Map V → List ℕ
keys [] = []
keys ((k, v) ∷ m) = k ∷ keys m

module _ (env : Env) where
  unfoldable pub handle_connection_opened : ℕ → M (Unit {0})
  handle_connection_opened hdl = do
    update (λ s. record s { clients = emplace hdl new_client s.clients })
    send env hdl
        (server_info env.name env.capabilities env.supported_encodings env.metadata env.session_id)
    s ← get
    send env hdl (advertise (values s.channels))
    send env hdl (advertise_services s.services)

  -- A call of a handler, if it is set, with every exception logged and dropped.
  unfoldable pub call_quietly : Call → M (Unit {0})
  call_quietly c = if env.has_handler (handler_of c) then try (call env c) (λ e. done) else done

  -- The last block of handleConnectionClosed.
  unfoldable pub close_graph : M (Unit {0})
  close_graph = do
    update count_down
    s ← get
    if is_nat s.graph.subscription_count 0 then call_quietly (connection_graph_call false) else done

  -- Behind the removal of the client, whose entry is `client`.
  unfoldable pub forget_client : ℕ → ClientInfo → M (Unit {0})
  forget_client hdl client = do
    for_each client.advertised_channels (λ id. call_quietly (client_unadvertise_call id hdl))
    update (λ s. record s { client_channels = erase hdl s.client_channels })
    for_each (keys client.subscriptions_by_channel) (λ id. call_quietly (unsubscribe_call id hdl))
    s ← get
    update (λ t. record t { client_param_subscriptions = erase hdl t.client_param_subscriptions })
    unsubscribe_params_without_subscriptions env hdl (subscribed_names hdl s)
    if client.subscribed_to_connection_graph then close_graph else done

  -- A handle that is not in `_clients` is only logged.
  unfoldable pub handle_connection_closed : ℕ → M (Unit {0})
  handle_connection_closed hdl = do
    s ← get
    elim (lookup hdl s.clients) [
      | none ↦ done
      | some client ↦ do
        update (λ t. record t { clients = erase hdl t.clients })
        forget_client hdl client
    ]
