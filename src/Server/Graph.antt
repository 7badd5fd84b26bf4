-- ===== src/Server/Graph.antt =====
-- The connection graph: handleSubscribeConnectionGraph, handleUnsubscribeConnectionGraph and
-- updateConnectionGraph.
pub mod SecondSubscriber
pub mod Updates
pub mod Flags
pub mod Vanishing
mod Tests
use dora_foxglove.Prelude.{
  ℕ, Bool, true, false, List, [], ◌∷◌, ◌++◌, Option, none, some, String, ok, err, ◌&&◌, ◌||◌, not,
  if◌then◌else◌, map,
}
use dora_foxglove.Prelude.Maps.{Map}
use dora_foxglove.Prelude.Int.{ℤ, increment, decrement, is_nat, fits_int, wrapped}
use dora_foxglove.Prelude.Texts.{contains, filter_by, to_set, str_eq}
use dora_foxglove.Server.Types.{
  Server, Env, std_error, error, text, MapOfSets, Message, connection_graph_update, ClientInfo,
  connection_graph_call, Event, counter_overflow, sent,
}
use dora_foxglove.Server.Effects.{
  M, ◌>>=◌, ◌>>◌, return, done, get, update, for_each, call, send, logged,
}
use dora_foxglove.Server.Status.{client_at, change_client, send_status_and_log_msg}

-- The counter of the subscriptions, an int, is set to the result of `++` or `--`. Beyond its range that
-- is undefined behaviour; here it wraps around, and the event says so.
abbrev pub count_log : ℤ → List Event → List Event
count_log z log = if fits_int z then log else counter_overflow ∷ log

abbrev pub count_to : ℤ → Server → Server
count_to z s = record s {
  graph = record g { subscription_count = if fits_int z then z else wrapped z };
  log = count_log z s.log;
}
  where
    open s use {graph as g}

abbrev pub count_up : Server → Server
count_up s = count_to (increment s.graph.subscription_count) s

abbrev pub count_down : Server → Server
count_down s = count_to (decrement s.graph.subscription_count) s

abbrev pub flag : Bool → ClientInfo → ClientInfo
flag b c = record c { subscribed_to_connection_graph = b }

abbrev pub whole_graph : Server → Message
whole_graph s =
    connection_graph_update g.published_topics g.subscribed_topics g.advertised_services [] []
  where
    open s use {graph as g}

-- `a == b` on sets of texts.
unfoldable pub within : List String → List String → Bool
unfolding contains
within [] set = true
within (t ∷ ts) set = contains set t && within ts set

abbrev pub same_set : List String → List String → Bool
same_set a b = within a b && within b a

unfoldable pub find_set : String → MapOfSets → Option (List String)
find_set name [] = none
find_set name ((n, set) ∷ m) = if str_eq n name then some set else find_set name m

abbrev pub is_same : List String → Option (List String) → Bool
is_same new none = false
is_same new (some old) = same_set old new

-- The entries of `new` that `old` lacks or has otherwise.
pub changed : MapOfSets → MapOfSets → MapOfSets
unfolding find_set within filter_by
changed old new = filter_by (λ entry. not (is_same entry.1 (find_set entry.0 old))) new

abbrev pub names : MapOfSets → List String
names = map (λ entry. entry.0)

-- The known names that are not among the new ones.
pub removed : List String → List String → List String
unfolding filter_by to_set contains
removed known new = filter_by (λ name. not (contains new name)) (to_set known)

abbrev is_empty {ℓ} : {A : Type ℓ} → List A → Bool
is_empty [] = true
is_empty (x ∷ xs) = false

abbrev pub graph_subscribers : Map ClientInfo → List ℕ
graph_subscribers [] = []
graph_subscribers ((h, c) ∷ m) =
    let rest = graph_subscribers m in if c.subscribed_to_connection_graph then h ∷ rest else rest

module _ (env : Env) where
  unfoldable pub handle_subscribe_connection_graph : ℕ → M (Unit {0})
  handle_subscribe_connection_graph hdl = do
    update count_up
    s ← get
    if is_nat s.graph.subscription_count 1
        then (call env (connection_graph_call true) >> change_client hdl (flag true))
        else done
    t ← get
    send env hdl (whole_graph t)

  -- Behind the reset of the client's flag: the last one turns the updates off.
  unfoldable pub leave_graph : M (Unit {0})
  leave_graph = do
    update count_down
    s ← get
    if is_nat s.graph.subscription_count 0 then call env (connection_graph_call false) else done

  unfoldable pub handle_unsubscribe_connection_graph : ℕ → M (Unit {0})
  handle_unsubscribe_connection_graph hdl = do
    client ← client_at hdl
    if client.subscribed_to_connection_graph
        then (change_client hdl (flag false) >> leave_graph)
        else send_status_and_log_msg env hdl error
            (text "Client was not subscribed to connection graph updates")

  -- `_server.send`, which throws on a failure.
  unfoldable pub server_send : ℕ → Message → M (Unit {0})
  server_send hdl m s =
      if env.reachable hdl s.log
      then (ok tt, logged (sent hdl m) s)
      else (err (std_error "websocketpp"), s)

  unfoldable pub update_connection_graph : MapOfSets → MapOfSets → MapOfSets → M (Unit {0})
  update_connection_graph published subscribed services = do
    s ← get
    let publisher_diff = changed s.graph.published_topics published
    let subscriber_diff = changed s.graph.subscribed_topics subscribed
    let services_diff = changed s.graph.advertised_services services
    let removed_topics =
        removed (names s.graph.published_topics ++ names s.graph.subscribed_topics)
          (names published ++ names subscribed)
    let removed_services = removed (names s.graph.advertised_services) (names services)
    update (λ t. record t {
      graph = record {
        subscription_count = t.graph.subscription_count;
        published_topics = published;
        subscribed_topics = subscribed;
        advertised_services = services;
      };
    })
    if is_empty publisher_diff
          && is_empty subscriber_diff
          && is_empty services_diff
          && is_empty removed_topics
          && is_empty removed_services
        then done
        else for_each (graph_subscribers s.clients) (λ h. server_send h (
            connection_graph_update publisher_diff subscriber_diff services_diff removed_topics
              removed_services))
