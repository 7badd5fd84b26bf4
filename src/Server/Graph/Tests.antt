-- ===== src/Server/Graph/Tests.antt =====
-- Updates of a graph with two services and a topic.
use dora_foxglove.Prelude.{◌≡◌, refl, true, ok, [], ◌∷◌, none}
use dora_foxglove.Server.Types.{Server, Env, MapOfSets}
use dora_foxglove.Server.Graph.Vanishing.{with_graph, vanished_publishers_unreported}
use dora_foxglove.Server.Session.{new_server}
use dora_foxglove.Server.Connections.{new_client}
use dora_foxglove.Server.Graph.{update_connection_graph, find_set, changed, names, removed}
use dora_foxglove.Server.Graph.Updates.{Agree, updated, services_update_applies}

abbrev env : Env
env = record {
  name = "dora";
  supported_encodings = [];
  metadata = [];
  session_id = "1";
  capabilities = [];
  topic_whitelist = [];
  send_buffer_limit = 10_000_000;
  has_handler = λ handler. true;
  answer = λ c log. none;
  reachable = λ hdl log. true;
  buffered_amount = λ hdl log. 0;
}

abbrev old_services : MapOfSets
old_services = ("/reset", "a" ∷ []) ∷ ("/stop", "a" ∷ "b" ∷ []) ∷ []

abbrev new_services : MapOfSets
new_services = ("/stop", "b" ∷ []) ∷ ("/go", "c" ∷ []) ∷ []

services_update_applies_example : Agree (find_set "/stop" new_services) (
    updated old_services
      (changed old_services new_services)
      (removed (names old_services) (names new_services))
      "/stop")
unfolding find_set
services_update_applies_example =
    services_update_applies old_services new_services "/stop" (refl, (refl, tt))

-- A client that gets the updates.
abbrev watched : Server
watched = record new_server {
  clients = (3, record new_client { subscribed_to_connection_graph = true }) ∷ [];
}

vanished_publishers_unreported_example :
    update_connection_graph env [] (("/scan", "viewer" ∷ []) ∷ []) old_services (
      with_graph
        (("/scan", "driver" ∷ []) ∷ [])
        (("/scan", "viewer" ∷ []) ∷ [])
        old_services
        watched)
    ≡ (ok tt, with_graph [] (("/scan", "viewer" ∷ []) ∷ []) old_services watched)
unfolding find_set
vanished_publishers_unreported_example =
    vanished_publishers_unreported env "/scan" ("driver" ∷ []) ("viewer" ∷ []) []
      (("/scan", "viewer" ∷ []) ∷ []) old_services watched (refl, tt) (refl, tt) (refl, (refl, tt))
      refl
