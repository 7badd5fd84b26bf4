-- ===== src/Server/Graph/SecondSubscriber.antt =====
-- Only the first subscriber of the connection graph is flagged.
use dora_foxglove.Prelude.{ℕ, ◌≡◌, refl, ◌∙◌, true, false, List, none, some, ok}
use dora_foxglove.Prelude.Maps.{lookup}
use dora_foxglove.Prelude.Int.{is_nat}
use dora_foxglove.Server.Types.{Server, Env, ClientInfo, Event, status, error, text, sent}
use dora_foxglove.Server.Effects.{◌>>◌, done, logged}
use dora_foxglove.Server.Status.{client_at, send_status_and_log_msg}
use dora_foxglove.Server.Running.{if_else, get_bind, update_bind, bind_ok, send_ok}
use dora_foxglove.Server.Graph.{
  count_up, whole_graph, handle_subscribe_connection_graph, handle_unsubscribe_connection_graph,
}

-- A client that can be reached and is not flagged subscribes to the connection graph with a count
-- that does not become one, and unsubscribes: it is counted and sent the whole graph, but its entry
-- is not flagged, no handler is called, and its unsubscription is refused with a status and takes
-- nothing from the count.
pub second_subscriber_unflagged :
    (env : Env) (hdl : ℕ) (s : Server) (c : ClientInfo)
    → is_nat (count_up s).graph.subscription_count 1 ≡ false
    → ((log : List Event) → env.reachable hdl log ≡ true)
    → lookup hdl s.clients ≡ some c
    → c.subscribed_to_connection_graph ≡ false
    → (handle_subscribe_connection_graph env hdl >> handle_unsubscribe_connection_graph env hdl) s
      ≡ (
        ok tt,
        logged
            (sent hdl
              (status error (text "Client was not subscribed to connection graph updates") none))
            (logged (sent hdl (whole_graph s)) (count_up s)),
      )
unfolding handle_subscribe_connection_graph handle_unsubscribe_connection_graph done
    send_status_and_log_msg client_at
second_subscriber_unflagged env hdl s c second reached known unflagged =
    bind_ok s (handle_subscribe_connection_graph env hdl) _ tt _ (
      update_bind s _ _
      ∙ (get_bind (count_up s) _
          ∙ (bind_ok (count_up s) _ _ tt (count_up s)
                (if_else (count_up s) _ _ (is_nat (count_up s).graph.subscription_count 1) second)
              ∙ (get_bind (count_up s) _
                  ∙ send_ok env (count_up s) hdl (whole_graph s) (reached _)))))
    ∙ (bind_ok _ (client_at hdl) _ c _ (rw (known, client_at) refl)
        ∙ (if_else _ _ _ c.subscribed_to_connection_graph unflagged
            ∙ send_ok env _ hdl _ (reached _)))
