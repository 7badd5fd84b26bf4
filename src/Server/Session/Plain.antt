-- ===== src/Server/Session/Plain.antt =====
-- What a property has to withstand if it does not depend on how many subscribers the connection
-- graph has nor on whether a client is one: then the methods on the graph and the end of a
-- connection keep it.
use dora_foxglove.Prelude.{
  ℕ, ◌≡◌, refl, Bool, true, false, List, String, some, Bool-cases, inl, inr,
}
use dora_foxglove.Prelude.Int.{ℤ, increment, decrement, fits_int, wrapped}
use dora_foxglove.Prelude.Maps.{lookup, erase}
use dora_foxglove.Server.Types.{Server, Env, ClientInfo, counter_overflow}
use dora_foxglove.Server.Keeps.{
  Keeps, Keeps->>=, Keeps-call, Keeps-send, Keeps-status, Keeps-if, Keeps-get, Keeps-update,
  Keeps-done, Keeps-client_at, Keeps-change_client, IgnoresAll, IgnoresLog,
}
use dora_foxglove.Server.Graph.{
  count_to, flag, handle_subscribe_connection_graph, leave_graph,
  handle_unsubscribe_connection_graph,
}
use dora_foxglove.Server.Connections.{handle_connection_closed}
use dora_foxglove.Server.Connections.Closing.{closed-Keeps}
use dora_foxglove.Server.Session.Stable.{at_client}

abbrev pub with_count : ℤ → Server → Server
with_count n s = record s { graph = record g { subscription_count = n } }
  where
    open s use {graph as g}

pub record IsPlain (P : Server → Type 0) : Type 0 where
  pub plain_logs : IgnoresLog P
  pub counted : (n : ℤ) (s : Server) → P s → P (with_count n s)
  pub flagged :
      (hdl : ℕ) (b : Bool) (s : Server) (c : ClientInfo)
      → P s
      → lookup hdl s.clients ≡ some c
      → P (at_client hdl (flag b) s)

-- Then also the counter with its overflow keeps it.
pub plain-count_to :
    {P : Server → Type 0} → IsPlain P → (z : ℤ) (s : Server) → P s → P (count_to z s)
plain-count_to L z s p = elim (Bool-cases (fits_int z)) [
  | inl e ↦ rw e (L.counted z s p)
  | inr e ↦ rw e (L.plain_logs counter_overflow refl _ (L.counted (wrapped z) s p))
]

module _ {P : Server → Type 0} (L : IsPlain P) (env : Env) (hdl : ℕ) where
  pub plain-joins : Keeps P (handle_subscribe_connection_graph env hdl)
  unfolding handle_subscribe_connection_graph
  plain-joins =
      Keeps->>= (Keeps-update _ λ t p. plain-count_to L (increment t.graph.subscription_count) t p)
        λ _. Keeps->>= Keeps-get λ s.
          Keeps->>=
            (Keeps-if _
              (Keeps->>= (Keeps-call L.plain_logs env _ refl)
                λ _. Keeps-change_client hdl _ λ t c p e. L.flagged hdl true t c p e)
              Keeps-done)
            λ _. Keeps->>= Keeps-get λ t. Keeps-send L.plain_logs env hdl _

  pub plain-leaves : Keeps P (handle_unsubscribe_connection_graph env hdl)
  unfolding handle_unsubscribe_connection_graph leave_graph
  plain-leaves = Keeps->>= (Keeps-client_at hdl) λ c.
      Keeps-if c.subscribed_to_connection_graph
        (Keeps->>= (Keeps-change_client hdl _ λ t c' p e. L.flagged hdl false t c' p e) λ _.
          Keeps->>=
            (Keeps-update _ λ t p. plain-count_to L (decrement t.graph.subscription_count) t p)
            λ _.
              Keeps->>= Keeps-get λ s. Keeps-if _ (Keeps-call L.plain_logs env _ refl) Keeps-done)
        (Keeps-status L.plain_logs env hdl _ _)

  pub plain-closes :
      IgnoresAll P
      → ((s : Server) → P s → P (record s { clients = erase hdl s.clients }))
      → ((s : Server) → P s → P (record s { client_channels = erase hdl s.client_channels }))
      → ((m : List (ℕ × List String)) (s : Server)
          → P s
          → P (record s { client_param_subscriptions = m }))
      → Keeps P (handle_connection_closed env hdl)
  plain-closes all clients channels parameters =
      closed-Keeps env hdl {A = λ c. P} {B = λ c. P} {C = λ c. P} (λ s c p e. clients s p)
        λ c. record {
          logs_a = L.plain_logs;
          tells_b = λ id. all _;
          logs_c = L.plain_logs;
          logs_d = L.plain_logs;
          channels = channels;
          parameters = λ s p. parameters _ s p;
          counted = λ e s p. plain-count_to L (decrement s.graph.subscription_count) s p;
          uncounted = λ e s p. p;
        }
