-- ===== src/Server/Connections/Closing.antt =====
-- Nothing of a client is left behind its connection.
use dora_foxglove.Prelude.{ℕ, ◌≡◌, refl, ◌∙◌, true, false, none, some, ok, Option-cases, inl, inr}
use dora_foxglove.Prelude.Int.{is_nat}
use dora_foxglove.Prelude.Maps.{lookup, erase, lookup-erase_self}
use dora_foxglove.Server.Types.{
  Server, Env, ClientInfo, called, unsubscribe_call, client_unadvertise_call, connection_graph_call,
}
use dora_foxglove.Server.Effects.{logged, done}
use dora_foxglove.Server.Keeps.{IgnoresLog, Keeps}
use dora_foxglove.Server.Returns.{
  Returns, Returns->>, Returns-done, Returns-nothing, Returns-if, Returns-if_known, Returns-update,
  Returns-get, Returns-for_each, Returns-call_quietly, Returns-orphans,
}
use dora_foxglove.Server.Running.{get_bind, update_bind, on_some, on_none}
use dora_foxglove.Server.Graph.{count_down}
use dora_foxglove.Server.Connections.{close_graph, forget_client, handle_connection_closed}

-- What holds behind the removal of a client, then behind that of its channels and of its parameters,
-- and in the end.
pub record Stages (hdl : ℕ) (c : ClientInfo) (A B C D : Server → Type 0) : Type 0 where
  pub logs_a : IgnoresLog A
  pub tells_b : (id : ℕ) (s : Server) → B s → B (logged (called (unsubscribe_call id hdl)) s)
  pub logs_c : IgnoresLog C
  pub logs_d : IgnoresLog D
  pub channels : (s : Server) → A s → B (record s { client_channels = erase hdl s.client_channels })
  pub parameters :
      (s : Server)
      → B s
      → C (record s { client_param_subscriptions = erase hdl s.client_param_subscriptions })
  pub counted : c.subscribed_to_connection_graph ≡ true → (s : Server) → C s → D (count_down s)
  pub uncounted : c.subscribed_to_connection_graph ≡ false → (s : Server) → C s → D s

module _ (env : Env) (hdl : ℕ) (c : ClientInfo) where
  pub forget_client-Returns :
      {A B C D : Server → Type 0} → Stages hdl c A B C D → Returns A D (forget_client env hdl c)
  unfolding forget_client close_graph
  forget_client-Returns {A} {B} {C} {D} S =
      Returns->> {Q = A}
        (Returns-for_each _ λ id.
          Returns-call_quietly env _ (S.logs_a (called (client_unadvertise_call id hdl)) refl))
        (Returns->> {Q = B} (Returns-update _ S.channels) (
          Returns->> {Q = B} (Returns-for_each _ λ id. Returns-call_quietly env _ (S.tells_b id)) (
            Returns-get λ s. Returns->> {Q = C} (Returns-update _ S.parameters) (
              Returns->> {Q = C} (Returns-orphans S.logs_c env hdl _) (
                Returns-if_known c.subscribed_to_connection_graph
                  (λ flagged. Returns->> {Q = D} (Returns-update _ (S.counted flagged)) (
                    Returns-get λ t.
                      Returns-if (is_nat t.graph.subscription_count 0)
                        (Returns-call_quietly env _
                          (S.logs_d (called (connection_graph_call false)) refl))
                        Returns-done))
                  (λ unflagged. Returns-nothing (S.uncounted unflagged)))))))

-- No member of the server has an entry for the handle.
pub record IsForgotten (hdl : ℕ) (s : Server) : Type 0 where
  pub no_client : lookup hdl s.clients ≡ none
  pub no_channels : lookup hdl s.client_channels ≡ none
  pub no_parameters : lookup hdl s.client_param_subscriptions ≡ none

abbrev NoClient : ℕ → Server → Type 0
NoClient hdl s = lookup hdl s.clients ≡ none

abbrev NoChannels : ℕ → Server → Type 0
NoChannels hdl s = NoClient hdl s × (lookup hdl s.client_channels ≡ none)

module _ (env : Env) (hdl : ℕ) where
  IsForgotten-Stages :
      (c : ClientInfo)
      → Stages hdl c (NoClient hdl) (NoChannels hdl) (IsForgotten hdl) (IsForgotten hdl)
  IsForgotten-Stages c = record {
    logs_a = λ e other s p. p;
    tells_b = λ id s p. p;
    logs_c = same;
    logs_d = same;
    channels = λ s p. (p, lookup-erase_self hdl s.client_channels);
    parameters = λ s p. record {
      no_client = p.0;
      no_channels = p.1;
      no_parameters = lookup-erase_self hdl s.client_param_subscriptions;
    };
    counted = λ e. same_members;
    uncounted = λ e s p. p;
  }
    where
      same : IgnoresLog (IsForgotten hdl)
      same e other s p = record {
        no_client = p.no_client;
        no_channels = p.no_channels;
        no_parameters = p.no_parameters;
      }

      same_members : (s : Server) → IsForgotten hdl s → IsForgotten hdl (count_down s)
      same_members s p = record {
        no_client = p.no_client;
        no_channels = p.no_channels;
        no_parameters = p.no_parameters;
      }

  closed_run :
      (s : Server) (c : ClientInfo)
      → lookup hdl s.clients ≡ some c
      → handle_connection_closed env hdl s
        ≡ forget_client env hdl c (record s { clients = erase hdl s.clients })
  unfolding handle_connection_closed
  closed_run s c e = get_bind s _ ∙ (on_some s _ _ (lookup hdl s.clients) c e ∙ update_bind s _ _)

  closed_nobody :
      (s : Server) → lookup hdl s.clients ≡ none → handle_connection_closed env hdl s ≡ done s
  unfolding handle_connection_closed
  closed_nobody s e = get_bind s _ ∙ on_none s _ _ (lookup hdl s.clients) e

  -- When the connection of a client of the server closes, the callback returns, whatever the
  -- handlers throw, and leaves no entry for the client: not as a client, nor of its channels, nor of
  -- its parameters.
  pub closed-IsForgotten :
      (s : Server) (c : ClientInfo)
      → lookup hdl s.clients ≡ some c
      → ((handle_connection_closed env hdl s).0 ≡ ok tt)
        × IsForgotten hdl (handle_connection_closed env hdl s).1
  closed-IsForgotten s c e = rw (closed_run s c e) (
      (forget_client-Returns env hdl c (IsForgotten-Stages c)).returned _
        (lookup-erase_self hdl s.clients))

  -- What is kept when a connection closes, by the stages of every client that is there.
  pub closed-Keeps :
      {P : Server → Type 0} {A B C : ClientInfo → Server → Type 0}
      → ((s : Server) (c : ClientInfo)
          → P s
          → lookup hdl s.clients ≡ some c
          → A c (record s { clients = erase hdl s.clients }))
      → ((c : ClientInfo) → Stages hdl c (A c) (B c) (C c) P)
      → Keeps P (handle_connection_closed env hdl)
  unfolding done
  closed-Keeps {P} start stages = record {
    kept = λ s p. elim (Option-cases (lookup hdl s.clients)) [
      | inl e ↦ rw (closed_nobody s e) p
      | inr (c, e) ↦
          rw (closed_run s c e)
            ((forget_client-Returns env hdl c (stages c)).returned _ (start s c p e)).1
    ];
  }
