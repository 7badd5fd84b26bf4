-- ===== src/Server/Session/Told.antt =====
-- In every session: the owner of the server has been told of every subscription that there is.
use dora_foxglove.Prelude.{ℕ, ◌≡◌, List, Option, none, some, Option-cases, inl, inr}
use dora_foxglove.Prelude.Int.{decrement}
use dora_foxglove.Prelude.Maps.{
  Map, lookup, lookup-erase_self, Every-emplace, Every-erase, Every-none,
}
use dora_foxglove.Server.Types.{
  Server, Env, Channel, Event, called, subscribe_call, unsubscribe_call,
}
use dora_foxglove.Server.Effects.{◌>>◌, call, logged}
use dora_foxglove.Server.Payload.{JsonLib}
use dora_foxglove.Server.Status.{change_client}
use dora_foxglove.Server.Subscriptions.{
  find_by_sub_id, subscribe_found, subscribe_one, unsubscribe_one,
}
use dora_foxglove.Server.Connections.{handle_connection_closed}
use dora_foxglove.Server.Connections.Closing.{closed-Keeps}
use dora_foxglove.Server.Takes.{Takes-Keeps, Takes-call_bind, Takes-change_client}
use dora_foxglove.Server.Session.{Action, run, new_server}
use dora_foxglove.Server.Session.Runs.{run-stable}
use dora_foxglove.Server.Keeps.{Keeps, Keeps-status, Keeps-get_bind}
use dora_foxglove.Server.Session.Plain.{plain-count_to, plain-joins, plain-leaves}
use dora_foxglove.Server.Session.Stable.{IsStable, with_subscription, without_subscription}
use dora_foxglove.Server.Session.Telling.{
  Told, ToldOf, Told-logs, changed_client, Told-IsPlain, Announced, Withdrawn, announced, withdrawn,
  Withdrawn-absent, Withdrawn-removed, Told-dropped,
}

module _ (env : Env)
    (quiet : (channel hdl : ℕ) (log : List Event)
      → env.answer (unsubscribe_call channel hdl) log ≡ none)
    (hdl : ℕ) where
  Told-accepted :
      (sub_id channel : ℕ)
      → Keeps Told (
          call env (subscribe_call channel hdl)
          >> change_client hdl (with_subscription channel sub_id))
  Told-accepted sub_id channel = Takes-Keeps (
      Takes-call_bind {R = Announced hdl channel} env _
        (λ _. change_client hdl (with_subscription channel sub_id)) (λ s p. p)
        (λ s e p threw. (announced hdl channel s p).0) (announced hdl channel)
        (Takes-change_client hdl _ (λ s p absent. p.0)
          λ s c p e. changed_client hdl _ s p.0 λ c' e'.
            Every-emplace _ channel sub_id c'.subscriptions_by_channel (p.0 hdl c' e') p.1))

  Told-found :
      (sub_id channel : ℕ) (o : Option Channel)
      → Keeps Told (subscribe_found env hdl sub_id channel o)
  unfolding subscribe_found
  Told-found sub_id channel none = Keeps-status Told-logs env hdl _ _
  Told-found sub_id channel (some c) = Told-accepted sub_id channel

  Told-subscribes :
      (snapshot : Map ℕ) (sub_id channel : ℕ)
      → Keeps Told (subscribe_one env hdl snapshot sub_id channel)
  unfolding subscribe_one
  Told-subscribes snapshot sub_id channel = elim (Option-cases (find_by_sub_id sub_id snapshot)) [
    | inr (c, e) ↦ rw (e, subscribe_one) (Keeps-status Told-logs env hdl _ _)
    | inl e ↦
        rw (e, subscribe_one)
          (Keeps-get_bind (λ s. subscribe_found env hdl sub_id channel (lookup channel s.channels))
            λ s p. (Told-found sub_id channel (lookup channel s.channels)).kept s p)
  ]

  Told-unsubscribes :
      (snapshot : Map ℕ) (sub_id : ℕ) → Keeps Told (unsubscribe_one env hdl snapshot sub_id)
  unfolding unsubscribe_one
  Told-unsubscribes snapshot sub_id = elim (Option-cases (find_by_sub_id sub_id snapshot)) [
    | inl e ↦ rw (e, unsubscribe_one) (Keeps-status Told-logs env hdl _ _)
    | inr (channel, e) ↦
        rw (e, unsubscribe_one)
          (Takes-Keeps (
            Takes-call_bind {R = Withdrawn hdl channel} env _
              (λ _. change_client hdl (without_subscription channel)) (λ s p. p)
              (λ s x p threw. cc (quiet channel hdl s.log)) (withdrawn hdl channel)
              (Takes-change_client hdl _ (Withdrawn-absent hdl channel)
                λ s c p e'. Withdrawn-removed hdl channel s p)))
  ]

  -- While a connection closes, its client is not in the map any more.
  Left : Server → Type 0
  Left s = Told s × (lookup hdl s.clients ≡ none)

  Told-closes : Keeps Told (handle_connection_closed env hdl)
  unfolding Left
  Told-closes =
      closed-Keeps env hdl {A = λ c. Left} {B = λ c. Left} {C = λ c. Told}
        (λ s c p e. (Every-erase (ToldOf s.log) hdl s.clients p, lookup-erase_self hdl s.clients))
        λ c. record {
          logs_a = λ e other s p. (Told-logs e other s p.0, p.1);
          tells_b = λ id s p. (
            Withdrawn-absent hdl id (logged (called (unsubscribe_call id hdl)) s)
                (withdrawn hdl id s p.0) p.1,
            p.1,
          );
          logs_c = Told-logs;
          logs_d = Told-logs;
          channels = λ s p. p;
          parameters = λ s p. p.0;
          counted = λ e s p. plain-count_to Told-IsPlain (decrement s.graph.subscription_count) s p;
          uncounted = λ e s p. p;
        }

module _ (env : Env)
    (quiet : (channel hdl : ℕ) (log : List Event)
      → env.answer (unsubscribe_call channel hdl) log ≡ none) where
  Told-IsStable : IsStable env Told
  Told-IsStable = record {
    logs = Told-logs;
    registered = λ c s p. p;
    dropped = Told-dropped;
    opened_channels = λ hdl s p. p;
    advertised = λ hdl a s c p e there. changed_client hdl _ s p λ c' e'. p hdl c' e';
    unadvertised = λ hdl id s c p e. changed_client hdl _ s p λ c' e'. p hdl c' e';
    parameters = λ m s p. p;
    services = λ n m s p. p;
    warned = λ w s p. p;
    published = λ t u v s p. p;
    opened = λ hdl s p. Every-emplace (ToldOf s.log) hdl _ s.clients p (Every-none _);
    subscribes = Told-subscribes env quiet;
    unsubscribes = Told-unsubscribes env quiet;
    closes = Told-closes env quiet;
    joins = plain-joins Told-IsPlain env;
    leaves = plain-leaves Told-IsPlain env;
  }

  -- In every session in which the handler of unsubscribeHandler never throws, whatever the clients
  -- send, the other handlers do and the owner calls, stop included, in any order: at every moment, for each
  -- subscription of each client, the last call of subscribeHandler and unsubscribeHandler with the
  -- client and the channel was one of subscribeHandler.
  pub run-Told : (J : JsonLib) (actions : List Action) → Told (run J env actions new_server)
  run-Told J actions =
      run-stable Told-IsStable J (λ s p. Every-none _) actions new_server (Every-none _)
