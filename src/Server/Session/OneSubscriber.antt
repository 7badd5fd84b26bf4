-- ===== src/Server/Session/OneSubscriber.antt =====
-- In every session: at most one client is flagged as a subscriber of the connection graph.
use dora_foxglove.Prelude.{
  ℕ, zero, suc, ◌+◌, ◌≤◌, ◌≡◌, refl, Bool, true, false, List, [], ◌∷◌, ◌==◌, ◌||◌, ◌⊎◌, Bool-cases,
  inl, inr, length, if◌then◌else◌, arith,
}
use dora_foxglove.Prelude.Int.{ℤ, fits_int, wrapped, pos, increment, decrement, is_nat}
use dora_foxglove.Server.Types.{
  Server, Env, ClientInfo, Event, counter_overflow, called, unsubscribe_call, connection_graph_call,
}
use dora_foxglove.Server.Effects.{◌>>=◌, ◌>>◌, get, call, send, done}
use dora_foxglove.Server.Payload.{JsonLib}
use dora_foxglove.Server.Status.{change_client}
use dora_foxglove.Server.Subscriptions.{unsubscribed_from}
use dora_foxglove.Server.Keeps.{
  IgnoresAll, IgnoresLog, IgnoresAll-IgnoresLog, Keeps-told, Keeps, Keeps->>=, Keeps-call,
  Keeps-send, Keeps-status, Keeps-if, Keeps-get, Keeps-done,
}
use dora_foxglove.Server.Takes.{
  Takes, Takes->>=, Takes-then, Takes-get_bind, Takes-update_bind, Takes-change_client, Keeps-Takes,
  Takes-change_client_bind, Takes-client_at_bind, Takes-Keeps, Takes-if,
}
use dora_foxglove.Server.Graph.{
  graph_subscribers, flag, whole_graph, count_log, count_up, count_down,
  handle_subscribe_connection_graph, leave_graph, handle_unsubscribe_connection_graph,
}
use dora_foxglove.Server.Graph.Flags.{
  flags, flags-modify, flags-modify_on, flags-modify_off, flags-erase, flags-erase_flagged,
  flags-emplace, flags-map_values,
}
use dora_foxglove.Server.Connections.{new_client, handle_connection_closed}
use dora_foxglove.Server.Connections.Closing.{closed-Keeps}
use dora_foxglove.Server.Session.{Action, run, new_server}
use dora_foxglove.Server.Session.Stable.{IsStable, at_client}
use dora_foxglove.Server.Session.Subscribing.{plain-subscribes, plain-unsubscribes}
use dora_foxglove.Server.Session.Runs.{run-stable}

-- The counter is a natural number, at least the number of the flagged clients, which is one at most.
abbrev Counts : ℤ → ℕ → Type 0
Counts z k = (n : ℕ) × (z ≡ pos n) × (k ≤ n) × (k ≤ 1)

abbrev is_overflow : Event → Bool
is_overflow counter_overflow = true
is_overflow _ = false

-- Has an int overflowed?
abbrev pub has_overflowed : List Event → Bool
has_overflowed [] = false
has_overflowed (e ∷ log) = is_overflow e || has_overflowed log

abbrev pub OneSubscriber : Server → Type 0
OneSubscriber s = has_overflowed s.log ≡ false → Counts s.graph.subscription_count (flags s.clients)

not_before :
    (e : Event) (log : List Event) → has_overflowed (e ∷ log) ≡ false → has_overflowed log ≡ false
not_before e log h = ground arith

OneSubscriber-logs : IgnoresAll OneSubscriber
OneSubscriber-logs e s p h = p (not_before e s.log h)

-- A count that is not logged as an overflow is the one that was asked for.
count_log-fits :
    (z : ℤ) (log : List Event)
    → has_overflowed (count_log z log) ≡ false
    → (fits_int z ≡ true) × (has_overflowed log ≡ false)
count_log-fits z log h = elim (Bool-cases (fits_int z)) [
  | inl e ↦ (e, rw e at h)
  | inr e ↦ cc (rw e at h)
]

Counts-count_to :
    (z : ℤ) (k : ℕ) (log : List Event)
    → has_overflowed (count_log z log) ≡ false
    → (has_overflowed log ≡ false → Counts z k)
    → Counts (if fits_int z then z else wrapped z) k
Counts-count_to z k log h p = let (fits, before) = count_log-fits z log h in rw fits (p before)

Counts-le : (z : ℤ) (j k : ℕ) → Counts z k → j ≤ k → Counts z j
Counts-le z j k (n, e, h, one) le = (n, e, omega arith, omega arith)

Counts-increment : (z : ℤ) (k : ℕ) → Counts z k → Counts (increment z) k
Counts-increment z k (n, e, h, one) = (suc n, rw e refl, omega arith, one)

Counts-decrement : (z : ℤ) (j k : ℕ) → Counts z k → j + 1 ≤ k → Counts (decrement z) j
Counts-decrement z j k (zero, e, h, one) le = absurd (omega arith)
Counts-decrement z j k (suc n, e, h, one) le = (n, rw e refl, omega arith, omega arith)

-- A counter that has become one was zero.
Counts-first : (z : ℤ) (k : ℕ) → Counts z k → is_nat (increment z) 1 ≡ true → k ≡ 0
Counts-first z k (n, e, h, one) first =
    let first' : (suc n == 1) ≡ true = rw e at first in ground arith

Counts-one : (z : ℤ) (j : ℕ) → is_nat z 1 ≡ true → j ≤ 1 → Counts z j
Counts-one (pos n) j e h = (n, refl, ground arith, h)
Counts-one (ℤ.negsuc n) j e h = cc

logs : IgnoresLog OneSubscriber
logs = IgnoresAll-IgnoresLog OneSubscriber-logs

module _ (env : Env) (hdl : ℕ) where
  -- Behind the increment: if the counter is one, nobody is flagged.
  abbrev Joining : Bool → Server → Type 0
  Joining first s =
      OneSubscriber s
      × (first ≡ true
          → (is_nat s.graph.subscription_count 1 ≡ true)
            × (has_overflowed s.log ≡ false → flags s.clients ≡ 0))

  Joining-logs : (first : Bool) → IgnoresAll (Joining first)
  Joining-logs first e s (p, q) = (
    OneSubscriber-logs e s p,
    λ is_first. ((q is_first).0, λ h. (q is_first).1 (not_before e s.log h)),
  )

  counted_up :
      (s : Server)
      → OneSubscriber s
      → Joining (is_nat (count_up s).graph.subscription_count 1) (count_up s)
  counted_up s p = (
    λ h. Counts-count_to _ _ s.log h (λ before. Counts-increment _ _ (p before)),
    λ first. (
      first,
      λ h.
          let (fits, before) = count_log-fits (increment s.graph.subscription_count) s.log h in
          Counts-first _ _ (p before) (rw fits at first),
    ),
  )

  one-joins : Keeps OneSubscriber (handle_subscribe_connection_graph env hdl)
  unfolding handle_subscribe_connection_graph
  one-joins = Takes-Keeps (
      Takes-update_bind {R = λ s. Joining (is_nat s.graph.subscription_count 1) s} count_up _
        counted_up
        (Takes-get_bind _ λ s q. (joined (is_nat s.graph.subscription_count 1)).took s q))
    where
      joined :
          (first : Bool)
          → Takes (Joining first) OneSubscriber (
              (if first
                then (call env (connection_graph_call true) >> change_client hdl (flag true))
                else done)
              >>= λ _. get >>= λ t. send env hdl (whole_graph t))
      joined first =
          Takes-then
            (Takes-if first
              (λ e.
                Takes->>=
                  (Keeps-told env _ (Joining-logs first (called (connection_graph_call true))))
                  (λ s q. q.0)
                  λ _.
                    Takes-change_client hdl _ (λ s q missing. q.0)
                      λ s c q e' h.
                        let (one, nobody) = q.1 e in
                        let none_flagged = nobody h in
                        Counts-one s.graph.subscription_count _ one
                          (omega (arith, flags-modify_on hdl s.clients)))
              (λ e. Keeps-Takes (λ s q. q.0) Keeps-done))
            λ _. Keeps->>= Keeps-get λ t. Keeps-send logs env hdl _

  one-leaves : Keeps OneSubscriber (handle_unsubscribe_connection_graph env hdl)
  unfolding handle_unsubscribe_connection_graph leave_graph
  one-leaves = Takes-Keeps (
      Takes-client_at_bind hdl (λ s p. p)
        λ c.
          Takes-if c.subscribed_to_connection_graph
            (λ e.
              Takes-change_client_bind
                {R = λ s.
                  has_overflowed s.log ≡ false
                  → Counts (decrement s.graph.subscription_count) (flags s.clients)}
                hdl _ _ (λ s q. q.0)
                (λ s c' q e' h.
                  Counts-decrement _ _ _ (q.0 h)
                    (omega (arith, flags-modify_off hdl s.clients c q.1 e)))
                (Takes-update_bind {R = OneSubscriber} count_down _
                  (λ s q h. Counts-count_to _ _ s.log h q)
                  (Keeps-Takes (λ s q. q)
                    (Keeps->>= Keeps-get λ s. Keeps-if _ (Keeps-call logs env _ refl) Keeps-done))))
            (λ e. Keeps-Takes (λ s q. q.0) (Keeps-status logs env hdl _ _)))

  -- Behind the removal of a client that was flagged, the counter may go down.
  abbrev Closing : ClientInfo → Server → Type 0
  Closing c s =
      OneSubscriber s
      × (c.subscribed_to_connection_graph ≡ true
          → has_overflowed s.log ≡ false
          → Counts (decrement s.graph.subscription_count) (flags s.clients))

  Closing-logs : (c : ClientInfo) → IgnoresAll (Closing c)
  Closing-logs c e s (p, q) =
      (OneSubscriber-logs e s p, λ flagged h. q flagged (not_before e s.log h))

  one-closes : Keeps OneSubscriber (handle_connection_closed env hdl)
  one-closes =
      closed-Keeps env hdl {A = Closing} {B = Closing} {C = Closing}
        (λ s c p e. (
          λ h. Counts-le _ _ _ (p h) (flags-erase hdl s.clients),
          λ flagged h. Counts-decrement _ _ _ (p h) (flags-erase_flagged hdl s.clients c e flagged),
        ))
        λ c. record {
          logs_a = IgnoresAll-IgnoresLog (Closing-logs c);
          tells_b = λ id. Closing-logs c (called (unsubscribe_call id hdl));
          logs_c = IgnoresAll-IgnoresLog (Closing-logs c);
          logs_d = logs;
          channels = λ s p. p;
          parameters = λ s p. p;
          counted = λ e s p h. Counts-count_to _ _ s.log h (p.1 e);
          uncounted = λ e s p. p.0;
        }

changed_client :
    (hdl : ℕ) (f : ClientInfo → ClientInfo) (s : Server)
    → ((c : ClientInfo) → (f c).subscribed_to_connection_graph ≡ c.subscribed_to_connection_graph)
    → OneSubscriber s
    → OneSubscriber (at_client hdl f s)
changed_client hdl f s same p h =
    Counts-le _ _ _ (p h) (omega (arith, flags-modify hdl f s.clients same))

OneSubscriber-IsStable : (env : Env) → IsStable env OneSubscriber
OneSubscriber-IsStable env = record {
  logs = logs;
  registered = λ c s p. p;
  dropped = λ ks s p h.
      Counts-le _ _ _ (p h)
        (omega (arith, flags-map_values (unsubscribed_from ks) s.clients λ c. refl));
  opened_channels = λ hdl s p. p;
  advertised = λ hdl a s c p e there. changed_client hdl _ s (λ c'. refl) p;
  unadvertised = λ hdl id s c p e. changed_client hdl _ s (λ c'. refl) p;
  parameters = λ m s p. p;
  services = λ n m s p. p;
  warned = λ w s p. p;
  published = λ t u v s p. p;
  opened = λ hdl s p h.
      Counts-le _ _ _ (p h) (omega (arith, flags-emplace hdl new_client s.clients refl));
  subscribes = λ hdl.
      plain-subscribes OneSubscriber-logs env hdl
        (λ channel_id sub_id s c p e there. changed_client hdl _ s (λ c'. refl) p)
        (λ channel_id s c p e. changed_client hdl _ s (λ c'. refl) p);
  unsubscribes = λ hdl.
      plain-unsubscribes OneSubscriber-logs env hdl
        (λ channel_id sub_id s c p e there. changed_client hdl _ s (λ c'. refl) p)
        (λ channel_id s c p e. changed_client hdl _ s (λ c'. refl) p);
  closes = one-closes env;
  joins = one-joins env;
  leaves = one-leaves env;
}

-- Whatever the clients send, the handlers do and the owner calls, stop included, in any order and also behind a
-- call that throws: at every moment of a session, unless the int that counts the subscriptions has
-- overflowed before, at most one client is flagged to get the updates of the connection graph, and
-- the counter is a natural number that is not below the number of the flagged clients.
pub run-OneSubscriber :
    (J : JsonLib) (env : Env) (actions : List Action)
    → let s = run J env actions new_server in
      (has_overflowed s.log ≡ true)
      ⊎ ((length (graph_subscribers s.clients) ≤ 1)
          × ((n : ℕ) × (s.graph.subscription_count ≡ pos n)
              × (length (graph_subscribers s.clients) ≤ n)))
run-OneSubscriber J env actions =
    let s = run J env actions new_server in
    elim (Bool-cases (has_overflowed s.log)) [
      | inl e ↦ inl e
      | inr e ↦
          let (n, is_n, le, one) =
            run-stable (OneSubscriber-IsStable env) J (λ s p h. Counts-le _ _ _ (p h) (omega arith))
              actions new_server (λ h. (0, refl, omega arith, omega arith)) e in
          inr (one, (n, is_n, le))
    ]
