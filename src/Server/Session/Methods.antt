-- ===== src/Server/Session/Methods.antt =====
-- Each method on the clients' channels, parameters and graph keeps what is stable.
use dora_foxglove.Prelude.{
  ℕ, ◌≡◌, refl, true, Bool, List, [], String, not, ◌&&◌, ◌==◌, is_some, arith, Bool-cases,
  Option-cases, inl, inr,
}
use dora_foxglove.Prelude.Maps.{Map, lookup, emplace, modify, lookup-emplace, lookup-modify_self}
use dora_foxglove.Server.Types.{Server, Env, sent, ClientAdvertisement, MapOfSets, Message}
use dora_foxglove.Server.Effects.{◌>>=◌, get, update, lift, for_each}
use dora_foxglove.Server.Payload.{JsonLib}
use dora_foxglove.Server.Keeps.{
  Keeps, Keeps->>=, Keeps-call, Keeps-status, Keeps-for_each, Keeps-if, Keeps-try, Keeps-option,
  Keeps-get, Keeps-update, Keeps-lift, Keeps-done, Keeps-client_at, Keeps-change_client_then,
  IgnoresLog,
}
use dora_foxglove.Server.Subscriptions.{handle_subscribe, handle_unsubscribe}
use dora_foxglove.Server.ClientChannels.{
  accept_channel, unadvertise_one, advertise_one, handle_advertise, handle_unadvertise,
  publications, is_whitelisted,
}
use dora_foxglove.Server.Parameters.{
  unsubscribe_params_without_subscriptions, subscribe_params, unsubscribe_params, change_subscribed,
}
use dora_foxglove.Server.Graph.{server_send, update_connection_graph}
use dora_foxglove.Server.Session.Stable.{IsStable}

-- With a map for the channels of the client, which handleAdvertise makes.
abbrev pub HasChannels : (Server → Type 0) → ℕ → Server → Type 0
HasChannels P hdl s = P s × (is_some (lookup hdl s.client_channels) ≡ true)

module _ {V : Type 0} where
  emplace_there : (k : ℕ) (v : V) (m : Map V) → is_some (lookup k (emplace k v m)) ≡ true
  emplace_there k v m = elim (Bool-cases (k == k)) [
    | inl same ↦ rw (lookup-emplace, same) refl
    | inr other ↦ ground arith
  ]

  modify_there :
      (k : ℕ) (f : V → V) (m : Map V)
      → is_some (lookup k m) ≡ true
      → is_some (lookup k (modify k f m)) ≡ true
  modify_there k f m h = elim (Option-cases (lookup k m)) [
    | inl e ↦ cc (rw e at h)
    | inr (v, e) ↦ rw (lookup-modify_self k f m v e) refl
  ]

module _ {env : Env} {P : Server → Type 0} (S : IsStable env P) (hdl : ℕ) where
  HasChannels-logs : IgnoresLog (HasChannels P hdl)
  HasChannels-logs e other s p = (S.logs e other s p.0, p.1)

  pub accept_channel-Keeps :
      (a : ClientAdvertisement) → Keeps (HasChannels P hdl) (accept_channel env hdl a)
  unfolding accept_channel
  accept_channel-Keeps a = Keeps->>= (Keeps-call HasChannels-logs env _ refl) λ _.
      Keeps-change_client_then hdl _ _ λ s c p e. (
        S.advertised hdl a s c p.0 e p.1,
        modify_there hdl (emplace a.channel_id a) s.client_channels p.1,
      )

  pub unadvertise_one-Keeps : (id : ℕ) → Keeps P (unadvertise_one env hdl id)
  unfolding unadvertise_one
  unadvertise_one-Keeps id = Keeps->>= Keeps-get λ s.
      Keeps-option (lookup id (publications hdl s)) Keeps-done λ a.
        Keeps->>= (Keeps-call S.logs env _ refl)
          λ _. Keeps-change_client_then hdl _ _ λ t c p e. S.unadvertised hdl id t c p e

module _ {env : Env} {P : Server → Type 0} (S : IsStable env P) (J : JsonLib) (hdl : ℕ) where
  open J use {Json, at, elements, get_u32, get_string}

  pub handle_subscribe-Keeps : (payload : Json) → Keeps P (handle_subscribe J env payload hdl)
  unfolding handle_subscribe
  handle_subscribe-Keeps payload = Keeps->>= (Keeps-client_at hdl) λ client.
      Keeps->>= (Keeps-lift _) λ subscriptions. Keeps-for_each _ λ sub.
        Keeps->>= (Keeps-lift _) λ sub_id.
          Keeps->>= (Keeps-lift _)
            λ channel_id. S.subscribes hdl client.subscriptions_by_channel sub_id channel_id

  pub handle_unsubscribe-Keeps : (payload : Json) → Keeps P (handle_unsubscribe J env payload hdl)
  unfolding handle_unsubscribe
  handle_unsubscribe-Keeps payload = Keeps->>= (Keeps-client_at hdl) λ client.
      Keeps->>= (Keeps-lift _) λ subscription_ids. Keeps-for_each _ λ id.
        Keeps->>= (Keeps-lift _) λ sub_id. S.unsubscribes hdl client.subscriptions_by_channel sub_id

  pub advertise_one-Keeps :
      (first : Bool) (chan : Json) → Keeps (HasChannels P hdl) (advertise_one J env hdl first chan)
  unfolding advertise_one
  advertise_one-Keeps first chan = Keeps->>= (Keeps-lift _) λ id. Keeps->>= Keeps-get λ s.
      Keeps-if (not first && is_some (lookup id (publications hdl s)))
        (Keeps-status (HasChannels-logs S hdl) env hdl _ _)
        (Keeps->>= (Keeps-lift _) λ topic.
          Keeps-if (not (is_whitelisted topic env.topic_whitelist))
            (Keeps-status (HasChannels-logs S hdl) env hdl _ _)
            (Keeps->>= (Keeps-lift _)
              λ encoding. Keeps->>= (Keeps-lift _) λ name. accept_channel-Keeps S hdl _))

  pub handle_advertise-Keeps : (payload : Json) → Keeps P (handle_advertise J env hdl payload)
  unfolding handle_advertise ◌>>=◌ get update
  handle_advertise-Keeps payload = record {
    kept = λ s p.
        ((rest (not (is_some (lookup hdl s.client_channels)))).kept _
          (S.opened_channels hdl s p, emplace_there hdl [] s.client_channels)).0;
  }
    where
      rest :
          (first : Bool)
          → Keeps (HasChannels P hdl) (
              lift (at payload "channels") >>= λ channels.
              for_each (elements channels) (advertise_one J env hdl first))
      rest first =
          Keeps->>= (Keeps-lift _)
            λ channels. Keeps-for_each _ λ chan. advertise_one-Keeps first chan

  pub handle_unadvertise-Keeps : (payload : Json) → Keeps P (handle_unadvertise J env hdl payload)
  unfolding handle_unadvertise
  handle_unadvertise-Keeps payload = Keeps->>= Keeps-get λ s.
      Keeps-option (lookup hdl s.client_channels) (Keeps-status S.logs env hdl _ _) λ _.
        Keeps->>= (Keeps-lift _)
          λ ids. Keeps-for_each _ λ id. Keeps->>= (Keeps-lift _) λ k. unadvertise_one-Keeps S hdl k

module _ {env : Env} {P : Server → Type 0} (S : IsStable env P) where
  pub orphans-Keeps :
      (hdl : ℕ) (names : List String)
      → Keeps P (unsubscribe_params_without_subscriptions env hdl names)
  unfolding unsubscribe_params_without_subscriptions
  orphans-Keeps hdl names = Keeps->>= Keeps-get λ s.
      Keeps-if _ (Keeps-try (Keeps-call S.logs env _ refl) λ e. Keeps-status S.logs env hdl _ _)
        Keeps-done

  pub subscribe_params-Keeps :
      (hdl : ℕ) (names : List String) → Keeps P (subscribe_params env hdl names)
  unfolding subscribe_params change_subscribed
  subscribe_params-Keeps hdl names = Keeps->>= Keeps-get λ s.
      Keeps->>= (Keeps-update _ λ t p. S.parameters _ t p)
        λ _. Keeps-if _ (Keeps-call S.logs env _ refl) Keeps-done

  pub unsubscribe_params-Keeps :
      (hdl : ℕ) (names : List String) → Keeps P (unsubscribe_params env hdl names)
  unfolding unsubscribe_params change_subscribed
  unsubscribe_params-Keeps hdl names =
      Keeps->>= (Keeps-update _ λ t p. S.parameters _ t p) λ _. orphans-Keeps hdl names

  pub server_send-Keeps : (hdl : ℕ) (m : Message) → Keeps P (server_send env hdl m)
  unfolding server_send
  server_send-Keeps hdl m = record {
    kept = λ s p. elim (Bool-cases (env.reachable hdl s.log)) [
      | inl e ↦ rw e (S.logs (sent hdl m) refl s p)
      | inr e ↦ rw e p
    ];
  }

  pub update_connection_graph-Keeps :
      (published subscribed services : MapOfSets)
      → Keeps P (update_connection_graph env published subscribed services)
  unfolding update_connection_graph
  update_connection_graph-Keeps published subscribed services = Keeps->>= Keeps-get λ s.
      Keeps->>= (Keeps-update _ λ t p. S.published _ _ _ t p)
        λ _. Keeps-if _ Keeps-done (Keeps-for_each _ λ h. server_send-Keeps h _)
