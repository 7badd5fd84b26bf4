-- ===== src/Server/Session/Subscribing.antt =====
-- The rounds of handleSubscribe and handleUnsubscribe keep a property that does not speak of the log
-- and that withstands the change of the client.
use dora_foxglove.Prelude.{ℕ, ◌≡◌, refl, true, Option, none, some, is_some, Option-cases, inl, inr}
use dora_foxglove.Prelude.Maps.{Map, lookup}
use dora_foxglove.Server.Types.{
  Server, Env, ClientInfo, Channel, error, warning, subscription_id_used, channel_not_available,
  subscribe_call,
}
use dora_foxglove.Server.Effects.{◌>>◌, call}
use dora_foxglove.Server.Status.{change_client}
use dora_foxglove.Server.Keeps.{
  Keeps, Keeps->>=, Keeps-get_bind, Keeps-told, Keeps-status, Keeps-change_client, IgnoresAll,
  IgnoresAll-IgnoresLog,
}
use dora_foxglove.Server.Subscriptions.{
  find_by_sub_id, subscribe_found, subscribe_one, unsubscribe_one,
}
use dora_foxglove.Server.Session.Stable.{at_client, with_subscription, without_subscription}

module _ {P : Server → Type 0} (logs : IgnoresAll P) (env : Env) (hdl : ℕ)
    (subscribed : (channel_id sub_id : ℕ) (s : Server) (c : ClientInfo)
      → P s
      → lookup hdl s.clients ≡ some c
      → is_some (lookup channel_id s.channels) ≡ true
      → P (at_client hdl (with_subscription channel_id sub_id) s))
    (unsubscribed : (channel_id : ℕ) (s : Server) (c : ClientInfo)
      → P s
      → lookup hdl s.clients ≡ some c
      → P (at_client hdl (without_subscription channel_id) s))
    (snapshot : Map ℕ) where
  -- With a channel that is there, an entry for it may be added.
  accepted :
      (sub_id channel_id : ℕ)
      → Keeps
          (λ s. P s × (is_some (lookup channel_id s.channels) ≡ true))
          (call env (subscribe_call channel_id hdl)
            >> change_client hdl (with_subscription channel_id sub_id))
  accepted sub_id channel_id =
      Keeps->>= (Keeps-told env _ λ s p. (logs _ s p.0, p.1))
        λ _. Keeps-change_client hdl _ λ s c p e. (subscribed channel_id sub_id s c p.0 e p.1, p.1)

  found_kept :
      (sub_id channel_id : ℕ) (s : Server)
      → P s
      → (o : Option Channel) → lookup channel_id s.channels ≡ o
      → P (subscribe_found env hdl sub_id channel_id o s).1
  unfolding subscribe_found
  found_kept sub_id channel_id s p none e =
      (Keeps-status (IgnoresAll-IgnoresLog logs) env hdl warning
          (channel_not_available channel_id)).kept
        s p
  found_kept sub_id channel_id s p (some ch) e =
      ((accepted sub_id channel_id).kept s (p, rw e refl)).0

  pub plain-subscribes :
      (sub_id channel_id : ℕ) → Keeps P (subscribe_one env hdl snapshot sub_id channel_id)
  unfolding subscribe_one
  plain-subscribes sub_id channel_id = elim (Option-cases (find_by_sub_id sub_id snapshot)) [
    | inr (c, e) ↦
        rw (e, subscribe_one)
          (Keeps-status (IgnoresAll-IgnoresLog logs) env hdl error (subscription_id_used sub_id))
    | inl e ↦
        rw (e, subscribe_one)
          (Keeps-get_bind
            (λ s. subscribe_found env hdl sub_id channel_id (lookup channel_id s.channels))
            λ s p. found_kept sub_id channel_id s p (lookup channel_id s.channels) refl)
  ]

  pub plain-unsubscribes : (sub_id : ℕ) → Keeps P (unsubscribe_one env hdl snapshot sub_id)
  unfolding unsubscribe_one
  plain-unsubscribes sub_id = elim (Option-cases (find_by_sub_id sub_id snapshot)) [
    | inl e ↦ rw (e, unsubscribe_one) (Keeps-status (IgnoresAll-IgnoresLog logs) env hdl _ _)
    | inr (c, e) ↦
        rw (e, unsubscribe_one)
          (Keeps->>= (Keeps-told env _ (logs _))
            λ _. Keeps-change_client hdl _ λ s c' p e'. unsubscribed c s c' p e')
  ]
