-- ===== src/Server/Connections/Late.antt =====
-- A message that is still in the queue when its client's connection closes.
use dora_foxglove.Prelude.{
  ℕ, ◌≡◌, refl, ◌∙◌, true, List, none, String, ok, is_some, Bool-cases, inl, inr, ◌==◌, arith,
}
use dora_foxglove.Prelude.Maps.{Map, lookup, assign, lookup-assign}
use dora_foxglove.Server.Types.{Server, Env, Event}
use dora_foxglove.Server.Effects.{◌>>=◌, get, update, done, logged}
use dora_foxglove.Server.Keeps.{IgnoresAll-IgnoresLog, Keeps-call, Keeps-if, Keeps-done}
use dora_foxglove.Server.Running.{get_bind, on_none}
use dora_foxglove.Server.Parameters.{
  subscribe_params, change_subscribed, unsubscribed_names, non_empty,
}
use dora_foxglove.Server.Connections.{handle_connection_closed}

-- There is no client, but its parameters are kept.
abbrev Leaked : ℕ → Server → Type 0
Leaked hdl s =
    (lookup hdl s.clients ≡ none) × (is_some (lookup hdl s.client_param_subscriptions) ≡ true)

assigned : {V : Type 0} (k : ℕ) (v : V) (m : Map V) → is_some (lookup k (assign k v m)) ≡ true
assigned k v m = elim (Bool-cases (k == k)) [
  | inl same ↦ rw (lookup-assign, same) refl
  | inr other ↦ ground arith
]

subscribe_params-Leaked :
    (env : Env) (hdl : ℕ) (names : List String) (s : Server)
    → lookup hdl s.clients ≡ none
    → Leaked hdl (subscribe_params env hdl names s).1
unfolding subscribe_params change_subscribed ◌>>=◌ get update
subscribe_params-Leaked env hdl names s gone =
    (Keeps-if {P = Leaked hdl} (non_empty (unsubscribed_names names s))
        (Keeps-call (IgnoresAll-IgnoresLog free) env _ refl) Keeps-done).kept
      _ (gone, assigned hdl _ s.client_param_subscriptions)
  where
    free : (e : Event) (s : Server) → Leaked hdl s → Leaked hdl (logged e s)
    free e s p = p

-- A subscription to parameters that is handled when its client has gone leaves an entry for the
-- client, and closing the connection once more does nothing: the entry stays.
pub late_subscription_stays :
    (env : Env) (hdl : ℕ) (names : List String) (s : Server)
    → lookup hdl s.clients ≡ none
    → (is_some (lookup hdl (subscribe_params env hdl names s).1.client_param_subscriptions) ≡ true)
      × (handle_connection_closed env hdl (subscribe_params env hdl names s).1
          ≡ (ok tt, (subscribe_params env hdl names s).1))
unfolding handle_connection_closed done
late_subscription_stays env hdl names s gone =
    let leaked : Leaked hdl (subscribe_params env hdl names s).1 =
      subscribe_params-Leaked env hdl names s gone in
    (
      leaked.1,
      get_bind _ _
          ∙ on_none _ _ _ (lookup hdl (subscribe_params env hdl names s).1.clients) leaked.0,
    )
