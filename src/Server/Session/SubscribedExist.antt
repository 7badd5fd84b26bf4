-- ===== src/Server/Session/SubscribedExist.antt =====
-- In every session: a client is subscribed only to channels that the server has.
use dora_foxglove.Prelude.{
  ℕ, ◌≡◌, refl, true, List, some, ◌==◌, is_some, inl, inr, Option-cases, Bool-cases,
}
use dora_foxglove.Prelude.Maps.{
  Map, lookup, emplace, lookup-emplace, Every-modify, Every-emplace, Every-erase, Every-none,
}
use dora_foxglove.Server.Types.{Server, Env, ClientInfo, Channel, ChannelWithoutId}
use dora_foxglove.Server.Payload.{JsonLib}
use dora_foxglove.Server.Subscriptions.{next_id}
use dora_foxglove.Server.Subscriptions.Invariant.{
  SubscribedExist, ToChannels, dropped-SubscribedExist,
}
use dora_foxglove.Server.Session.{Action, run, new_server}
use dora_foxglove.Server.Session.Stable.{
  IsStable, at_client, with_registered, with_subscription, without_subscription,
}
use dora_foxglove.Server.Session.Plain.{IsPlain, plain-joins, plain-leaves, plain-closes}
use dora_foxglove.Server.Session.Subscribing.{plain-subscribes, plain-unsubscribes}
use dora_foxglove.Server.Session.Runs.{run-stable}

-- A channel that is registered does not replace any.
registered-SubscribedExist :
    (c : ChannelWithoutId) (s : Server) → SubscribedExist s → SubscribedExist (with_registered c s)
registered-SubscribedExist c s p hdl client e channel sub_id found =
    there (next_id s.next_channel_id) (record { id = next_id s.next_channel_id; without_id = c })
      s.channels channel (p hdl client e channel sub_id found)
  where
    there :
        (k : ℕ) (v : Channel) (m : Map Channel) (j : ℕ)
        → is_some (lookup j m) ≡ true
        → is_some (lookup j (emplace k v m)) ≡ true
    there k v m j h = elim (Option-cases (lookup j m)) [
      | inl e ↦ cc (rw e at h)
      | inr (w, e) ↦ elim (Bool-cases (k == j)) [
        | inl same ↦ rw (lookup-emplace, same) refl
        | inr other ↦ rw (lookup-emplace, other) h
      ]
    ]

-- A change of a client whose subscriptions stay among the channels.
changed_client :
    (hdl : ℕ) (f : ClientInfo → ClientInfo) (s : Server)
    → SubscribedExist s
    → ((c : ClientInfo) → lookup hdl s.clients ≡ some c → ToChannels s.channels hdl (f c))
    → SubscribedExist (at_client hdl f s)
changed_client hdl f s p h = Every-modify (ToChannels s.channels) hdl f s.clients p h

SubscribedExist-IsPlain : IsPlain SubscribedExist
SubscribedExist-IsPlain = record {
  plain_logs = λ e other s p. p;
  counted = λ n s p. p;
  flagged = λ hdl b s c p e. changed_client hdl _ s p λ c' e'. p hdl c' e';
}

exist-subscribed :
    (hdl channel_id sub_id : ℕ) (s : Server) (c : ClientInfo)
    → SubscribedExist s
    → lookup hdl s.clients ≡ some c
    → is_some (lookup channel_id s.channels) ≡ true
    → SubscribedExist (at_client hdl (with_subscription channel_id sub_id) s)
exist-subscribed hdl channel_id sub_id s c p e there =
    changed_client hdl _ s p
      λ c' e'. Every-emplace _ channel_id sub_id c'.subscriptions_by_channel (p hdl c' e') there

exist-unsubscribed :
    (hdl channel_id : ℕ) (s : Server) (c : ClientInfo)
    → SubscribedExist s
    → lookup hdl s.clients ≡ some c
    → SubscribedExist (at_client hdl (without_subscription channel_id) s)
exist-unsubscribed hdl channel_id s c p e =
    changed_client hdl _ s p
      λ c' e'. Every-erase _ channel_id c'.subscriptions_by_channel (p hdl c' e')

SubscribedExist-IsStable : (env : Env) → IsStable env SubscribedExist
SubscribedExist-IsStable env = record {
  logs = λ e other s p. p;
  registered = registered-SubscribedExist;
  dropped = dropped-SubscribedExist;
  opened_channels = λ hdl s p. p;
  advertised = λ hdl a s c p e there. changed_client hdl _ s p λ c' e'. p hdl c' e';
  unadvertised = λ hdl id s c p e. changed_client hdl _ s p λ c' e'. p hdl c' e';
  parameters = λ m s p. p;
  services = λ n m s p. p;
  warned = λ w s p. p;
  published = λ t u v s p. p;
  opened = λ hdl s p. Every-emplace (ToChannels s.channels) hdl _ s.clients p (Every-none _);
  subscribes =
      λ hdl. plain-subscribes (λ e s p. p) env hdl (exist-subscribed hdl) (exist-unsubscribed hdl);
  unsubscribes = λ hdl.
      plain-unsubscribes (λ e s p. p) env hdl (exist-subscribed hdl) (exist-unsubscribed hdl);
  closes = λ hdl.
      plain-closes SubscribedExist-IsPlain env hdl (λ e s p. p)
        (λ s p. Every-erase (ToChannels s.channels) hdl s.clients p) (λ s p. p) (λ m s p. p);
  joins = plain-joins SubscribedExist-IsPlain env;
  leaves = plain-leaves SubscribedExist-IsPlain env;
}

module _ (J : JsonLib) (env : Env) where
  -- Whatever the clients send, the handlers do and the owner calls, stop included, in any order and also behind a
  -- call that throws: at every moment of a session every client is subscribed only to channels that
  -- the server has.
  pub run-SubscribedExist : (actions : List Action) → SubscribedExist (run J env actions new_server)
  run-SubscribedExist actions =
      run-stable (SubscribedExist-IsStable env) J (λ s p. Every-none _) actions new_server
        (Every-none _)
