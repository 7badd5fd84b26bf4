-- ===== src/Server/Subscriptions/Fresh.antt =====
-- The ids that addChannels gives, while the 32 bits of _nextChannelId last.
use dora_foxglove.Prelude.{
  ℕ, ◌+◌, ◌<◌, ◌≤◌, ◌^◌, ◌≡◌, refl, ap, List, [], ◌∷◌, length, Option, some, Result, ok, err, ◌∙◌,
  arith, ◌==◌, if◌then◌else◌, Bool-cases, Option-cases, inl, inr,
}
use dora_foxglove.Prelude.Maps.{lookup, emplace, lookup-emplace, Every, Every-emplace}
use dora_foxglove.Server.Types.{Server, Env, Exn, Channel, ChannelWithoutId, Message, advertise}
use dora_foxglove.Server.Effects.{M, and_then, ◌>>◌, for_each, send, ◌>>=◌, return}
use dora_foxglove.Server.Status.{broadcast, handles}
use dora_foxglove.Server.Keeps.{IgnoresLog, Keeps-broadcast}
use dora_foxglove.Server.Subscriptions.{register, ids, add_channels, next_id}

-- No channel has an id above the last one that was given.
abbrev pub IdsGiven : Server → Type 0
IdsGiven s = Every (λ id channel. id ≤ s.next_channel_id) s.channels

-- The channels under the ids behind `n`, in order.
abbrev pub numbered : ℕ → List ChannelWithoutId → List Channel
numbered n [] = []
numbered n (c ∷ cs) = record { id = n + 1; without_id = c } ∷ numbered (n + 1) cs

-- The channel of the list with the id, or else the one that was there.
unfoldable pub added_or : ℕ → List Channel → Option Channel → Option Channel
added_or id [] before = before
added_or id (c ∷ cs) before = if c.id == id then some c else added_or id cs before

added_or-numbered :
    (cs : List ChannelWithoutId) (n id : ℕ) (before : Option Channel)
    → id ≤ n
    → added_or id (numbered n cs) before ≡ before
unfolding added_or
added_or-numbered [] n id before h = refl
added_or-numbered (c ∷ cs) n id before h =
    ground (arith, added_or-numbered cs (n + 1) id before (omega arith))

next_id-below : (n : ℕ) → n + 1 < 2 ^ 32 → next_id n ≡ n + 1
next_id-below n h = ground arith

-- The members when a channel has been registered.
abbrev with_channel : ChannelWithoutId → Server → Server
with_channel c s = record s {
  next_channel_id = s.next_channel_id + 1;
  channels =
      emplace (s.next_channel_id + 1) (record { id = s.next_channel_id + 1; without_id = c })
        s.channels;
}

abbrev registered_first : ChannelWithoutId → ℕ → List Channel × Server → List Channel × Server
registered_first c id (rest, s) = (record { id = id; without_id = c } ∷ rest, s)

module _ (c : ChannelWithoutId) (cs : List ChannelWithoutId) (s : Server) where
  register-below :
      s.next_channel_id + 1 < 2 ^ 32
      → register (c ∷ cs) s
        ≡ registered_first c (s.next_channel_id + 1) (register cs (with_channel c s))
  unfolding register
  register-below h = rw (next_id-below s.next_channel_id h) refl

  with_channel-IdsGiven : IdsGiven s → IdsGiven (with_channel c s)
  with_channel-IdsGiven given =
      Every-emplace (λ id channel. id ≤ s.next_channel_id + 1) (s.next_channel_id + 1)
        (record { id = s.next_channel_id + 1; without_id = c }) s.channels
        (λ id channel e. let h = given id channel e in omega arith) (omega arith)

  -- A channel that is found now is the new one or was there.
  with_channel-lookup :
      (id : ℕ)
      → IdsGiven s
      → added_or id (numbered (s.next_channel_id + 1) cs) (lookup id (with_channel c s).channels)
        ≡ added_or id (numbered s.next_channel_id (c ∷ cs)) (lookup id s.channels)
  unfolding added_or
  with_channel-lookup id given = elim (Bool-cases (s.next_channel_id + 1 == id)) [
    | inl same ↦ elim (Option-cases (lookup id s.channels)) [
      | inl e ↦
          rw
            (
              lookup-emplace,
              same,
              e,
              added_or-numbered cs (s.next_channel_id + 1) id _ (ground arith),
            )
            refl
      | inr (channel, e) ↦ let h = given id channel e in ground arith
    ]
    | inr other ↦ rw (lookup-emplace, other) refl
  ]

register_none : (s : Server) → register [] s ≡ ([], s)
unfolding register
register_none s = refl

register-numbered :
    (cs : List ChannelWithoutId) (s : Server)
    → s.next_channel_id + length cs < 2 ^ 32
    → (register cs s).0 ≡ numbered s.next_channel_id cs
register-numbered [] s h = rw (register_none s) refl
register-numbered (c ∷ cs) s h =
    rw (register-below c cs s (omega arith), register-numbered cs (with_channel c s) (omega arith))
      refl

register-channels :
    (cs : List ChannelWithoutId) (s : Server)
    → s.next_channel_id + length cs < 2 ^ 32
    → IdsGiven s
    → IdsGiven (register cs s).1
      × ((id : ℕ)
          → lookup id (register cs s).1.channels
            ≡ added_or id (numbered s.next_channel_id cs) (lookup id s.channels))
unfolding added_or
register-channels [] s h given = rw (register_none s) (given, λ id. refl)
register-channels (c ∷ cs) s h given =
    let (kept, found) =
      register-channels cs (with_channel c s) (omega arith) (with_channel-IdsGiven c cs s given) in
    rw (register-below c cs s (omega arith))
      (kept, λ id. found id ∙ with_channel-lookup c cs s id given)

module _ (env : Env) (m : Message) where
  -- To send does not throw, nor does it change a channel.
  for_each-send : (hdls : List ℕ) (s : Server) → (for_each hdls (λ h. send env h m) s).0 ≡ ok tt
  unfolding for_each send
  for_each-send [] s = refl
  for_each-send (h ∷ hdls) s = elim (Bool-cases (env.reachable h s.log)) [
    | inl e ↦ rw (e, for_each-send hdls _) refl
    | inr e ↦ rw (e, for_each-send hdls s) refl
  ]

  broadcast_returns : (s : Server) → (broadcast env m s).0 ≡ ok tt
  unfolding broadcast
  broadcast_returns s = for_each-send (handles s.clients) s

-- Behind a method that has returned nothing.
returned_nothing :
    {A : Type 0} (f : Unit {0} → M A) (r : Result Exn (Unit {0}) × Server)
    → r.0 ≡ ok tt
    → and_then r f ≡ f tt r.1
returned_nothing f (ok a, t) e = refl
returned_nothing f (err x, t) e = cc

announced :
    (P : Server → Type 0)
    → IgnoresLog P
    → (env : Env) (m : Message) (added : List ℕ) (t : Server) → P t
    → let (r, u) = (broadcast env m >> return added) t in (r ≡ ok added) × P u
unfolding ◌>>=◌ return
announced P free env m added t p =
    rw (returned_nothing _ (broadcast env m t) (broadcast_returns env m t))
      (refl, (Keeps-broadcast free env m).kept t p)

-- addChannels, on a server that has no channel with an id above the last one that it gave and whose
-- ids do not wrap around with the new channels, returns the next ids in order. From then on the
-- server has the new channels under these ids, and each other channel as it was; no channel has an
-- id above the last one given. Whether the clients can be reached makes no difference.
pub add_channels-IdsGiven :
    (env : Env) (cs : List ChannelWithoutId) (s : Server)
    → s.next_channel_id + length cs < 2 ^ 32
    → IdsGiven s
    → let (r, t) = add_channels env cs s in
      (r ≡ ok (ids (numbered s.next_channel_id cs)))
      × IdsGiven t
      × ((id : ℕ)
          → lookup id t.channels
            ≡ added_or id (numbered s.next_channel_id cs) (lookup id s.channels))
unfolding add_channels return added_or
add_channels-IdsGiven env [] s h given = (refl, given, λ id. refl)
add_channels-IdsGiven env (c ∷ cs) s h given =
    let (back, rest) =
      announced
        (λ t.
          IdsGiven t
          × ((id : ℕ)
              → lookup id t.channels
                ≡ added_or id (numbered s.next_channel_id (c ∷ cs)) (lookup id s.channels)))
        (λ e other t p. p) env (advertise (register (c ∷ cs) s).0) (ids (register (c ∷ cs) s).0)
        (register (c ∷ cs) s).1 (register-channels (c ∷ cs) s h given) in
    (back ∙ ap (λ added. ok (ids added)) (register-numbered (c ∷ cs) s h), rest.0, rest.1)
