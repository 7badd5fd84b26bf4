-- ===== src/Server/Session/Telling.antt =====
-- What the owner of the server has been told of the subscriptions by its handlers.
use dora_foxglove.Prelude.{
  ℕ, ◌≡◌, refl, Bool, true, false, List, [], ◌∷◌, none, some, ◌==◌, ◌&&◌, ◌||◌, arith,
  if◌then◌else◌, Bool-cases, inl, inr,
}
use mathlib.Core.Path.{subst}
use dora_foxglove.Prelude.Maps.{
  Map, lookup, lookup-erase, Every, Every-modify, Every-modify_but, Every-map_values,
}
use dora_foxglove.Server.Types.{
  Server, ClientInfo, Event, out_of_bounds_read, counter_overflow, sent, called, subscribe_call,
  unsubscribe_call, client_advertise_call, client_unadvertise_call, client_message_call,
  parameter_request_call, parameter_change_call, parameter_subscription_call, service_request_call,
  connection_graph_call, fetch_asset_call,
}
use dora_foxglove.Server.Effects.{logged}
use dora_foxglove.Server.Subscriptions.{unsubscribed_from}
use dora_foxglove.Server.Subscriptions.Invariant.{found_before_erasing}
use dora_foxglove.Server.Keeps.{is_subscription, IgnoresLog}
use dora_foxglove.Server.Session.Plain.{IsPlain}
use dora_foxglove.Server.Session.Stable.{at_client, without_channels, without_subscription}

-- Was the last call of the two handlers for the client and the channel one of subscribeHandler?
pub told : ℕ → ℕ → List Event → Bool
told hdl channel [] = false
told hdl channel (called (subscribe_call c h) ∷ log) =
    let before = told hdl channel log in if c == channel && h == hdl then true else before
told hdl channel (called (unsubscribe_call c h) ∷ log) =
    let before = told hdl channel log in if c == channel && h == hdl then false else before
told hdl channel (_ ∷ log) = told hdl channel log

told_other :
    (hdl channel : ℕ) (e : Event) (log : List Event)
    → is_subscription e ≡ false
    → told hdl channel (e ∷ log) ≡ told hdl channel log
unfolding told
told_other hdl channel out_of_bounds_read log h = refl
told_other hdl channel counter_overflow log h = refl
told_other hdl channel (sent k m) log h = refl
told_other hdl channel (called (subscribe_call c k)) log h = cc
told_other hdl channel (called (unsubscribe_call c k)) log h = cc
told_other hdl channel (called (client_advertise_call a k)) log h = refl
told_other hdl channel (called (client_unadvertise_call i k)) log h = refl
told_other hdl channel (called (client_message_call m k)) log h = refl
told_other hdl channel (called (parameter_request_call n i k)) log h = refl
told_other hdl channel (called (parameter_change_call n i k)) log h = refl
told_other hdl channel (called (parameter_subscription_call n o k)) log h = refl
told_other hdl channel (called (service_request_call r k)) log h = refl
told_other hdl channel (called (connection_graph_call b)) log h = refl
told_other hdl channel (called (fetch_asset_call u i k)) log h = refl

abbrev pub ToldOf : List Event → ℕ → ClientInfo → Type 0
ToldOf log hdl c = Every (λ channel sub_id. told hdl channel log ≡ true) c.subscriptions_by_channel

-- For every subscription of every client, the last call was one of subscribeHandler.
abbrev pub Told : Server → Type 0
Told s = Every (ToldOf s.log) s.clients

pub Told-logs : IgnoresLog Told
Told-logs e other s p hdl c there channel sub_id found =
    rw (told_other hdl channel e s.log other) (p hdl c there channel sub_id found)

told-subscribe_call :
    (hdl channel h j : ℕ) (log : List Event)
    → told h j log ≡ true
    → told h j (called (subscribe_call channel hdl) ∷ log) ≡ true
unfolding told
told-subscribe_call hdl channel h j log e = ground arith

told-subscribe_call_self :
    (hdl channel : ℕ) (log : List Event)
    → told hdl channel (called (subscribe_call channel hdl) ∷ log) ≡ true
unfolding told
told-subscribe_call_self hdl channel log = ground arith

told-unsubscribe_call :
    (hdl channel h j : ℕ) (log : List Event)
    → told h j log ≡ true
    → ((channel == j && hdl == h) || told h j (called (unsubscribe_call channel hdl) ∷ log)) ≡ true
unfolding told
told-unsubscribe_call hdl channel h j log e = ground arith

-- A handle of no client is none of those in the map.
absent_other :
    {V : Type 0} (hdl h : ℕ) (m : Map V) (v : V)
    → lookup hdl m ≡ none
    → lookup h m ≡ some v
    → (hdl == h) ≡ false
absent_other hdl h m v absent there = elim (Bool-cases (hdl == h)) [
  | inl same ↦
      let hdl≡h : hdl ≡ h = ground arith in cc (subst (λ k. lookup k m ≡ none) hdl≡h absent)
  | inr other ↦ other
]

-- A change of a client whose subscriptions stay among those that the owner was told of.
pub changed_client :
    (hdl : ℕ) (f : ClientInfo → ClientInfo) (s : Server)
    → Told s
    → ((c : ClientInfo) → lookup hdl s.clients ≡ some c → ToldOf s.log hdl (f c))
    → Told (at_client hdl f s)
changed_client hdl f s p h = Every-modify (ToldOf s.log) hdl f s.clients p h

pub Told-IsPlain : IsPlain Told
Told-IsPlain = record {
  plain_logs = Told-logs;
  counted = λ n s p. p;
  flagged = λ hdl b s c p e. changed_client hdl _ s p λ c' e'. p hdl c' e';
}

-- Between the call of subscribeHandler and the new entry.
abbrev pub Announced : ℕ → ℕ → Server → Type 0
Announced hdl channel s = Told s × (told hdl channel s.log ≡ true)

-- Between the call of unsubscribeHandler and the removal of the entry, which the owner does not
-- take for a subscription any more.
abbrev pub Withdrawn : ℕ → ℕ → Server → Type 0
Withdrawn hdl channel s =
    Every
      (λ h c.
        Every (λ j sub_id. ((channel == j && hdl == h) || told h j s.log) ≡ true)
          c.subscriptions_by_channel)
      s.clients

pub announced :
    (hdl channel : ℕ) (s : Server)
    → Told s
    → Announced hdl channel (logged (called (subscribe_call channel hdl)) s)
announced hdl channel s p = (
  λ h c there j sub_id found.
      told-subscribe_call hdl channel h j s.log (p h c there j sub_id found),
  told-subscribe_call_self hdl channel s.log,
)

pub withdrawn :
    (hdl channel : ℕ) (s : Server)
    → Told s
    → Withdrawn hdl channel (logged (called (unsubscribe_call channel hdl)) s)
withdrawn hdl channel s p h c there j sub_id found =
    told-unsubscribe_call hdl channel h j s.log (p h c there j sub_id found)

-- Without the client there is nothing to remove.
pub Withdrawn-absent :
    (hdl channel : ℕ) (s : Server) → Withdrawn hdl channel s → lookup hdl s.clients ≡ none → Told s
Withdrawn-absent hdl channel s p absent h c there j sub_id found =
    let other = absent_other hdl h s.clients c absent there in
    let either = p h c there j sub_id found in ground arith

pub Withdrawn-removed :
    (hdl channel : ℕ) (s : Server)
    → Withdrawn hdl channel s
    → Told (at_client hdl (without_subscription channel) s)
Withdrawn-removed hdl channel s p =
    Every-modify_but (ToldOf s.log) hdl _ s.clients
      (λ h c other there j sub_id found. let either = p h c there j sub_id found in ground arith)
      λ c there j sub_id found. elim (Bool-cases (channel == j)) [
        | inl same ↦ cc (rw (lookup-erase, same) at found)
        | inr other ↦
            let either = p hdl c there j sub_id (rw (lookup-erase, other) at found) in ground arith
      ]

pub Told-dropped : (ks : List ℕ) (s : Server) → Told s → Told (without_channels ks s)
Told-dropped ks s p = Every-map_values (ToldOf s.log) (unsubscribed_from ks) s.clients λ h c e.
    λ channel sub_id found.
      p h c e channel sub_id
        (found_before_erasing ks c.subscriptions_by_channel channel sub_id found)
