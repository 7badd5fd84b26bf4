-- ===== src/Server/Subscriptions/Invariant.antt =====
-- A client is subscribed only to channels that the server has.
use dora_foxglove.Prelude.{
  ℕ, ◌≡◌, refl, true, List, [], ◌∷◌, some, ◌==◌, is_some, inl, inr, Option-cases, Bool-cases,
}
use dora_foxglove.Prelude.Maps.{
  Map, lookup, erase, map_values, lookup-erase, Every, Every-erase, Every-map_values,
}
use dora_foxglove.Server.Types.{Server, ClientInfo, Channel}
use dora_foxglove.Server.Subscriptions.{erase_all, unsubscribed_from}

-- The subscriptions of a client are to channels of the map.
abbrev pub ToChannels : Map Channel → ℕ → ClientInfo → Type 0
ToChannels channels hdl c =
    Every (λ channel sub_id. is_some (lookup channel channels) ≡ true) c.subscriptions_by_channel

-- Every channel in the subscriptions of every client is in `_channels`.
abbrev pub SubscribedExist : Server → Type 0
SubscribedExist s = Every (ToChannels s.channels) s.clients

-- A key that is found behind an erasure was there before, and is none of the erased.
pub found_before_erasing :
    {V : Type 0} (ks : List ℕ) (m : Map V) (k : ℕ) (v : V)
    → lookup k (erase_all ks m) ≡ some v
    → lookup k m ≡ some v
found_before_erasing [] m k v e = e
found_before_erasing (j ∷ ks) m k v e =
    Every-erase (λ i w. lookup i m ≡ some w) j m (λ i w e'. e') k v
      (found_before_erasing ks (erase j m) k v e)

-- Two maps with a key in common still have it in common when the same keys have gone.
erase_all_common :
    {V W : Type 0} (ks : List ℕ) (m : Map V) (n : Map W) (k : ℕ)
    → (is_some (lookup k m) ≡ true → is_some (lookup k n) ≡ true)
    → is_some (lookup k (erase_all ks m)) ≡ true
    → is_some (lookup k (erase_all ks n)) ≡ true
erase_all_common [] m n k h e = h e
erase_all_common (j ∷ ks) m n k h e = erase_all_common ks (erase j m) (erase j n) k step e
  where
    step : is_some (lookup k (erase j m)) ≡ true → is_some (lookup k (erase j n)) ≡ true
    step found = elim (Bool-cases (j == k)) [
      | inl same ↦ cc (rw (lookup-erase, same) at found)
      | inr other ↦ rw (lookup-erase, other) (h (rw (lookup-erase, other) at found))
    ]

-- The clients lose their subscriptions with the channels.
pub dropped-SubscribedExist :
    (ks : List ℕ) (s : Server)
    → SubscribedExist s
    → SubscribedExist (record s {
      channels = erase_all ks s.channels;
      clients = map_values (unsubscribed_from ks) s.clients;
    })
dropped-SubscribedExist ks s p =
    Every-map_values (ToChannels (erase_all ks s.channels)) (unsubscribed_from ks) s.clients
      λ hdl c e. λ channel sub_id found.
        erase_all_common ks c.subscriptions_by_channel s.channels channel
          (λ had. elim (Option-cases (lookup channel c.subscriptions_by_channel)) [
            | inl e' ↦ cc (rw e' at had)
            | inr (id, e') ↦ p hdl c e channel id e'
          ])
          (rw found refl)
