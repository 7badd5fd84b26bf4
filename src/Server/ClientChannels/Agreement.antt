-- ===== src/Server/ClientChannels/Agreement.antt =====
-- What a client has advertised stands in `advertisedChannels` of its entry and in
-- `_clientChannels` alike, and each change of the
-- server keeps it so.
use dora_foxglove.Prelude.{
  ℕ, ◌≡◌, refl, true, false, List, [], ◌∷◌, Option, none, some, ◌==◌, ◌||◌, is_some, arith,
  Option-cases, Bool-cases, inl, inr, if◌then◌else◌,
}
use mathlib.Core.Path.{subst}
use dora_foxglove.Prelude.Maps.{
  Map, lookup, emplace, erase, modify, or_else, lookup-emplace, lookup-erase, lookup-modify,
  lookup-modify_self, lookup-map_values, lookup-emplace_new, lookup-erase_self,
}
use dora_foxglove.Server.Types.{Server, ClientInfo, ClientAdvertisement}
use dora_foxglove.Server.ClientChannels.{member, include, exclude}
use dora_foxglove.Server.Connections.{new_client}
use dora_foxglove.Server.Session.Stable.{
  at_client, at_channels, with_advertised, without_advertised, without_channels,
}

-- The ids in the entry of a client, none for a client that is not there.
abbrev pub advertised_by : Option ClientInfo → List ℕ
advertised_by none = []
advertised_by (some c) = c.advertised_channels

abbrev pub Agree : Option ClientInfo → Option (Map ClientAdvertisement) → Type 0
Agree c m = (id : ℕ) → member id (advertised_by c) ≡ is_some (lookup id (or_else m []))

abbrev pub ChannelsAgree : Server → Type 0
ChannelsAgree s = (hdl : ℕ) → Agree (lookup hdl s.clients) (lookup hdl s.client_channels)

member-include : (id k : ℕ) (js : List ℕ) → member id (include k js) ≡ ((id == k) || member id js)
unfolding include member
member-include id k js = elim (Bool-cases (member k js)) [
  | inl e ↦ ground arith
  | inr e ↦ ground arith
]

member-exclude :
    (id k : ℕ) (js : List ℕ) → member id (exclude k js) ≡ (if id == k then false else member id js)
unfolding exclude member
member-exclude id k [] = ground arith
member-exclude id k (j ∷ js) = ground (arith, member-exclude id k js)

module _ (js : List ℕ) (m : Map ClientAdvertisement) where
  agree_add :
      (k : ℕ) (a : ClientAdvertisement)
      → ((id : ℕ) → member id js ≡ is_some (lookup id m))
      → (id : ℕ) → member id (include k js) ≡ is_some (lookup id (emplace k a m))
  agree_add k a h id = rw (member-include, lookup-emplace) ground (arith, h id)

  agree_remove :
      (k : ℕ)
      → ((id : ℕ) → member id js ≡ is_some (lookup id m))
      → (id : ℕ) → member id (exclude k js) ≡ is_some (lookup id (erase k m))
  agree_remove k h id = rw (member-exclude, lookup-erase) ground (arith, h id)

abbrev pub AllAgree : Map ClientInfo → Map (Map ClientAdvertisement) → Type 0
AllAgree clients channels = (hdl : ℕ) → Agree (lookup hdl clients) (lookup hdl channels)

-- A change of the entries of one client, behind which they agree.
module _ (k : ℕ) (clients clients' : Map ClientInfo)
    (channels channels' : Map (Map ClientAdvertisement)) where
  Agree-at :
      ((j : ℕ) → (k == j) ≡ false → lookup j clients' ≡ lookup j clients)
      → ((j : ℕ) → (k == j) ≡ false → lookup j channels' ≡ lookup j channels)
      → AllAgree clients channels
      → Agree (lookup k clients') (lookup k channels')
      → AllAgree clients' channels'
  Agree-at same_client same_channels p new j = elim (Bool-cases (k == j)) [
    | inl e ↦
        let k≡j : k ≡ j = ground arith in
        subst (λ i. Agree (lookup i clients') (lookup i channels')) k≡j new
    | inr e ↦ rw (same_client j e, same_channels j e) (p j)
  ]

module _ {V : Type 0} (k : ℕ) (m : Map V) (j : ℕ) (e : (k == j) ≡ false) where
  other-modify : (f : V → V) → lookup j (modify k f m) ≡ lookup j m
  other-modify f = rw (lookup-modify, e) refl

  other-emplace : (v : V) → lookup j (emplace k v m) ≡ lookup j m
  other-emplace v = rw (lookup-emplace, e) refl

  other-erase : lookup j (erase k m) ≡ lookup j m
  other-erase = rw (lookup-erase, e) refl

lookup-modify_missing :
    {V : Type 0} (k : ℕ) (f : V → V) (m : Map V)
    → lookup k m ≡ none
    → lookup k (modify k f m) ≡ none
lookup-modify_missing k f m e = elim (Bool-cases (k == k)) [
  | inl same ↦ rw (lookup-modify, same, e) refl
  | inr other ↦ rw (lookup-modify, other) e
]

emplace_old :
    {V : Type 0} (k : ℕ) (v w : V) (m : Map V)
    → lookup k m ≡ some w
    → lookup k (emplace k v m) ≡ some w
unfolding emplace
emplace_old k v w m e = rw (e, emplace) e

-- The entries of a client that is there.
Agree-here :
    (k : ℕ) (s : Server) (c : ClientInfo)
    → lookup k s.clients ≡ some c
    → ChannelsAgree s
    → Agree (some c) (lookup k s.client_channels)
Agree-here k s c e p = subst (λ o. Agree o (lookup k s.client_channels)) e (p k)

-- A client whose advertised channels are the same ones.
pub agree_same :
    (k : ℕ) (f : ClientInfo → ClientInfo) (s : Server) (c : ClientInfo)
    → ((c : ClientInfo) → (f c).advertised_channels ≡ c.advertised_channels)
    → lookup k s.clients ≡ some c
    → ChannelsAgree s
    → ChannelsAgree (at_client k f s)
agree_same k f s c same e p =
    Agree-at k s.clients (modify k f s.clients) s.client_channels s.client_channels
      (λ j e'. other-modify k s.clients j e' f) (λ j e'. refl) p
      λ id. rw (lookup-modify_self k f s.clients c e, same c) (Agree-here k s c e p id)

pub agree-registered :
    (k : ℕ) (a : ClientAdvertisement) (s : Server) (c : ClientInfo)
    → ChannelsAgree s
    → lookup k s.clients ≡ some c
    → is_some (lookup k s.client_channels) ≡ true
    → ChannelsAgree
        (at_channels k (emplace a.channel_id a) (at_client k (with_advertised a.channel_id) s))
agree-registered k a s c p e there =
    Agree-at k s.clients (modify k (with_advertised a.channel_id) s.clients) s.client_channels
      (modify k (emplace a.channel_id a) s.client_channels)
      (λ j e'. other-modify k s.clients j e' _) (λ j e'. other-modify k s.client_channels j e' _) p
      (elim (Option-cases (lookup k s.client_channels)) [
        | inl e' ↦ cc (rw e' at there)
        | inr (m, e') ↦
            rw
              (
                lookup-modify_self k (with_advertised a.channel_id) s.clients c e,
                lookup-modify_self k (emplace a.channel_id a) s.client_channels m e',
              )
              (agree_add c.advertised_channels m a.channel_id a
                (subst (λ o. Agree (some c) o) e' (Agree-here k s c e p)))
      ])

pub agree-unregistered :
    (k id : ℕ) (s : Server) (c : ClientInfo)
    → ChannelsAgree s
    → lookup k s.clients ≡ some c
    → ChannelsAgree (at_channels k (erase id) (at_client k (without_advertised id) s))
unfolding erase
agree-unregistered k id s c p e =
    Agree-at k s.clients (modify k (without_advertised id) s.clients) s.client_channels
      (modify k (erase id) s.client_channels) (λ j e'. other-modify k s.clients j e' _)
      (λ j e'. other-modify k s.client_channels j e' _) p
      (elim (Option-cases (lookup k s.client_channels)) [
        | inl e' ↦
            rw
              (
                lookup-modify_self k (without_advertised id) s.clients c e,
                lookup-modify_missing k (erase id) s.client_channels e',
              )
              (agree_remove c.advertised_channels [] id
                (subst (λ o. Agree (some c) o) e' (Agree-here k s c e p)))
        | inr (m, e') ↦
            rw
              (
                lookup-modify_self k (without_advertised id) s.clients c e,
                lookup-modify_self k (erase id) s.client_channels m e',
              )
              (agree_remove c.advertised_channels m id
                (subst (λ o. Agree (some c) o) e' (Agree-here k s c e p)))
      ])

-- A new map of channels is empty, and takes the place of none.
pub agree-opened_channels :
    (k : ℕ) (s : Server)
    → ChannelsAgree s
    → ChannelsAgree (record s { client_channels = emplace k [] s.client_channels })
agree-opened_channels k s p =
    Agree-at k s.clients s.clients s.client_channels (emplace k [] s.client_channels) (λ j e'. refl)
      (λ j e'. other-emplace k s.client_channels j e' _) p
      λ id. elim (Option-cases (lookup k s.client_channels)) [
        | inl e ↦ let h = p k id in rw (lookup-emplace_new k [] s.client_channels e) (rw e at h)
        | inr (m, e) ↦ let h = p k id in rw (emplace_old k [] m s.client_channels e) (rw e at h)
      ]

pub agree-opened :
    (k : ℕ) (s : Server)
    → ChannelsAgree s
    → ChannelsAgree (record s { clients = emplace k new_client s.clients })
agree-opened k s p =
    Agree-at k s.clients (emplace k new_client s.clients) s.client_channels s.client_channels
      (λ j e'. other-emplace k s.clients j e' _) (λ j e'. refl) p
      λ id. elim (Option-cases (lookup k s.clients)) [
        | inl e ↦ let h = p k id in rw (lookup-emplace_new k new_client s.clients e) (rw e at h)
        | inr (c, e) ↦ let h = p k id in rw (emplace_old k new_client c s.clients e) (rw e at h)
      ]

pub agree-dropped :
    (ks : List ℕ) (s : Server) → ChannelsAgree s → ChannelsAgree (without_channels ks s)
agree-dropped ks s p hdl id = elim (Option-cases (lookup hdl s.clients)) [
  | inl e ↦ let h = p hdl id in rw (lookup-map_values, e) (rw e at h)
  | inr (c, e) ↦ let h = p hdl id in rw (lookup-map_values, e) (rw e at h)
]

-- Between the removal of a client and that of its channels, the entries agree without them.
abbrev pub Removing : ℕ → Server → Type 0
Removing hdl s = AllAgree s.clients (erase hdl s.client_channels)

Agree-none : Agree none none
unfolding member lookup
Agree-none id = refl

pub agree-removed :
    (hdl : ℕ) (s : Server)
    → ChannelsAgree s
    → AllAgree (erase hdl s.clients) (erase hdl s.client_channels)
agree-removed hdl s p =
    Agree-at hdl s.clients (erase hdl s.clients) s.client_channels (erase hdl s.client_channels)
      (λ j e. other-erase hdl s.clients j e) (λ j e. other-erase hdl s.client_channels j e) p
      λ id.
        rw (lookup-erase_self hdl s.clients, lookup-erase_self hdl s.client_channels)
          (Agree-none id)
