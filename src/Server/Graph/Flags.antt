-- ===== src/Server/Graph/Flags.antt =====
-- How many clients are flagged as subscribers of the connection graph.
use dora_foxglove.Prelude.{ℕ, ◌+◌, ◌≤◌, ◌≡◌, refl, true, false, [], ◌∷◌, some, length, arith}
use dora_foxglove.Prelude.Maps.{Map, lookup, emplace, erase, modify, map_values}
use dora_foxglove.Server.Types.{ClientInfo}
use dora_foxglove.Server.Graph.{graph_subscribers, flag}

-- The number of clients that are flagged.
abbrev pub flags : Map ClientInfo → ℕ
flags m = length (graph_subscribers m)

module _ (k : ℕ) where
  pub flags-modify :
      (f : ClientInfo → ClientInfo) (m : Map ClientInfo)
      → ((c : ClientInfo) → (f c).subscribed_to_connection_graph ≡ c.subscribed_to_connection_graph)
      → flags (modify k f m) ≡ flags m
  unfolding modify
  flags-modify f [] h = refl
  flags-modify f ((j, c) ∷ m) h = ground (arith, h c, flags-modify f m h)

  pub flags-modify_on : (m : Map ClientInfo) → flags (modify k (flag true) m) ≤ flags m + 1
  unfolding modify
  flags-modify_on [] = omega arith
  flags-modify_on ((j, c) ∷ m) = ground (arith, flags-modify_on m)

  pub flags-modify_off :
      (m : Map ClientInfo) (c : ClientInfo)
      → lookup k m ≡ some c
      → c.subscribed_to_connection_graph ≡ true
      → flags (modify k (flag false) m) + 1 ≡ flags m
  unfolding modify lookup
  flags-modify_off [] c e t = cc
  flags-modify_off ((j, d) ∷ m) c e t = ground (arith, flags-modify_off m c)

  pub flags-erase : (m : Map ClientInfo) → flags (erase k m) ≤ flags m
  unfolding erase
  flags-erase [] = omega arith
  flags-erase ((j, c) ∷ m) = ground (arith, flags-erase m)

  pub flags-erase_flagged :
      (m : Map ClientInfo) (c : ClientInfo)
      → lookup k m ≡ some c
      → c.subscribed_to_connection_graph ≡ true
      → flags (erase k m) + 1 ≤ flags m
  unfolding erase lookup
  flags-erase_flagged [] c e t = cc
  flags-erase_flagged ((j, d) ∷ m) c e t = ground (arith, flags-erase_flagged m c, flags-erase m)

  pub flags-emplace :
      (c : ClientInfo) (m : Map ClientInfo)
      → c.subscribed_to_connection_graph ≡ false
      → flags (emplace k c m) ≡ flags m
  unfolding emplace
  flags-emplace c m e = ground arith

pub flags-map_values :
    (f : ClientInfo → ClientInfo) (m : Map ClientInfo)
    → ((c : ClientInfo) → (f c).subscribed_to_connection_graph ≡ c.subscribed_to_connection_graph)
    → flags (map_values f m) ≡ flags m
unfolding map_values
flags-map_values f [] h = refl
flags-map_values f ((j, c) ∷ m) h = ground (arith, h c, flags-map_values f m h)
