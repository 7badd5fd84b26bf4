-- ===== src/Programs/Viewer/Channels.antt =====
-- The channels of the server program, and the types of the fields of a point cloud.
use dora_foxglove.Prelude.{ℕ, ◌≡◌, refl, List, some, ok, arith, leb, if◌then◌else◌}
use dora_foxglove.Prelude.Maps.{lookup, emplace}
use dora_foxglove.Server.Types.{Env}
use dora_foxglove.Server.Session.{new_server}
use dora_foxglove.Server.Effects.{◌>>=◌, return, for_each}
use dora_foxglove.Server.Status.{broadcast, handles}
use dora_foxglove.Server.Subscriptions.{register, add_channels}
use dora_foxglove.Programs.Viewer.{
  NumericType, unknown, uint8, int8, uint16, int16, uint32, int32, float32, float64, create_type,
  laser_channel, cloud_channel, path_channel, add_three,
}

-- The number of a type in the enumeration, of foxglove and of PointField.
abbrev pub number : NumericType → ℕ
number unknown = 0
number uint8 = 1
number int8 = 2
number uint16 = 3
number int16 = 4
number uint32 = 5
number int32 = 6
number float32 = 7
number float64 = 8

-- CreateType keeps the number of a type, and takes every other number for the unknown type.
pub number-create_type : (type : ℕ) → number (create_type type) ≡ (if leb type 8 then type else 0)
unfolding create_type
number-create_type type = ground arith

-- On a new server, whose clients cannot have connected yet, the three channels get the ids 1, 2 and
-- 3, and the server has them under these ids with their topics.
pub add_three-ids :
    (env : Env) (laser cloud path : List ℕ)
    → let (r, s) = add_three env laser cloud path new_server in
      (r ≡ ok (1, 2, 3))
      × (lookup 1 s.channels ≡ some (record { id = 1; without_id = laser_channel laser }))
      × (lookup 2 s.channels ≡ some (record { id = 2; without_id = cloud_channel cloud }))
      × (lookup 3 s.channels ≡ some (record { id = 3; without_id = path_channel path }))
unfolding add_three add_channels register broadcast for_each handles ◌>>=◌ return lookup emplace
add_three-ids env laser cloud path = (refl, refl, refl, refl)
