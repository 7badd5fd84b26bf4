-- ===== src/Server/Logging/Channels.antt =====
-- Which messages a logger passes on, once its channels have been set as the server sets them.
use Prim.Native.Nat.{bit_and, bit_or, bit_and-bitwise, bit_or-bitwise, min, digits}
use dora_foxglove.Prelude.{
  ℕ, zero, suc, ◌/◌, ◌<◌, ◌≡◌, refl, ◌∙◌, none, some, ◌==◌, arith, if◌then◌else◌, Bool-cases, inl,
  inr,
}
use dora_foxglove.Server.Logging.{
  CallbackLogger, ErrorLevels, clear_channels, set_channels, write_to_log, dynamic_test,
  all_channels, info, access_type, error_type, error_level,
}

none_digits : (n a : ℕ) → digits (λ b. zero) min n a 0 ≡ 0
none_digits zero a = refl
none_digits (suc n) zero = refl
none_digits (suc n) (suc a) = omega (arith, none_digits n (suc a / 2))

pub bit_and_zero : (a : ℕ) → bit_and a 0 ≡ 0
bit_and_zero a = bit_and-bitwise a 0 ∙ none_digits a a

pub bit_or_none : (a : ℕ) → bit_or 0 a ≡ a
bit_or_none a = bit_or-bitwise 0 a

-- The channels of a logger, all of whose channels were cleared and one level set, are the bits of
-- the level that its static channels allow.
channels_set :
    (level : ℕ) (l : CallbackLogger)
    → 0 < level
    → (set_channels level (clear_channels all_channels l)).dynamic_channels
      ≡ bit_and level l.static_channels
unfolding set_channels clear_channels
channels_set level l some_bit = elim (Bool-cases (level == 0)) [
  | inl e ↦ ground arith
  | inr e ↦
      rw e (rw (bit_and_zero l.dynamic_channels) (bit_or_none (bit_and level l.static_channels)))
]

hint_set :
    (level : ℕ) (l : CallbackLogger)
    → (set_channels level (clear_channels all_channels l)).channel_type_hint ≡ l.channel_type_hint
unfolding set_channels clear_channels
hint_set level l = elim (Bool-cases (level == 0)) [ inl e ↦ rw e refl | inr e ↦ rw e refl ]

-- A logger of which every channel was cleared and then one level set, as the server does with its
-- access logger, passes on exactly the messages whose channel has a bit of the level that the static
-- channels of the logger allow: an access logger with the level Info, an error logger with the level
-- of the channel, if it is one. The level has a bit.
pub write_to_log-set_channels :
    (E : ErrorLevels) (channel level : ℕ) (l : CallbackLogger)
    → 0 < level
    → write_to_log E channel (set_channels level (clear_channels all_channels l)) ≡ (
        if bit_and channel (bit_and level l.static_channels) == 0
        then none
        else elim (l.channel_type_hint) [
          | access_type ↦ some info
          | error_type ↦ error_level E channel
        ])
unfolding write_to_log dynamic_test
write_to_log-set_channels E channel level l some_bit =
    rw (channels_set level l some_bit, hint_set level l)
      (elim (Bool-cases (bit_and channel (bit_and level l.static_channels) == 0)) [
        | inl e ↦ rw e refl
        | inr e ↦ rw e refl
      ])
