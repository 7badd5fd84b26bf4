-- ===== src/Server/Logging.antt =====
-- Class CallbackLogger of foxglove-websocket/include/foxglove/websocket/websocket_logging.hpp. A
-- channel is a bit of 32; which bits websocketpp gives to its levels is a parameter.
pub mod Channels
mod Tests
use Prim.Native.Nat.{bit_and, bit_or}
use Prim.Native.String.{◌++◌ as ◌<>◌}
use dora_foxglove.Prelude.{
  ℕ, ◌-◌, ◌^◌, Bool, true, false, Option, none, some, String, ◌==◌, not, if◌then◌else◌,
}

pub data WebSocketLogLevel : Type 0 where
  debug info warn error critical : WebSocketLogLevel

pub data ChannelType : Type 0 where
  access_type error_type : ChannelType

-- websocketpp::log::elevel.
pub record ErrorLevels : Type 0 where
  pub devel : ℕ
  pub library : ℕ
  pub info : ℕ
  pub warn : ℕ
  pub rerror : ℕ
  pub fatal : ℕ

pub record CallbackLogger : Type 0 where
  pub static_channels : ℕ
  pub dynamic_channels : ℕ
  pub channel_type_hint : ChannelType

abbrev pub all_channels : ℕ
all_channels = 2 ^ 32 - 1

-- The two constructors.
abbrev pub new_logger : ChannelType → CallbackLogger
new_logger hint = record {
  static_channels = all_channels;
  dynamic_channels = 0;
  channel_type_hint = hint;
}

abbrev pub new_logger_of : ℕ → ChannelType → CallbackLogger
new_logger_of channels hint = record {
  static_channels = channels;
  dynamic_channels = 0;
  channel_type_hint = hint;
}

-- `_dynamicChannels &= ~channels`, for 32 bits.
unfoldable pub clear_channels : ℕ → CallbackLogger → CallbackLogger
clear_channels channels l = record l {
  dynamic_channels = bit_and l.dynamic_channels (all_channels - channels);
}

unfoldable pub set_channels : ℕ → CallbackLogger → CallbackLogger
unfolding clear_channels
set_channels channels l = if channels == 0 then clear_channels all_channels l else record l {
  dynamic_channels = bit_or l.dynamic_channels (bit_and channels l.static_channels);
}

unfoldable pub static_test : ℕ → CallbackLogger → Bool
static_test channel l = not (bit_and channel l.static_channels == 0)

unfoldable pub dynamic_test : ℕ → CallbackLogger → Bool
dynamic_test channel l = not (bit_and channel l.dynamic_channels == 0)

-- The level of an error channel; none for one that is no single level.
unfoldable pub error_level : ErrorLevels → ℕ → Option WebSocketLogLevel
error_level E channel =
    if channel == E.devel
    then some debug
    else if channel == E.library
    then some debug
    else if channel == E.info
    then some info
    else if channel == E.warn
    then some warn
    else if channel == E.rerror
    then some error
    else if channel == E.fatal
    then some critical
    else none

-- `write`: the level with which the callback is called, if it is.
unfoldable pub write_to_log : ErrorLevels → ℕ → CallbackLogger → Option WebSocketLogLevel
unfolding dynamic_test
write_to_log E channel l =
    if not (dynamic_test channel l)
    then none
    else elim (l.channel_type_hint) [ access_type ↦ some info | error_type ↦ error_level E channel ]

-- IPAddressToString, of an address by its text and its kind.
unfoldable pub ip_address_to_string : Bool → String → String
ip_address_to_string is_v6 address = if is_v6 then "[" <> (address <> "]") else address
