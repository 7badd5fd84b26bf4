-- ===== src/Server/Logging/Tests.antt =====
-- An access logger with the channel of websocketpp for applications.
use dora_foxglove.Prelude.{◌-◌, ◌^◌, ◌≡◌, some, arith}
use dora_foxglove.Server.Logging.{
  ErrorLevels, access_type, info, new_logger_of, CallbackLogger, clear_channels, set_channels,
  all_channels, write_to_log,
}
use dora_foxglove.Server.Logging.Channels.{write_to_log-set_channels}

abbrev levels : ErrorLevels
levels = record { devel = 1; library = 2; info = 4; warn = 8; rerror = 16; fatal = 32 }

-- The access logger of websocketpp's configuration: all levels but that for development.
abbrev access_logger : CallbackLogger
access_logger = new_logger_of (2 ^ 32 - 1 - 512) access_type

write_to_log-set_channels_example :
    write_to_log levels 0x2000 (set_channels 0x2000 (clear_channels all_channels access_logger))
    ≡ some info
write_to_log-set_channels_example =
    write_to_log-set_channels levels 0x2000 0x2000 access_logger (omega arith)
