-- ===== src/Server.antt =====
-- The WebSocket server of
-- foxglove-websocket/include/foxglove/websocket/websocket_server.hpp, in parts.
pub mod Types
pub mod Effects
pub mod Payload
pub mod Status
pub mod Keeps
pub mod Takes
pub mod Returns
pub mod Yields
pub mod Running
pub mod Subscriptions
pub mod ClientChannels
pub mod Parameters
pub mod Graph
pub mod Services
pub mod Wire
pub mod Publish
pub mod Connections
pub mod Operations
pub mod Dispatch
pub mod Session
pub mod Lifecycle
pub mod Logging
pub mod Construction
mod Tests
