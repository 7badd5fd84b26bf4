-- ===== src/Programs.antt =====
-- The two programs: dora/main.cc sends test data, examples/src/laser_scan_server.cpp receives it
-- and serves it.
pub mod Sender
pub mod Viewer
mod Tests
