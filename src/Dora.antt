-- ===== src/Dora.antt =====
-- The bridge between the dora node and the Foxglove server: messages in a flat binary format over
-- local TCP connections. The sender's classes are dora/Header.h, dora/PointCloud.h,
-- dora/LaserScan.h and dora/Path.h; the receiver's are the copies under examples/src, which differ
-- in the name of the socket library and in the handling of its errors.
pub mod Header
pub mod PointCloud
pub mod LaserScan
pub mod Trajectory
pub mod Transport
