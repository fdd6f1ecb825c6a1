-- ===== src/Grpc.antt =====
-- The streaming server, grpc/src.
pub mod Listener
pub mod Delivery
pub mod Timeout
pub mod Origin
