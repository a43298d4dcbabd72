-- ===== src/Xtls.antt =====
-- internal/xtls: the node's client of the Xray core's gRPC interface.
pub mod Client
pub mod Handler
pub mod Stats
mod Tests
