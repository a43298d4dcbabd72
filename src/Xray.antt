-- ===== src/Xray.antt =====
-- internal/xray: the manager of the Xray core.
pub mod Manager
pub mod Config
pub mod PreStart
mod Tests
pub mod HashedSet
pub mod HashState
pub mod LogWriter
