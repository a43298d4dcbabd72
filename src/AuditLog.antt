-- ===== src/AuditLog.antt =====
-- internal/auditlog: the service that serves the node's logs in chunks and removes old segments.
pub mod Lines
pub mod Files
pub mod Chunk
pub mod Catalog
pub mod Retention
pub mod Requests
pub mod Cutoff
mod Tests
