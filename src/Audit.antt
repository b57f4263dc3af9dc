-- ===== src/Audit.antt =====
-- server/internal/audit: the trail of what was done with credentials.
pub mod Types
pub mod Redactor
pub mod ForwardedIp
pub mod Provenance
pub mod Retention
pub mod Log
pub mod Query
pub mod Writer
pub mod Persisted
pub mod Scoped
pub mod Sink
pub mod Swept
pub mod Names
pub mod Redaction
mod Tests
