-- ===== src/Http.antt =====
-- server/internal/httpapi: what stands between a request and the services.
pub mod Scopes
pub mod Limits
pub mod Middleware
pub mod Budget
pub mod Gate
pub mod Identity
pub mod Dto
pub mod Handlers
pub mod Router
pub mod SameButUses
pub mod Guarded
pub mod Server
mod Tests
