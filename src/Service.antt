-- ===== src/Service.antt =====
-- server/internal/service: the domain logic over the store, the cipher and the audit sink.
pub mod Usage
pub mod AccessKeys
pub mod ApiKeys
pub mod KeyedMutex
pub mod Oauth
pub mod Normalized
pub mod Authentication
pub mod Issue
pub mod Reveal
pub mod Samples
mod Tests
