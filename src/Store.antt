-- ===== src/Store.antt =====
-- server/internal/store: the rows of types.go, and the in-memory store of memstore/memstore.go.
pub mod Types
pub mod Rows
pub mod Mem
pub mod Tidy
pub mod Search
pub mod WellFormed
pub mod SameRows
pub mod Lookup
pub mod Claims
mod Tests
pub mod Samples
pub mod Slice
pub mod Trail
pub mod Sweep
pub mod Cascade
pub mod Method
