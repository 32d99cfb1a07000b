-- ===== src/ResultCache.antt =====
-- The result cache, mcp/core/cache: the store in memory and the
-- resolution of policies.
pub mod MemoryStore
pub mod PolicyResolver
mod Examples
