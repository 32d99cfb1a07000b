-- ===== src/Sessions.antt =====
-- mcp/core/SessionStore.ts and what it uses of mcp/core/ClientSession.ts: the sessions of clients, the
-- index of the sessions of each user, and the records by which a client may reconnect.
pub mod Client
pub mod Store
pub mod Calls
pub mod Interleaved
mod Examples
