-- ===== src/Access.antt =====
-- mcp/core/ClientSession.ts and mcp/services/CapabilitiesService.ts: what a session may use of a
-- server, what a user is shown of it, and which changes of it are told to a client.
pub mod Permissions
pub mod Session
pub mod Changes
mod Examples
