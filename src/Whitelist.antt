-- ===== src/Whitelist.antt =====
-- The IP whitelist: security/IpWhitelistService.ts (the addresses, the cached list and the test),
-- middleware/IpWhitelistMiddleware.ts and controllers/handlers/IpWhitelistHandler.ts.
pub mod Addresses
pub mod Service
pub mod Middleware
pub mod Handler
mod Examples
