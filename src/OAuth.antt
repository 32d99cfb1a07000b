-- ===== src/OAuth.antt =====
-- oauth/services/OAuthService.ts and the token endpoint of oauth/controllers/OAuthController.ts:
-- authorization codes, the tokens given for them, their refresh and revocation.
pub mod Service
pub mod Tables
pub mod Authorize
pub mod Flows
pub mod Exchange
pub mod Refresh
pub mod Interleaved
mod Examples
