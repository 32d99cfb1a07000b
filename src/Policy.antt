-- ===== src/Policy.antt =====
-- Content-aware tool policies, mcp/services and repositories/PolicyRepository.ts: the globs of a rule,
-- the evaluator of rules, the engine that falls back to a tool's danger level, and the stored policies.
pub mod Glob
pub mod Evaluator
pub mod Engine
pub mod Versions
mod Examples
