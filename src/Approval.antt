-- ===== src/Approval.antt =====
-- The human-in-the-loop approval queue: repositories/ApprovalRepository.ts (the table and its
-- statements) and mcp/services/ApprovalService.ts (what the gateway calls). `Table` has the rows,
-- `Repository` the statements, `Service` the service; the others prove.
pub mod Table
pub mod Repository
pub mod Statements
pub mod Create
pub mod Lifecycle
pub mod Uniqueness
pub mod Once
pub mod Audit
pub mod Hasher
pub mod Service
mod Examples
pub mod Redaction
