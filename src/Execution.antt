-- ===== src/Execution.antt =====
-- src/revenue_sentinel/execution: authorisation, the executor, and the phase that uses them.
pub mod Authorization
pub mod Retry
pub mod Executor
pub mod Places
pub mod Phase
pub mod Reconciliation
pub mod Lifecycle
