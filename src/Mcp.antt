-- ===== src/Mcp.antt =====
-- src/revenue_sentinel/mcp: the tool gateway.
pub mod Errors
pub mod Dispatcher
