-- ===== src/Mcp/Laws.antt =====
-- What the MCP server lets a caller do.
pub mod Access
pub mod Serving
pub mod Http
pub mod Signed
pub mod Requests
pub mod Secrets
pub mod Waiting
