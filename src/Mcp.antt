-- ===== src/Mcp.antt =====
-- internal/mcp: the MCP server, which lets a user run the operator's tools.
pub mod Calls
pub mod World
pub mod Auth
pub mod Tools
pub mod Server
pub mod Laws
