-- ===== src/Mcp.antt =====
-- src/suitcode/mcp: the service that answers an agent's calls. Modelled: the pages of its lists.
pub mod Pagination
mod Tests
