-- ===== src/Transport.antt =====
-- mcp/transport/http.rs: the HTTP transport. Sessions are in Session/Store.
pub mod Hosts
pub mod Rendering
pub mod Stream
pub mod Headers
pub mod Posts
pub mod Mirror
pub mod Endings
