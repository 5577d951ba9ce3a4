-- ===== src/Guard.antt =====
-- http_client/guard: which addresses and which URLs a guarded fetch may reach.
pub mod Deny
pub mod Text
pub mod Policy
pub mod Allowlist
pub mod Fetch
pub mod Client
