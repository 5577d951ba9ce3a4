-- ===== src/Iam.antt =====
-- iam/error.rs: why an identity token cannot be had or is refused. The texts of the errors are left
-- out.
pub mod KeySet
pub mod TokenSource
pub mod Verify

pub data IamError : Type 0 where
  metadata_unavailable malformed_token jwks_unavailable rejected : IamError
