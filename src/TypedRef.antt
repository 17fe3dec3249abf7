-- ===== src/TypedRef.antt =====
-- lib/cpb/typed_ref.py: typed digest references, construction and verification.
pub mod Hex
pub mod Context
pub mod Definition
pub mod Select
pub mod Reference
pub mod Verify
