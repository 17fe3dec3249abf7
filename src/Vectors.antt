-- ===== src/Vectors.antt =====
-- The reference checks of .github/check_vectors.py, which do not call the library.
pub mod Cbor
pub mod Encode
pub mod Pointer
pub mod Mapping
pub mod Derivation
pub mod Contexts
pub mod Canonical
pub mod Carrier
pub mod Mirror
