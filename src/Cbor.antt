-- ===== src/Cbor.antt =====
-- The CBOR part of lib/cpb/cose_refs.py: decoded values, the decoder and the deterministic encoder.
pub mod Item
pub mod Head
pub mod Decode
pub mod Encode
