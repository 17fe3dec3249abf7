-- ===== src/Canonicalize.antt =====
-- lib/cpb/canonicalize.py: absent-field normalization, the historical jcs-n serializer, digests of
-- parsed values and of raw JSON.
pub mod Normalize
pub mod Serialize
pub mod Digest
