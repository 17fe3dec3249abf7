-- ===== src/Cose.antt =====
-- The COSE part of lib/cpb/cose_refs.py: header buckets, statement modes and the cpb-refs carrier.
pub mod Sign1
pub mod Headers
pub mod Uri
pub mod Baseline
pub mod Mode
pub mod Refs
pub mod Statement
