-- ===== src/Registry.antt =====
-- lib/cpb/registry.py: the content-addressed registry snapshot and its lookups.
pub mod Snapshot
pub mod Lookup
