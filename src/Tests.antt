-- ===== src/Tests.antt =====
-- Runs of the model on concrete input, and the theorems at inputs where their hypotheses hold.
pub mod Sample
mod Lex
mod Statements
mod Fixtures
mod Carriers
mod Commands
mod References
mod Digests
