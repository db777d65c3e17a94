-- ===== src/Pyens.antt =====
-- The command line tool for ENS names (pyens).
pub mod EnsHash
pub mod Namehash
pub mod Labels
pub mod Parsed
pub mod State
pub mod Commands
pub mod Each
pub mod Minted
pub mod Transaction
pub mod Indexed
