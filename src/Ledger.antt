-- ===== src/Ledger.antt =====
-- The replicated task ledger, `TaskLedger` (whisper/ledger.py), and what its methods guarantee.
pub mod State
pub mod Ops
pub mod Submit
pub mod Bulk
pub mod Queries
pub mod Update
pub mod Calls
pub mod Frame
pub mod Effects
pub mod Walks
pub mod Leases
pub mod Sweep
pub mod Machine
pub mod Moves
pub mod Valid
pub mod Kept
pub mod Merge
pub mod Race
pub mod Scan
pub mod Durable
pub mod Converge
