-- ===== src/Membership.antt =====
-- The gossip membership, `MembershipLayer` (whisper/membership.py), and what it guarantees.
pub mod State
pub mod Handlers
pub mod Loops
pub mod Queries
pub mod Events
pub mod Frame
pub mod Confirmed
pub mod Backed
pub mod Silence
pub mod Deaths
pub mod Detection
pub mod Quorum
pub mod Recovery
