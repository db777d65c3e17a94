-- ===== src/Node.antt =====
-- The parts of `WhisperNode` (whisper/node.py) beyond its components: the price auction, the collection of
-- threshold shares, the convergence of the lease duration and the receive loop, with their proofs.
pub mod Auction
pub mod Shares
pub mod Convergence
pub mod Receive
pub mod Sound
pub mod Winner
pub mod Threshold
pub mod Agreement
