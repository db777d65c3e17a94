-- ===== src/Crypto/Interpolation.antt =====
-- Polynomial interpolation, as secret sharing in whisper/crypto.py rests on it.
pub mod TwoField
pub mod Sums
pub mod Recovery
