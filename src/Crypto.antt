-- ===== src/Crypto.antt =====
-- Signatures, secret sharing and the threshold cipher (whisper/crypto.py).
pub mod Signer
pub mod Signing
pub mod Xor
pub mod Galois
pub mod Linear
pub mod Field
pub mod Interpolation
pub mod Shamir
pub mod PayloadCipher
pub mod ThresholdCipher
pub mod ByteField
pub mod ByteSums
pub mod Recover
pub mod OwnShare
pub mod Reconstruct
pub mod ThresholdRecovery
