-- ===== src/Tests.antt =====
-- The theorems of the library applied at concrete inputs, one module per part of the program.
mod Data
mod LedgerRuns
mod LedgerCalls
mod Gossips
mod Clusters
mod Nodes
mod Ciphers
mod Names
