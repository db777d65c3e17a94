-- ===== src/Gossip.antt =====
-- The fan-out that whisper/ledger.py (`_fanout_raw`) and whisper/membership.py (`_fanout`) share.
pub mod Targets
use whisper_network.Common.{ℕ, ◌≡◌, ◌*◌, ◌+◌, List, ◌++◌, not}
use whisper_network.Common.Lists.{length, take, keep, contains, count}

abbrev pub gossip_fanout : ℕ
gossip_fanout = 3

abbrev pub gossip_hops : ℕ
gossip_hops = 8

-- The targets of one fan-out, given the results of its two calls of `random.shuffle`.
unfoldable pub fanout_targets : (List ℕ → List ℕ) → (List ℕ → List ℕ) → List ℕ → List ℕ → List ℕ
fanout_targets shuffle_axl shuffle_other peers axl =
    let axl_peers = keep (λ k. contains k axl) peers in
    let other_peers = keep (λ k. not (contains k axl)) peers in
    take gossip_fanout (shuffle_axl axl_peers ++ shuffle_other other_peers)

-- What `random.shuffle` does: the same items, as often.
pub record IsShuffle (f : List ℕ → List ℕ) : Type 0 where
  pub same_items : (xs : List ℕ) (x : ℕ) → count x (f xs) ≡ count x xs
  pub same_length : (xs : List ℕ) → length (f xs) ≡ length xs
