-- ===== src/Membership/Queries.antt =====
-- The queries of `MembershipLayer` (whisper/membership.py).
use whisper_network.Common.{
  ℕ, ◌+◌, ◌*◌, Option, none, some, List, [], ◌∷◌, Bool, true, ltb, leb, ◌&&◌, is_some_eq,
  if◌then◌else◌,
}
use whisper_network.Common.Lists.{count_if, length}
use whisper_network.Common.Dict.{Dict, lookup, values}
use whisper_network.Membership.State.{is_alive, is_dead, PeerInfo, MembershipLayer}

unfoldable pub get_effective_cluster_size : MembershipLayer → ℕ
get_effective_cluster_size m = if ltb 0 m.cluster_size then m.cluster_size else length m.peers + 1

-- `(alive + 1) > (cluster - dead) / 2`, multiplied out.
unfoldable pub has_quorum : MembershipLayer → Bool
has_quorum m =
    let alive = count_if (λ p. is_alive p.status) (values m.peers) in
    let dead = count_if (λ p. is_dead p.status) (values m.peers) in
    let cluster = get_effective_cluster_size m in
    if leb cluster 1 then true else ltb cluster (2 * (alive + 1) + dead)

-- `for key, peer in self._peers.items(): if ...: return key`
unfoldable pub first_home : ℕ → Dict PeerInfo → Option ℕ
first_home shard_id [] = none
first_home shard_id ((key, peer) ∷ rest) =
    if is_some_eq peer.shard_id shard_id && is_alive peer.status
    then some key
    else first_home shard_id rest

unfoldable pub get_peer_for_shard : ℕ → MembershipLayer → Option ℕ
get_peer_for_shard shard_id m = first_home shard_id m.peers

unfoldable pub get_enc_pubkey : ℕ → MembershipLayer → Option ℕ
get_enc_pubkey key m = elim (lookup key m.peers) [ none ↦ none | some peer ↦ peer.enc_pubkey ]

-- The durations that count, our own first; `min` of them.
abbrev pub reported : PeerInfo → Option ℕ
reported p = if is_dead p.status then none else p.reported_lease_duration

abbrev pub smaller : Option ℕ → ℕ → ℕ
smaller none best = best
smaller (some d) best = if ltb d best then d else best

unfoldable pub least_duration : List PeerInfo → ℕ → ℕ
least_duration [] best = best
least_duration (p ∷ rest) best = least_duration rest (smaller (reported p) best)

unfoldable pub get_consensus_lease_duration : MembershipLayer → ℕ
get_consensus_lease_duration m = least_duration (values m.peers) m.our_lease_duration
