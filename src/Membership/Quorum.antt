-- ===== src/Membership/Quorum.antt =====
-- Quorum, homes and the consensus lease duration (whisper/membership.py).
use whisper_network.Common.{
  ℕ, ◌+◌, ◌<◌, ◌≤◌, ◌≡◌, ◌≢◌, ◌⊎◌, inl, inr, refl, ◌∙◌, Option, none, some, true, false, List, [],
  ◌∷◌, arith, Bool-cases, ◌&&◌, is_some_eq, ltb, ==_refl, subst,
}
use whisper_network.Common.Lists.{count_if, All}
use whisper_network.Common.Dict.{Dict, IsDict, lookup, values}
use whisper_network.Membership.State.{is_alive, is_dead, PeerInfo, MembershipLayer}
use whisper_network.Membership.Queries.{
  get_effective_cluster_size, has_quorum, first_home, get_peer_for_shard, reported, smaller,
  least_duration, get_consensus_lease_duration,
}

-- How many peers a node holds for alive, and for dead.
abbrev pub alive_count : MembershipLayer → ℕ
alive_count m = count_if (λ p. is_alive p.status) (values m.peers)

abbrev pub dead_count : MembershipLayer → ℕ
dead_count m = count_if (λ p. is_dead p.status) (values m.peers)

-- No split brain while nobody is confirmed dead: two nodes with the same configured cluster size, that
-- hold nobody for dead, and whose sides (the node and the peers that it holds for alive) fit together
-- into the cluster, do not both have a quorum.
pub has_quorum_exclusive :
    (m m' : MembershipLayer)
    → 1 < m.cluster_size
    → m'.cluster_size ≡ m.cluster_size
    → dead_count m ≡ 0
    → dead_count m' ≡ 0
    → (alive_count m + 1) + (alive_count m' + 1) ≤ m.cluster_size
    → has_quorum m ≡ true
    → has_quorum m' ≡ false
unfolding has_quorum get_effective_cluster_size
has_quorum_exclusive m m' size same none_dead none_dead' apart quorum = ground arith

-- With confirmed deaths both sides of a partition can have a quorum: if each of two sides that make up
-- the cluster holds the whole other side for dead, both act.
pub has_quorum_split :
    (m m' : MembershipLayer)
    → 1 < m.cluster_size
    → m'.cluster_size ≡ m.cluster_size
    → (alive_count m + 1) + (alive_count m' + 1) ≡ m.cluster_size
    → dead_count m ≡ alive_count m' + 1
    → dead_count m' ≡ alive_count m + 1
    → (has_quorum m ≡ true) × (has_quorum m' ≡ true)
unfolding has_quorum get_effective_cluster_size
has_quorum_split m m' size same whole dead_there dead_here = (ground arith, ground arith)

first_home-none :
    (shard : ℕ) (peers : Dict PeerInfo)
    → first_home shard peers ≡ none
    → All (λ p. (is_some_eq p.shard_id shard && is_alive p.status) ≡ false) (values peers)
unfolding first_home
first_home-none shard [] h = tt
first_home-none shard ((j, p) ∷ peers) h =
    elim (Bool-cases (is_some_eq p.shard_id shard && is_alive p.status)) [
      | inl here ↦ absurd (ground arith)
      | inr other ↦ (other, first_home-none shard peers (rw other at h))
    ]

smaller-le : (o : Option ℕ) (best : ℕ) → smaller o best ≤ best
smaller-le none best = omega arith
smaller-le (some d) best = ground arith

smaller-cases : (o : Option ℕ) (best : ℕ) → (smaller o best ≡ best) ⊎ (o ≡ some (smaller o best))
smaller-cases none best = inl refl
smaller-cases (some d) best = elim (Bool-cases (ltb d best)) [
  | inl less ↦ inr (rw less)
  | inr more ↦ inl (rw more)
]

first_home-some :
    (shard k : ℕ) (peers : Dict PeerInfo)
    → IsDict peers
    → first_home shard peers ≡ some k
    → (p : PeerInfo) × (lookup k peers ≡ some p)
      × (is_alive p.status ≡ true)
      × (p.shard_id ≡ some shard)
unfolding first_home
first_home-some shard k [] dict h = absurd (ground arith)
first_home-some shard k ((j, p) ∷ peers) dict h =
    elim (Bool-cases (is_some_eq p.shard_id shard && is_alive p.status)) [
      | inl here ↦
          let jk : j ≡ k = ground arith in
          (p, rw jk (rw (==_refl k)), ground arith, is_some_eq→eq p.shard_id shard (ground arith))
      | inr other ↦
          let (q, at_k, living, home) = first_home-some shard k peers dict.1 (rw other at h) in
          (q, ground (arith, dict.0, at_k, differs k j q peers dict.0 at_k), living, home)
    ]
  where
    is_some_eq→eq : (o : Option ℕ) (n : ℕ) → is_some_eq o n ≡ true → o ≡ some n
    is_some_eq→eq none n h = cc
    is_some_eq→eq (some m) n h = ground arith

    differs :
        (k j : ℕ) (q : PeerInfo) (peers : Dict PeerInfo)
        → lookup j peers ≡ none
        → lookup k peers ≡ some q
        → k ≢ j
    differs k j q peers a b = λ same. ground (arith, subst (λ x. lookup x peers ≡ some q) same b)

-- If no key stands twice among the peers, the home that `get_peer_for_shard` names is a peer that is
-- alive and has that shard.
pub get_peer_for_shard-some :
    (shard k : ℕ) (m : MembershipLayer)
    → IsDict m.peers
    → get_peer_for_shard shard m ≡ some k
    → (p : PeerInfo) × (lookup k m.peers ≡ some p)
      × (is_alive p.status ≡ true)
      × (p.shard_id ≡ some shard)
unfolding get_peer_for_shard
get_peer_for_shard-some shard k m dict h = first_home-some shard k m.peers dict h

-- If `get_peer_for_shard` names no home, no peer is alive and has that shard.
pub get_peer_for_shard-none :
    (shard : ℕ) (m : MembershipLayer)
    → get_peer_for_shard shard m ≡ none
    → All (λ p. (is_some_eq p.shard_id shard && is_alive p.status) ≡ false) (values m.peers)
unfolding get_peer_for_shard
get_peer_for_shard-none shard m h = first_home-none shard m.peers h

-- The durations that count.
abbrev pub IsReported : ℕ → List PeerInfo → Type 0
IsReported d [] = ⊥
IsReported d (p ∷ ps) = (reported p ≡ some d) ⊎ IsReported d ps

-- No duration that counts is smaller than `d`.
abbrev pub IsLeast : ℕ → List PeerInfo → Type 0
IsLeast d ps = All (λ p. smaller (reported p) d ≡ d) ps

least_duration-le : (ps : List PeerInfo) (best : ℕ) → least_duration ps best ≤ best
unfolding least_duration
least_duration-le [] best = omega arith
least_duration-le (p ∷ ps) best =
    omega (arith, least_duration-le ps (smaller (reported p) best), smaller-le (reported p) best)

smaller_absorbs : (o : Option ℕ) (best d : ℕ) → d ≤ smaller o best → smaller o d ≡ d
smaller_absorbs none best d h = refl
smaller_absorbs (some x) best d h = ground arith

pub least_duration-IsLeast : (ps : List PeerInfo) (best : ℕ) → IsLeast (least_duration ps best) ps
unfolding least_duration
least_duration-IsLeast [] best = tt
least_duration-IsLeast (p ∷ ps) best = (
  smaller_absorbs (reported p) best (least_duration ps (smaller (reported p) best))
      (least_duration-le ps (smaller (reported p) best)),
  least_duration-IsLeast ps (smaller (reported p) best),
)

least_duration-IsReported :
    (ps : List PeerInfo) (best : ℕ)
    → (least_duration ps best ≡ best) ⊎ IsReported (least_duration ps best) ps
unfolding least_duration
least_duration-IsReported [] best = inl refl
least_duration-IsReported (p ∷ ps) best =
    elim (least_duration-IsReported ps (smaller (reported p) best)) [
      | inr here ↦ inr (inr here)
      | inl kept ↦ elim (smaller-cases (reported p) best) [
        | inl ours ↦ inl (kept ∙ ours)
        | inr theirs ↦ inr (inl (rw kept theirs))
      ]
    ]

-- The consensus is our own duration or one that a peer, not held for dead, has reported, and it is at
-- most each of these: their minimum.
pub get_consensus_lease_duration_lem :
    (m : MembershipLayer)
    → let d = get_consensus_lease_duration m in
      (d ≤ m.our_lease_duration)
      × IsLeast d (values m.peers)
      × ((d ≡ m.our_lease_duration) ⊎ IsReported d (values m.peers))
unfolding get_consensus_lease_duration
get_consensus_lease_duration_lem m = (
  least_duration-le (values m.peers) m.our_lease_duration,
  least_duration-IsLeast (values m.peers) m.our_lease_duration,
  least_duration-IsReported (values m.peers) m.our_lease_duration,
)
