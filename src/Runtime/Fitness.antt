-- ===== src/Runtime/Fitness.antt =====
-- When a node may take a task, stated of its peers: the tests of whisper/runtime.py in `_scan`.
use whisper_network.Common.{
  ℕ, ◌+◌, ◌*◌, ◌<◌, ◌≤◌, ◌≡◌, ◌⊎◌, inl, inr, refl, ◌∙◌, Option, none, some, true, false, List, [],
  ◌∷◌, arith, Bool-cases, ◌==◌, ltb, not, ◌&&◌, if◌then◌else◌, is_some_eq, ◌↔◌,
}
use whisper_network.Common.Lists.{All, contains, length}
use whisper_network.Common.Dict.{Dict, values}
use whisper_network.Membership.State.{
  PeerStatus, alive, suspected, dead, is_alive, PeerInfo, MembershipLayer,
}
use whisper_network.Membership.Queries.{
  has_quorum, get_effective_cluster_size, first_home, get_peer_for_shard,
}
use whisper_network.Membership.Quorum.{alive_count, dead_count}
use whisper_network.Runtime.Select.{
  Site, replica_shard_for, is_subset, any_capable, is_empty, capable_peer_alive, quorum_of,
  home_dead, no_capable_peer, is_none,
}
use whisper_network.Runtime.Ring.{replica_shard_for-ring}

-- The number of nodes of the cluster: the configured one, or all that are known.
abbrev pub IsSize : MembershipLayer → ℕ → Type 0
IsSize m n =
    ((0 < m.cluster_size) × (n ≡ m.cluster_size))
    ⊎ ((m.cluster_size ≡ 0) × (n ≡ length m.peers + 1))

-- Alone, or with more than half of the cluster, confirmed deaths taken off.
abbrev pub InMajority : MembershipLayer → Type 0
InMajority m = (n : ℕ) × IsSize m n × ((n ≤ 1) ⊎ (n < 2 * (alive_count m + 1) + dead_count m))

-- No peer that is alive has the shard.
abbrev pub HomeGone : MembershipLayer → ℕ → Type 0
HomeGone m shard = All (λ p. ¬ ((p.status ≡ alive) × (p.shard_id ≡ some shard))) (values m.peers)

-- The peer has each of the capabilities.
abbrev pub IsFit : List ℕ → PeerInfo → Type 0
IsFit needed p = All (λ c. contains c p.capabilities ≡ true) needed

-- No capability is asked for, or no peer that is alive has them all.
abbrev pub NobodyFit : MembershipLayer → List ℕ → Type 0
NobodyFit m needed =
    (needed ≡ []) ⊎ All (λ p. ¬ ((p.status ≡ alive) × IsFit needed p)) (values m.peers)

-- A condition on the membership layer, which holds if there is none.
abbrev pub IfPresent : (MembershipLayer → Type 0) → Option MembershipLayer → Type 0
IfPresent P none = Unit
IfPresent P (some m) = P m

-- `shard` comes before `own` on the ring of the shards from 1 to `n`.
abbrev pub IsBefore : ℕ → ℕ → ℕ → Type 0
IsBefore n own shard = ((own ≡ 1) × (shard ≡ n)) ⊎ ((1 < own) × (shard + 1 ≡ own))

pub quorum_of-InMajority :
    (m : Option MembershipLayer) → (quorum_of m ≡ true) ↔ IfPresent InMajority m
unfolding quorum_of has_quorum get_effective_cluster_size
quorum_of-InMajority none = (λ h. tt, λ h. refl)
quorum_of-InMajority (some m) = elim (Bool-cases (ltb 0 m.cluster_size)) [
  | inl set ↦ (
    λ h. (m.cluster_size, inl (ground arith, refl), grind arith),
    λ (n, size, major). grind arith,
  )
  | inr unset ↦ (
    λ h. (length m.peers + 1, inr (ground arith, refl), grind arith),
    λ (n, size, major). grind arith,
  )
]

is_alive_iff : (x : PeerStatus) → (is_alive x ≡ true) ↔ (x ≡ alive)
is_alive_iff alive = (λ h. refl, λ h. refl)
is_alive_iff suspected = (λ h. cc, λ h. cc)
is_alive_iff dead = (λ h. cc, λ h. cc)

is_some_eq_iff : (o : Option ℕ) (k : ℕ) → (is_some_eq o k ≡ true) ↔ (o ≡ some k)
is_some_eq_iff none k = (λ h. cc, λ h. cc)
is_some_eq_iff (some m) k = (λ h. ground arith, λ h. ground arith)

first_home-HomeGone :
    (shard : ℕ) (peers : Dict PeerInfo)
    → (is_none (first_home shard peers) ≡ true)
      ↔ All (λ p. ¬ ((p.status ≡ alive) × (p.shard_id ≡ some shard))) (values peers)
unfolding first_home
first_home-HomeGone shard [] = (λ h. tt, λ h. refl)
first_home-HomeGone shard ((k, p) ∷ peers) =
    let (there, back) = first_home-HomeGone shard peers in
    let (living, living') = is_alive_iff p.status in
    let (homes, homes') = is_some_eq_iff p.shard_id shard in
    elim (Bool-cases (is_some_eq p.shard_id shard && is_alive p.status)) [
      | inl here ↦ (
        λ h. absurd (ground arith),
        λ h. absurd (h.0 (living (ground arith), homes (ground arith))),
      )
      | inr other ↦ (
        λ h. (λ both. ground (arith, living' both.0, homes' both.1), there (rw other at h)),
        λ h. rw other (back h.1),
      )
    ]

pub home_dead-HomeGone :
    (m : Option MembershipLayer) (shard : ℕ)
    → (home_dead m shard ≡ true) ↔ IfPresent (λ l. HomeGone l shard) m
unfolding home_dead get_peer_for_shard
home_dead-HomeGone none shard = (λ h. tt, λ h. refl)
home_dead-HomeGone (some m) shard = first_home-HomeGone shard m.peers

is_subset-IsFit :
    (needed : List ℕ) (p : PeerInfo) → (is_subset needed p.capabilities ≡ true) ↔ IsFit needed p
unfolding is_subset
is_subset-IsFit [] p = (λ h. tt, λ h. refl)
is_subset-IsFit (c ∷ needed) p =
    let (there, back) = is_subset-IsFit needed p in
    (λ h. (ground arith, there (ground arith)), λ h. ground (arith, h.0, back h.1))

any_capable-NobodyFit :
    (needed : List ℕ) (ps : List PeerInfo)
    → (any_capable needed ps ≡ false) ↔ All (λ p. ¬ ((p.status ≡ alive) × IsFit needed p)) ps
unfolding any_capable
any_capable-NobodyFit needed [] = (λ h. tt, λ h. refl)
any_capable-NobodyFit needed (p ∷ ps) =
    let (there, back) = any_capable-NobodyFit needed ps in
    let (living, living') = is_alive_iff p.status in
    let (fits, fits') = is_subset-IsFit needed p in
    elim (Bool-cases (is_alive p.status && is_subset needed p.capabilities)) [
      | inl here ↦ (
        λ h. absurd (ground arith),
        λ h. absurd (h.0 (living (ground arith), fits (ground arith))),
      )
      | inr other ↦ (
        λ h. (λ both. ground (arith, living' both.0, fits' both.1), there (rw other at h)),
        λ h. rw other (back h.1),
      )
    ]

no_capable-NobodyFit :
    (needed : List ℕ) (m : Option MembershipLayer)
    → ((if is_empty needed then true else not (capable_peer_alive needed m)) ≡ true)
      ↔ IfPresent (λ l. NobodyFit l needed) m
unfolding capable_peer_alive
no_capable-NobodyFit [] none = (λ h. tt, λ h. refl)
no_capable-NobodyFit [] (some m) = (λ h. inl refl, λ h. refl)
no_capable-NobodyFit (c ∷ needed) none = (λ h. tt, λ h. refl)
no_capable-NobodyFit (c ∷ needed) (some m) =
    let (there, back) = any_capable-NobodyFit (c ∷ needed) (values m.peers) in
    (
      λ h. inr (there (ground arith)),
      λ h. elim h [ inl same ↦ cc | inr nobody ↦ ground (arith, back nobody) ],
    )

pub no_capable_peer-NobodyFit :
    (site : Site)
    → (no_capable_peer site ≡ true) ↔ IfPresent (λ l. NobodyFit l site.capabilities) site.membership
unfolding no_capable_peer
no_capable_peer-NobodyFit site = no_capable-NobodyFit site.capabilities site.membership

pub replica_shard_for-IsBefore :
    (n own shard : ℕ) → 1 ≤ own → own ≤ n → (shard ≡ replica_shard_for own n) ↔ IsBefore n own shard
replica_shard_for-IsBefore n own shard low high =
    let ring = replica_shard_for-ring n own low high in
    elim (Bool-cases (own == 1)) [
      | inl first ↦ (λ h. inl (ground arith, h ∙ ring ∙ rw first refl), λ h. grind (arith, ring))
      | inr later ↦ (λ h. inr (ground arith, grind (arith, ring)), λ h. grind (arith, ring))
    ]
