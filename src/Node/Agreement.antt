-- ===== src/Node/Agreement.antt =====
-- The convergence of the lease duration (whisper/node.py, `_lease_convergence_loop`).
use whisper_network.Common.{
  ℕ, ◌+◌, ◌*◌, ◌⊎◌, ◌≤◌, ◌≡◌, refl, ◌∙◌, ap, List, [], ◌∷◌, false, inl, inr, Bool-cases, arith,
}
use whisper_network.Common.Dict.{values}
use whisper_network.Ledger.State.{TaskLedger}
use whisper_network.Membership.State.{MembershipLayer, PeerInfo}
use whisper_network.Membership.Queries.{get_consensus_lease_duration, least_duration}
use whisper_network.Membership.Quorum.{least_duration-IsLeast, IsLeast}
use whisper_network.Node.Convergence.{distance, at_least, differs, converge}

least_duration_fixed : (ps : List PeerInfo) (d : ℕ) → IsLeast d ps → least_duration ps d ≡ d
unfolding least_duration
least_duration_fixed [] d least = refl
least_duration_fixed (p ∷ ps) d least =
    ap (least_duration ps) (least.0) ∙ least_duration_fixed ps d least.1

-- Once our own duration is the consensus, it stays the consensus.
consensus_stays :
    (m : MembershipLayer)
    → get_consensus_lease_duration
        (record m { our_lease_duration = get_consensus_lease_duration m })
      ≡ get_consensus_lease_duration m
unfolding get_consensus_lease_duration
consensus_stays m =
    least_duration_fixed (values m.peers) (least_duration (values m.peers) m.our_lease_duration)
      (least_duration-IsLeast (values m.peers) m.our_lease_duration)

differs_self : (tenth c : ℕ) → differs tenth c c ≡ false
unfolding differs distance
differs_self tenth c = ground arith

-- A tenth of the larger of `b` and `tenth` bounds the difference of `a` and `b`, whichever is larger.
abbrev pub IsNear : ℕ → ℕ → ℕ → Type 0
IsNear tenth a b =
    ((10 * a ≤ 10 * b + b) ⊎ (10 * a ≤ 10 * b + tenth))
    × ((10 * b ≤ 10 * a + b) ⊎ (10 * b ≤ 10 * a + tenth))

differs-IsNear : (tenth a b : ℕ) → differs tenth a b ≡ false → IsNear tenth a b
unfolding differs distance at_least
differs-IsNear tenth a b near = ground arith

-- One round of the convergence leaves the ledger with a lease duration that differs from the consensus
-- that then holds, upwards or downwards, by at most a tenth of the duration itself (of 0.1 s, if it is
-- shorter; `tenth` stands for 0.1 s), and a second round changes nothing.
pub converge_settles :
    (tenth : ℕ) (s : TaskLedger) (m : MembershipLayer)
    → let after = converge tenth (s, m) in
      IsNear tenth (get_consensus_lease_duration after.1) (after.0).lease_duration
      × (converge tenth after ≡ after)
unfolding converge
converge_settles tenth s m =
    let consensus = get_consensus_lease_duration m in
    let stays = consensus_stays m in
    elim (Bool-cases (differs tenth consensus s.lease_duration)) [
      | inl far ↦ rw far (
        rw stays (differs-IsNear tenth consensus consensus (differs_self tenth consensus)),
        rw stays (rw (differs_self tenth consensus) refl),
      )
      | inr near ↦ rw near (differs-IsNear tenth consensus s.lease_duration near, rw near refl)
    ]
