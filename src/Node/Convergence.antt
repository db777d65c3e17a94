-- ===== src/Node/Convergence.antt =====
-- One round of `_lease_convergence_loop` (whisper/node.py).
use whisper_network.Common.{ℕ, ◌+◌, ◌-◌, ◌*◌, ◌/◌, Bool, ltb, if◌then◌else◌}
use whisper_network.Ledger.State.{TaskLedger}
use whisper_network.Membership.State.{MembershipLayer}
use whisper_network.Membership.Queries.{get_consensus_lease_duration}

-- `abs(a - b)`
unfoldable pub distance : ℕ → ℕ → ℕ
distance a b = (a - b) + (b - a)

-- `max(current, 0.1)`, where `tenth` is a tenth of a second in the unit of the durations
unfoldable pub at_least : ℕ → ℕ → ℕ
at_least current tenth = if ltb current tenth then tenth else current

-- The test `abs(consensus - current) / max(current, 0.1) > 0.10`, multiplied out.
unfoldable pub differs : ℕ → ℕ → ℕ → Bool
differs tenth consensus current = ltb (at_least current tenth) (10 * distance consensus current)

-- The renewal threshold is rounded down.
unfoldable pub converge : ℕ → TaskLedger × MembershipLayer → TaskLedger × MembershipLayer
converge tenth (s, m) =
    let consensus = get_consensus_lease_duration m in
    if differs tenth consensus s.lease_duration
    then (
      record s { lease_duration = consensus; renew_threshold = consensus * 2 / 5 },
      record m { our_lease_duration = consensus },
    )
    else (s, m)
