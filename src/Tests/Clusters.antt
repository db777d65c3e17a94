-- ===== src/Tests/Clusters.antt =====
-- Events, failure detection, recovery and quorum at concrete inputs.
use whisper_network.Common.{ℕ, ◌+◌, ◌≤◌, ◌≡◌, refl, none, some, List, [], ◌∷◌, true, false, arith}
use whisper_network.Common.Dict.{Dict, lookup}
use whisper_network.Common.Deque.{remember}
use whisper_network.Common.Lists.{length, count}
use whisper_network.Wire.{Heartbeat, Suspicion, suspicion}
use whisper_network.Membership.State.{
  Env, PeerInfo, PeerStatus, alive, dead, new_peer, MembershipLayer,
}
use whisper_network.Membership.Handlers.{
  on_heartbeat, on_suspicion, dead_reports_needed, handle_message, dispatch, condemn,
  reporters_after, is_stale, relay_suspicion,
}
use whisper_network.Membership.Loops.{detect_failures, add_peer}
use whisper_network.Membership.Queries.{get_effective_cluster_size, has_quorum}
use whisper_network.Membership.Events.{Event, run, init, step}
use whisper_network.Membership.Confirmed.{reporters_of}
use whisper_network.Membership.Deaths.{run_dead-reported}
use whisper_network.Membership.Detection.{Silenced, detect_failures_lem}
use whisper_network.Membership.Recovery.{on_suspicion-on_heartbeat, on_heartbeat_keeps_report}
use whisper_network.Membership.Quorum.{has_quorum_exclusive, has_quorum_split}

abbrev env : ℕ → Env
env now = record {
  now = now;
  fresh_id = λ i. 1000 + now + i;
  shuffled = λ i xs. xs;
  tasks_held = [];
}

abbrev suspects : ℕ → ℕ → Suspicion
suspects id who = record { msg_id = id; sender = some who; suspect = 2; timestamp = 150; hops = 1 }

-- Node 1 learns of node 2, and nodes 3 and 4 report it.
abbrev history : List (Env × Event)
history =
    (env 100, Event.seed 2)
    ∷ (env 200, Event.message 3 (suspicion (suspects 51 3)))
    ∷ (env 201, Event.message 4 (suspicion (suspects 52 4)))
    ∷ []

abbrev end : MembershipLayer
end = run history (init 1 1 3 100 0 30 [] 10)

run_dead-reported_example :
    (dead_reports_needed ≤ length (reporters_of 2 end.suspicions))
    × ((x : ℕ) → count x (reporters_of 2 end.suspicions) ≤ 1)
unfolding run step init add_peer handle_message dispatch on_suspicion condemn reporters_after
    is_stale relay_suspicion remember
run_dead-reported_example =
    run_dead-reported history 1 1 3 100 0 30 [] 10 2 {p = record (new_peer 100 2) { status = dead }}
      refl refl

abbrev layer_of : ℕ → ℕ → Dict PeerInfo → MembershipLayer
layer_of key size peers = record {
  our_key = key;
  our_shard_id = key;
  cluster_size = size;
  suspect_after = 100;
  peers = peers;
  suspicions = (2, 3 ∷ []) ∷ [];
  seen_ids = [];
  axl_connected = [];
  prev_axl_connected = 2 ∷ [];
  our_enc_pubkey = 0;
  our_lease_duration = 30;
  our_capabilities = [];
  our_price_axl = 10;
  sent = [];
  dead_calls = [];
}

abbrev peer : ℕ → PeerStatus → PeerInfo
peer key status = record (new_peer 50 key) {
  status = status;
  shard_id = some key;
  reported_lease_duration = some 20;
}

-- Node 1 with its peer 2, in a cluster of three.
abbrev pair : MembershipLayer
pair = layer_of 1 3 ((2, peer 2 alive) ∷ [])

-- The third node, alone.
abbrev alone : MembershipLayer
alone = layer_of 3 3 []

has_quorum_exclusive_example : has_quorum alone ≡ false
unfolding has_quorum get_effective_cluster_size
has_quorum_exclusive_example =
    has_quorum_exclusive pair alone (omega arith) refl refl refl (omega arith) refl

-- Both sides of a partition hold the other side for dead.
abbrev left : MembershipLayer
left = layer_of 1 3 ((2, peer 2 alive) ∷ (3, peer 3 dead) ∷ [])

abbrev right : MembershipLayer
right = layer_of 3 3 ((1, peer 1 dead) ∷ (2, peer 2 dead) ∷ [])

has_quorum_split_example : (has_quorum left ≡ true) × (has_quorum right ≡ true)
has_quorum_split_example = has_quorum_split left right (omega arith) refl refl refl refl

detect_failures_lem_example :
    ((k : ℕ)
      → Silenced 200 100 (lookup k pair.peers) (lookup k (detect_failures (env 200) pair).peers))
    × ((detect_failures (env 200) pair).suspicions ≡ pair.suspicions)
detect_failures_lem_example = detect_failures_lem (env 200) pair

abbrev beat : Heartbeat
beat = record {
  msg_id = 61;
  sender = 2;
  timestamp = 120;
  shard_id = some 2;
  tasks_held = [];
  known_peers = [];
  hops = 2;
  lease_duration = 30;
  capabilities = none;
  price_axl = none;
  enc_pubkey = 0;
}

abbrev late : Suspicion
late = record { msg_id = 62; sender = some 4; suspect = 2; timestamp = 150; hops = 1 }

on_suspicion-on_heartbeat_example :
    ((p : PeerInfo) × (lookup 2 (on_heartbeat (env 160) beat pair).peers ≡ some p)
      × (p.status ≡ alive)
      × (p.last_seen ≡ 160))
    × (on_suspicion (env 170) 4 late (on_heartbeat (env 160) beat pair)
        ≡ on_heartbeat (env 160) beat pair)
on_suspicion-on_heartbeat_example =
    on_suspicion-on_heartbeat (env 160) beat pair (refl, λ same. omega (arith, same)) (env 170) 4
      late refl (omega arith)

on_heartbeat_keeps_report_example :
    (q : PeerInfo) × (lookup 2
        (on_suspicion (env 170) 4 late (on_heartbeat (env 120) beat pair)).peers
      ≡ some q)
    × (q.status ≡ dead)
on_heartbeat_keeps_report_example =
    on_heartbeat_keeps_report (env 120) beat pair (refl, λ same. omega (arith, same)) refl refl refl
      (env 170) 4 4 late refl refl (λ same. omega (arith, same)) (omega arith)
