-- ===== src/Membership/Deaths.antt =====
-- The peers that a node of whisper/membership.py holds for dead, after any events.
use whisper_network.Common.{ℕ, ◌≤◌, ◌≡◌, refl, none, some, List, [], ◌∷◌, arith}
use whisper_network.Common.Lists.{length, count}
use whisper_network.Common.Dict.{lookup}
use whisper_network.Membership.State.{
  dead, PeerInfo, MembershipLayer, Env, join_all, broadcast_heartbeat, broadcast_join,
}
use whisper_network.Membership.Handlers.{dead_reports_needed}
use whisper_network.Gossip.{gossip_hops}
use whisper_network.Membership.Frame.{join_all-Same}
use whisper_network.Membership.Events.{
  Event, seed, message, tick, sync, beat, announce, step, run, init,
}
use whisper_network.Membership.Confirmed.{Backed, reporters_of, Same-Backed}
use whisper_network.Membership.Backed.{add_peer-Backed, handle_message-Backed}
use whisper_network.Membership.Silence.{detect_failures-Backed, axl_sync-Backed}

step-Backed : (e : Env) (event : Event) (m : MembershipLayer) → Backed m → Backed (step e event m)
unfolding step broadcast_heartbeat broadcast_join
step-Backed e (seed k) m h = add_peer-Backed e k m h
step-Backed e (message from_peer msg) m h = handle_message-Backed e from_peer msg m h
step-Backed e tick m h = detect_failures-Backed e m h
step-Backed e (sync connected) m h = axl_sync-Backed e connected m h
step-Backed e beat m h = h
step-Backed e announce m h =
    Same-Backed m (join_all e 0 gossip_hops m.axl_connected m)
      (join_all-Same e 0 gossip_hops m.axl_connected m) h

run-Backed : (events : List (Env × Event)) (m : MembershipLayer) → Backed m → Backed (run events m)
unfolding run
run-Backed [] m h = h
run-Backed ((e, event) ∷ rest) m h = run-Backed rest (step e event m) (step-Backed e event m h)

pub init-Backed :
    (key shard size limit enc duration : ℕ) (caps : List ℕ) (price : ℕ)
    → Backed (init key shard size limit enc duration caps price)
unfolding init
init-Backed key shard size limit enc duration caps price = record {
  confirmed = λ k p at_k dying. cc;
  distinct = λ k x. omega arith;
  not_us = refl;
  dict = tt;
}

-- Whatever happens to a node from its start, in any order: a peer that it holds for dead has at least
-- two reporters, all different.
pub run_dead-reported :
    (events : List (Env × Event)) (key shard size limit enc duration : ℕ) (caps : List ℕ)
    (price : ℕ) (k : ℕ) {p : PeerInfo}
    → lookup k (run events (init key shard size limit enc duration caps price)).peers ≡ some p
    → p.status ≡ dead
    → let m = run events (init key shard size limit enc duration caps price) in
      (dead_reports_needed ≤ length (reporters_of k m.suspicions))
      × ((x : ℕ) → count x (reporters_of k m.suspicions) ≤ 1)
run_dead-reported events key shard size limit enc duration caps price k {p} at_k dying =
    let m0 = init key shard size limit enc duration caps price in
    let h = run-Backed events m0 (init-Backed key shard size limit enc duration caps price) in
    (h.confirmed k p at_k (rw dying), h.distinct k)

-- Whatever happens to a node from its start, it is never its own peer.
pub run_not_own_peer :
    (events : List (Env × Event)) (key shard size limit enc duration : ℕ) (caps : List ℕ)
    (price : ℕ)
    → let m = run events (init key shard size limit enc duration caps price) in
      lookup m.our_key m.peers ≡ none
run_not_own_peer events key shard size limit enc duration caps price =
    let m0 = init key shard size limit enc duration caps price in
    let h = run-Backed events m0 (init-Backed key shard size limit enc duration caps price) in
    h.not_us
