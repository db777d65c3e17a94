-- ===== src/Membership/Backed.antt =====
-- Every event keeps the invariant behind confirmed deaths (whisper/membership.py).
use whisper_network.Common.{
  ℕ, ◌≡◌, ◌≢◌, inl, inr, refl, Option, none, some, List, arith, Bool-cases, truthy, ◌==◌, not, ◌||◌,
  ◌&&◌, leb,
}
use whisper_network.Common.Lists.{length, contains}
use whisper_network.Common.Deque.{remember}
use whisper_network.Common.Dict.{lookup, insert, has_key, lookup-insert_self}
use whisper_network.Wire.{Heartbeat, Suspicion, NodeJoin, Message}
use whisper_network.Membership.State.{dead, is_dead, PeerInfo, new_peer, MembershipLayer, Env}
use whisper_network.Membership.Handlers.{
  dead_reports_needed, or_keep, peer_or_new, relay_join, relay_heartbeat, relay_suspicion, joined,
  cleared, on_node_join, beaten, absorb, on_heartbeat, reporters_after, is_stale, condemn,
  on_suspicion, id_of, dispatch, handle_message,
}
use whisper_network.Membership.Loops.{add_peer}
use whisper_network.Membership.Frame.{relay_join-Same, relay_heartbeat-Same, relay_suspicion-Same}
use whisper_network.Membership.Confirmed.{
  Backed, reporters_of, insert-IsBacked, report-IsBacked, condemn-IsBacked,
  reporters_after-distinct, reporters_after-length, Same-Backed, heard-IsBacked, absorb-IsBacked,
}

pub add_peer-Backed : (e : Env) (k : ℕ) (m : MembershipLayer) → Backed m → Backed (add_peer e k m)
unfolding add_peer
add_peer-Backed e k m h = elim (Bool-cases (k == m.our_key || has_key k m.peers)) [
  | inl skip ↦ rw skip h
  | inr fresh ↦
      rw fresh
        (insert-IsBacked m.our_key m.peers m.suspicions h k (new_peer e.now k) (ground arith) refl)
]

on_node_join-Backed :
    (e : Env) (msg : NodeJoin) (m : MembershipLayer) → Backed m → Backed (on_node_join e msg m)
unfolding on_node_join
on_node_join-Backed e msg m h =
    let old = peer_or_new e.now msg.sender m.peers in
    let m' = record m {
      peers = insert msg.sender (joined e.now msg old) m.peers;
      suspicions = cleared msg.sender old m.suspicions;
    } in
    elim (Bool-cases (not (truthy msg.sender) || msg.sender == m.our_key)) [
      | inl skip ↦ rw skip h
      | inr heard ↦ rw heard (
          Same-Backed m' (relay_join e msg m') (relay_join-Same e msg m') (
            heard-IsBacked m.our_key msg.sender m.peers m.suspicions old (joined e.now msg old) h
              (ground arith) (unfold joined in refl)))
    ]

on_heartbeat-Backed :
    (e : Env) (msg : Heartbeat) (m : MembershipLayer) → Backed m → Backed (on_heartbeat e msg m)
unfolding on_heartbeat
on_heartbeat-Backed e msg m h =
    let old = peer_or_new e.now msg.sender m.peers in
    let entered = insert msg.sender (beaten e.now msg old) m.peers in
    let m' = record m {
      peers = absorb e.now m.our_key msg.known_peers entered;
      suspicions = cleared msg.sender old m.suspicions;
    } in
    elim (Bool-cases (not (truthy msg.sender) || msg.sender == m.our_key)) [
      | inl skip ↦ rw skip h
      | inr heard ↦ rw heard (
          Same-Backed m' (relay_heartbeat e msg m') (relay_heartbeat-Same e msg m') (
            absorb-IsBacked e.now m.our_key msg.known_peers entered
              (cleared msg.sender old m.suspicions)
              (heard-IsBacked m.our_key msg.sender m.peers m.suspicions old (beaten e.now msg old) h
                (ground arith) (unfold beaten in refl))))
    ]

condemn-Backed :
    (k : ℕ) (rs : List ℕ) (entry : Option PeerInfo) (m : MembershipLayer)
    → m.our_key ≢ k
    → reporters_of k m.suspicions ≡ rs
    → Backed m
    → Backed (condemn k rs entry m)
unfolding condemn
condemn-Backed k rs none m other same h = h
condemn-Backed k rs (some p) m other same h =
    elim (Bool-cases (not (is_dead p.status) && leb dead_reports_needed (length rs))) [
      | inl convicted ↦ rw convicted (
          condemn-IsBacked m.our_key m.peers m.suspicions h k (record p { status = dead }) other
            (rw same (ground arith)))
      | inr spared ↦ rw spared h
    ]

on_suspicion-Backed :
    (e : Env) (from_peer : ℕ) (msg : Suspicion) (m : MembershipLayer)
    → Backed m
    → Backed (on_suspicion e from_peer msg m)
unfolding on_suspicion
on_suspicion-Backed e from_peer msg m h =
    let k = msg.suspect in
    let rs = reporters_after k (or_keep msg.sender from_peer) m.suspicions in
    let m' = record m { suspicions = insert k rs m.suspicions } in
    let m'' = condemn k rs (lookup k m.peers) m' in
    elim (Bool-cases
      (not (truthy k) || k == m.our_key || is_stale (lookup k m.peers) msg.timestamp)) [
        | inl skip ↦ rw skip h
        | inr heard ↦ rw heard (
            Same-Backed m'' (relay_suspicion e msg m'') (relay_suspicion-Same e msg m'') (
              condemn-Backed k rs (lookup k m.peers) m' (ground arith)
                (rw (lookup-insert_self k rs m.suspicions))
                (report-IsBacked m.our_key m.peers m.suspicions h k rs
                  (reporters_after-length k (or_keep msg.sender from_peer) m.suspicions)
                  (reporters_after-distinct k (or_keep msg.sender from_peer) m.suspicions
                    (h.distinct k)))))
      ]

dispatch-Backed :
    (e : Env) (from_peer : ℕ) (msg : Message) (m : MembershipLayer)
    → Backed m
    → Backed (dispatch e from_peer msg m)
unfolding dispatch
dispatch-Backed e from_peer (Message.heartbeat msg) m h = on_heartbeat-Backed e msg m h
dispatch-Backed e from_peer (Message.suspicion msg) m h = on_suspicion-Backed e from_peer msg m h
dispatch-Backed e from_peer (Message.node_join msg) m h = on_node_join-Backed e msg m h
dispatch-Backed e from_peer _ m h = h

pub handle_message-Backed :
    (e : Env) (from_peer : ℕ) (msg : Message) (m : MembershipLayer)
    → Backed m
    → Backed (handle_message e from_peer msg m)
unfolding handle_message
handle_message-Backed e from_peer msg m h =
    elim (Bool-cases (not (truthy (id_of msg)) || contains (id_of msg) m.seen_ids)) [
      | inl skip ↦ rw skip h
      | inr fresh ↦ rw fresh (
          dispatch-Backed e from_peer msg (record m { seen_ids = remember (id_of msg) m.seen_ids })
            h)
    ]
