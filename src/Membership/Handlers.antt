-- ===== src/Membership/Handlers.antt =====
-- The message handlers of `MembershipLayer` (whisper/membership.py).
use whisper_network.Common.{
  ℕ, ◌-◌, Option, none, some, List, [], ◌∷◌, Bool, false, not, truthy, ltb, leb, ◌==◌, ◌||◌, ◌&&◌,
  if◌then◌else◌,
}
use whisper_network.Common.Lists.{contains, length}
use whisper_network.Common.Deque.{remember}
use whisper_network.Common.Dict.{Dict, lookup, insert, erase, has_key}
use whisper_network.Wire.{Heartbeat, Suspicion, NodeJoin, Message, heartbeat, suspicion, node_join}
use whisper_network.Membership.State.{
  alive, dead, is_alive, is_dead, PeerInfo, new_peer, MembershipLayer, Env, fanout,
}

abbrev pub dead_reports_needed : ℕ
dead_reports_needed = 2

-- `if x is not None: field = x`, and the same for a truth test
abbrev pub or_keep {ℓ} : {A : Type ℓ} → Option A → A → A
or_keep none old = old
or_keep (some new) old = new

abbrev pub some_or_keep : Option ℕ → Option ℕ → Option ℕ
some_or_keep none old = old
some_or_keep (some new) old = some new

abbrev pub truthy_or_keep : ℕ → Option ℕ → Option ℕ
truthy_or_keep new old = if truthy new then some new else old

-- `self._peers[key]`, after it was entered if it was absent
unfoldable pub peer_or_new : ℕ → ℕ → Dict PeerInfo → PeerInfo
peer_or_new now key peers = or_keep (lookup key peers) (new_peer now key)

-- `hops = msg["hops"] - 1; if hops > 0: self._fanout({**msg, "hops": hops})`
unfoldable pub relay_join : Env → NodeJoin → MembershipLayer → MembershipLayer
relay_join e msg m =
    if ltb 1 msg.hops then fanout e 0 (node_join (record msg { hops = msg.hops - 1 })) m else m

unfoldable pub relay_heartbeat : Env → Heartbeat → MembershipLayer → MembershipLayer
relay_heartbeat e msg m =
    if ltb 1 msg.hops then fanout e 0 (heartbeat (record msg { hops = msg.hops - 1 })) m else m

unfoldable pub relay_suspicion : Env → Suspicion → MembershipLayer → MembershipLayer
relay_suspicion e msg m =
    if ltb 1 msg.hops then fanout e 0 (suspicion (record msg { hops = msg.hops - 1 })) m else m

-- What a `node_join` makes of its sender's entry.
unfoldable pub joined : ℕ → NodeJoin → PeerInfo → PeerInfo
joined now msg peer = record peer {
  last_seen = now;
  status = alive;
  shard_id = some_or_keep msg.shard_id peer.shard_id;
  enc_pubkey = truthy_or_keep msg.enc_pubkey peer.enc_pubkey;
  capabilities = or_keep msg.capabilities peer.capabilities;
  price_axl = or_keep msg.price_axl peer.price_axl;
}

-- `if peer.status != ALIVE: self._suspicions.pop(sender, None)`
unfoldable pub cleared : ℕ → PeerInfo → Dict (List ℕ) → Dict (List ℕ)
cleared key peer suspicions = if is_alive peer.status then suspicions else erase key suspicions

unfoldable pub on_node_join : Env → NodeJoin → MembershipLayer → MembershipLayer
on_node_join e msg m =
    if not (truthy msg.sender) || msg.sender == m.our_key
    then m
    else (let peer = peer_or_new e.now msg.sender m.peers in
        relay_join e msg (record m {
          peers = insert msg.sender (joined e.now msg peer) m.peers;
          suspicions = cleared msg.sender peer m.suspicions;
        }))

-- What a heartbeat makes of its sender's entry.
unfoldable pub beaten : ℕ → Heartbeat → PeerInfo → PeerInfo
beaten now msg peer = record peer {
  last_seen = now;
  status = alive;
  tasks_held = msg.tasks_held;
  shard_id = some_or_keep msg.shard_id peer.shard_id;
  enc_pubkey = truthy_or_keep msg.enc_pubkey peer.enc_pubkey;
  reported_lease_duration = truthy_or_keep msg.lease_duration peer.reported_lease_duration;
  capabilities = or_keep msg.capabilities peer.capabilities;
  price_axl = or_keep msg.price_axl peer.price_axl;
}

-- The loop over `known_peers`
unfoldable pub absorb : ℕ → ℕ → List ℕ → Dict PeerInfo → Dict PeerInfo
absorb now our_key [] peers = peers
absorb now our_key (p ∷ rest) peers =
    absorb now our_key rest
      (if has_key p peers || p == our_key then peers else insert p (new_peer now p) peers)

unfoldable pub on_heartbeat : Env → Heartbeat → MembershipLayer → MembershipLayer
on_heartbeat e msg m =
    if not (truthy msg.sender) || msg.sender == m.our_key
    then m
    else (let peer = peer_or_new e.now msg.sender m.peers in
        relay_heartbeat e msg (record m {
          peers =
              absorb e.now m.our_key msg.known_peers
                (insert msg.sender (beaten e.now msg peer) m.peers);
          suspicions = cleared msg.sender peer m.suspicions;
        }))

-- `self._suspicions.setdefault(suspect, set()).add(reporter)`: the set of reporters afterwards
unfoldable pub reporters_after : ℕ → ℕ → Dict (List ℕ) → List ℕ
reporters_after suspect reporter suspicions =
    let known = or_keep (lookup suspect suspicions) [] in
    if contains reporter known then known else reporter ∷ known

-- `peer and peer.last_seen > sus_ts`
unfoldable pub is_stale : Option PeerInfo → ℕ → Bool
is_stale none at = false
is_stale (some peer) at = ltb at peer.last_seen

-- The part of `_on_suspicion` that looks at a peer which is known.
unfoldable pub condemn : ℕ → List ℕ → Option PeerInfo → MembershipLayer → MembershipLayer
condemn suspect reporters none m = m
condemn suspect reporters (some peer) m =
    if not (is_dead peer.status) && leb dead_reports_needed (length reporters)
    then record m {
      peers = insert suspect (record peer { status = dead }) m.peers;
      dead_calls = suspect ∷ m.dead_calls;
    }
    else m

unfoldable pub on_suspicion : Env → ℕ → Suspicion → MembershipLayer → MembershipLayer
on_suspicion e from_peer msg m =
    if not (truthy msg.suspect)
      || msg.suspect == m.our_key
      || is_stale (lookup msg.suspect m.peers) msg.timestamp
    then m
    else (let reporters = reporters_after msg.suspect (or_keep msg.sender from_peer) m.suspicions in
        relay_suspicion e msg (
          condemn msg.suspect reporters (lookup msg.suspect m.peers)
            (record m { suspicions = insert msg.suspect reporters m.suspicions })))

-- The message id of a message that `handle_message` dispatches on.
abbrev pub id_of : Message → ℕ
id_of (Message.heartbeat msg) = msg.msg_id
id_of (Message.suspicion msg) = msg.msg_id
id_of (Message.node_join msg) = msg.msg_id
id_of (Message.ledger_update msg) = msg.msg_id
id_of (Message.task_result msg) = msg.msg_id
id_of (Message.task_bid_request msg) = msg.msg_id
id_of (Message.task_bid msg) = msg.msg_id
id_of (Message.task_award msg) = msg.msg_id

unfoldable pub dispatch : Env → ℕ → Message → MembershipLayer → MembershipLayer
dispatch e from_peer (Message.heartbeat msg) m = on_heartbeat e msg m
dispatch e from_peer (Message.suspicion msg) m = on_suspicion e from_peer msg m
dispatch e from_peer (Message.node_join msg) m = on_node_join e msg m
dispatch e from_peer _ m = m

unfoldable pub handle_message : Env → ℕ → Message → MembershipLayer → MembershipLayer
handle_message e from_peer msg m =
    if not (truthy (id_of msg)) || contains (id_of msg) m.seen_ids
    then m
    else dispatch e from_peer msg (record m { seen_ids = remember (id_of msg) m.seen_ids })
