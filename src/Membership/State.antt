-- ===== src/Membership/State.antt =====
-- The state of `MembershipLayer` (whisper/membership.py) and its outgoing messages.
use whisper_network.Common.{
  ℕ, ◌+◌, ◌*◌, Option, none, some, List, [], ◌∷◌, ◌++◌, Bool, true, false, not,
}
use whisper_network.Common.Lists.{keep}
use whisper_network.Common.Dict.{Dict, keys}
use whisper_network.Wire.{
  Heartbeat, Suspicion, NodeJoin, Message, heartbeat, suspicion, node_join, Sent, send_all,
}
use whisper_network.Gossip.{fanout_targets, gossip_hops}

-- `PeerStatus`
pub data PeerStatus : Type 0 where
  alive suspected dead : PeerStatus

abbrev pub is_alive : PeerStatus → Bool
is_alive alive = true
is_alive _ = false

abbrev pub is_suspected : PeerStatus → Bool
is_suspected suspected = true
is_suspected _ = false

abbrev pub is_dead : PeerStatus → Bool
is_dead dead = true
is_dead _ = false

-- Prices are whole numbers of 0.001 AXL.
pub record PeerInfo : Type 0 where
  pub peer_key : ℕ
  pub status : PeerStatus
  pub last_seen : ℕ
  pub tasks_held : List ℕ
  pub shard_id : Option ℕ
  pub enc_pubkey : Option ℕ
  pub reported_lease_duration : Option ℕ
  pub capabilities : List ℕ
  pub price_axl : ℕ

-- `PeerInfo(peer_key=key)`
abbrev pub new_peer : ℕ → ℕ → PeerInfo
new_peer now key = record {
  peer_key = key;
  status = alive;
  last_seen = now;
  tasks_held = [];
  shard_id = none;
  enc_pubkey = none;
  reported_lease_duration = none;
  capabilities = [];
  price_axl = 10;
}

-- `sent` records the calls of the transport, and `dead_calls` those of `on_peer_dead`.
pub record MembershipLayer : Type 0 where
  pub our_key : ℕ
  pub our_shard_id : ℕ
  pub cluster_size : ℕ
  pub suspect_after : ℕ
  pub peers : Dict PeerInfo
  pub suspicions : Dict (List ℕ)
  pub seen_ids : List ℕ
  pub axl_connected : List ℕ
  pub prev_axl_connected : List ℕ
  pub our_enc_pubkey : ℕ
  pub our_lease_duration : ℕ
  pub our_capabilities : List ℕ
  pub our_price_axl : ℕ
  pub sent : List Sent
  pub dead_calls : List ℕ

-- What a call reads from its surroundings: the clock, `uuid4`, `random.shuffle`, and the task ids
-- that the injected `_tasks_held_fn` returns.
pub record Env : Type 0 where
  pub now : ℕ
  pub fresh_id : ℕ → ℕ
  pub shuffled : ℕ → List ℕ → List ℕ
  pub tasks_held : List ℕ

-- `[k for k, p in self._peers.items() if p(p)]`
abbrev pub keys_with : (PeerInfo → Bool) → Dict PeerInfo → List ℕ
keys_with p d = keys (keep (λ e. p e.1) d)

-- `get_alive_peers`
unfoldable pub get_alive_peers : MembershipLayer → List ℕ
get_alive_peers m = keys_with (λ p. not (is_dead p.status)) m.peers

-- `_fanout`; `i` numbers the fan-outs of one call.
unfoldable pub fanout : Env → ℕ → Message → MembershipLayer → MembershipLayer
fanout e i msg m =
    let targets =
      fanout_targets (e.shuffled (2 * i)) (e.shuffled (2 * i + 1)) (get_alive_peers m)
        m.axl_connected in
    record m { sent = m.sent ++ send_all targets msg }

-- `_send_join_to`
unfoldable pub send_join_to : Env → ℕ → ℕ → ℕ → MembershipLayer → MembershipLayer
send_join_to e i peer_key hops m =
    let msg : NodeJoin = record {
      msg_id = e.fresh_id i;
      sender = m.our_key;
      shard_id = some m.our_shard_id;
      hops = hops;
      capabilities = some m.our_capabilities;
      price_axl = some m.our_price_axl;
      enc_pubkey = m.our_enc_pubkey;
    } in
    record m { sent = m.sent ++ (peer_key, node_join msg) ∷ [] }

-- `_gossip_suspicion`
unfoldable pub gossip_suspicion : Env → ℕ → ℕ → MembershipLayer → MembershipLayer
gossip_suspicion e i suspect m =
    let msg : Suspicion = record {
      msg_id = e.fresh_id i;
      sender = some m.our_key;
      suspect = suspect;
      timestamp = e.now;
      hops = gossip_hops;
    } in
    fanout e i (suspicion msg) m

-- `for key in keys: self._send_join_to(key, hops)` and `for key in keys: self._gossip_suspicion(key)`,
-- the messages of the call numbered from `i`
unfoldable pub join_all : Env → ℕ → ℕ → List ℕ → MembershipLayer → MembershipLayer
join_all e i hops [] m = m
join_all e i hops (key ∷ rest) m = join_all e (i + 1) hops rest (send_join_to e i key hops m)

unfoldable pub suspect_all : Env → ℕ → List ℕ → MembershipLayer → MembershipLayer
suspect_all e i [] m = m
suspect_all e i (key ∷ rest) m = suspect_all e (i + 1) rest (gossip_suspicion e i key m)

-- `_broadcast_heartbeat`
unfoldable pub broadcast_heartbeat : Env → MembershipLayer → MembershipLayer
broadcast_heartbeat e m =
    let msg : Heartbeat = record {
      msg_id = e.fresh_id 0;
      sender = m.our_key;
      timestamp = e.now;
      shard_id = some m.our_shard_id;
      tasks_held = e.tasks_held;
      known_peers = keys_with (λ p. is_alive p.status) m.peers;
      hops = gossip_hops;
      lease_duration = m.our_lease_duration;
      capabilities = some m.our_capabilities;
      price_axl = some m.our_price_axl;
      enc_pubkey = m.our_enc_pubkey;
    } in
    record m { sent = m.sent ++ send_all (get_alive_peers m) (heartbeat msg) }

-- `broadcast_join`
unfoldable pub broadcast_join : Env → MembershipLayer → MembershipLayer
broadcast_join e m = join_all e 0 gossip_hops m.axl_connected m
