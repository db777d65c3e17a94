-- ===== src/Node/Receive.antt =====
-- What a `WhisperNode` (whisper/node.py) does with a message: the body of `_start_recv_loop`,
-- `_handle_p2p_task_submit`, `_get_enc_pubkey_for_shard`, `_buffer_result` and the ledger's
-- part of `shutdown`.
use whisper_network.Common.{
  ℕ, ◌+◌, Option, none, some, List, [], ◌∷◌, ◌++◌, String, if◌then◌else◌, truthy, ◌==◌,
}
use whisper_network.Common.Dict.{Dict}
use whisper_network.Wire.{
  Message, ledger_update, task_result, heartbeat, suspicion, node_join, task_bid_request, task_bid,
  task_award, Notification, Sent,
}
use whisper_network.Ledger.State.{Env, TaskLedger}
use whisper_network.Ledger.Submit.{Ciphers, submit_task}
use whisper_network.Ledger.Update.{handle_ledger_update}
use whisper_network.Ledger.Bulk.{release_all_leases}
use whisper_network.Ledger.Queries.{get_all_tasks}
use whisper_network.Membership.State.{MembershipLayer}
use whisper_network.Membership.State as Members
use whisper_network.Membership.Handlers.{handle_message}
use whisper_network.Membership.Queries.{get_peer_for_shard, get_enc_pubkey}
use whisper_network.Runtime.Execute.{Share}
use whisper_network.Node.Auction.{
  Auctioneer, Collection, handle_task_bid, handle_task_bid_request, handle_task_award,
}
use whisper_network.Node.Shares.{ShareSlot, handle_share_request, handle_share_response}

-- `task_results` holds the results that arrived by message; those of the node's own tasks are the
-- `local_results` of the ledger. `share_replies` records the share responses that were sent, `auctions` the threads of `_run_auction`
-- that were started, `wakes` the calls of `runtime.wake`.
pub record WhisperNode : Type 0 where
  pub membership : MembershipLayer
  pub ledger : TaskLedger
  pub shard_id : ℕ
  pub bid_collections : Dict Collection
  pub share_collections : Dict ShareSlot
  pub task_results : List Notification
  pub sent : List Sent
  pub awarded : List ℕ
  pub share_replies : List (ℕ × Share)
  pub auctions : List (ℕ × ℕ)
  pub wakes : ℕ

-- A message as the loop tells it apart: those of the components, and the node's own. A share response
-- that cannot be decoded carries none.
pub data Inbound : Type 0 where
  of_component : Message → Inbound
  task_submit : ℕ → String → ℕ → ℕ → Inbound
  share_request : ℕ → ℕ → Inbound
  share_response : ℕ → Option Share → Inbound
  unknown : Inbound

-- The surroundings of one message: those of the two components, the ciphers, and `decrypt_own_share`.
pub record Around : Type 0 where
  pub members : Members.Env
  pub tasks : Env
  pub ciphers : Ciphers
  pub own_share : String → Option Share

-- What the auction handlers see of the node, and what they leave.
abbrev pub auctioneer : WhisperNode → Auctioneer
auctioneer node = record {
  our_key = node.ledger.our_key;
  our_shard = node.shard_id;
  our_price = node.membership.our_price_axl;
  our_capabilities = node.membership.our_capabilities;
  collections = node.bid_collections;
  ledger = node.ledger;
  sent = node.sent;
  started = node.awarded;
}

abbrev pub after_auction : WhisperNode → Auctioneer → WhisperNode
after_auction node a = record node {
  ledger = a.ledger;
  bid_collections = a.collections;
  sent = a.sent;
  awarded = a.started;
}

-- `msg.get("from") or None`
abbrev pub or_none : ℕ → Option ℕ
or_none key = if truthy key then some key else none

-- `_handle_p2p_task_submit`
unfoldable pub handle_p2p_task_submit : Around → ℕ → String → ℕ → ℕ → WhisperNode → WhisperNode
handle_p2p_task_submit e task_id payload shard_id sender node = record node {
  ledger = (submit_task e.tasks e.ciphers task_id payload shard_id (or_none sender) node.ledger).0;
  wakes = node.wakes + 1;
  auctions = (task_id, shard_id) ∷ node.auctions;
}

-- `_buffer_result`
unfoldable pub buffer_result : Notification → WhisperNode → WhisperNode
buffer_result result node = record node { task_results = node.task_results ++ result ∷ [] }

abbrev pub reply : ℕ → Option Share → WhisperNode → WhisperNode
reply requester none node = node
reply requester (some share) node = record node {
  share_replies = (requester, share) ∷ node.share_replies;
}

-- The dispatch of the receive loop on the messages of the components.
unfoldable pub receive_message : Around → ℕ → Message → WhisperNode → WhisperNode
receive_message e from_peer (heartbeat msg) node = record node {
  membership = handle_message e.members from_peer (heartbeat msg) node.membership;
}
receive_message e from_peer (suspicion msg) node = record node {
  membership = handle_message e.members from_peer (suspicion msg) node.membership;
}
receive_message e from_peer (node_join msg) node = record node {
  membership = handle_message e.members from_peer (node_join msg) node.membership;
}
receive_message e from_peer (ledger_update msg) node = record node {
  ledger = handle_ledger_update e.tasks msg node.ledger;
}
receive_message e from_peer (task_bid_request msg) node =
    after_auction node (handle_task_bid_request e.tasks msg (auctioneer node))
receive_message e from_peer (task_bid msg) node =
    after_auction node (handle_task_bid msg (auctioneer node))
receive_message e from_peer (task_award msg) node =
    after_auction node (handle_task_award e.tasks msg (auctioneer node))
receive_message e from_peer (task_result msg) node = buffer_result msg node

-- The body of the receive loop, for one message.
unfoldable pub receive : Around → ℕ → Inbound → WhisperNode → WhisperNode
receive e from_peer (of_component msg) node = receive_message e from_peer msg node
receive e from_peer (task_submit task_id payload shard_id sender) node =
    handle_p2p_task_submit e task_id payload shard_id sender node
receive e from_peer (share_request task_id requester) node =
    reply requester (handle_share_request e.own_share task_id requester (get_all_tasks node.ledger))
      node
receive e from_peer (share_response task_id none) node = node
receive e from_peer (share_response task_id (some share)) node = record node {
  share_collections = handle_share_response task_id share node.share_collections;
}
receive e from_peer unknown node = node

unfoldable pub receive_all : List (Around × ℕ × Inbound) → WhisperNode → WhisperNode
receive_all [] node = node
receive_all ((e, from_peer, msg) ∷ rest) node = receive_all rest (receive e from_peer msg node)

-- `_get_enc_pubkey_for_shard`; `own` is `self._cipher.x25519_pubkey_hex`.
unfoldable pub get_enc_pubkey_for_shard : Option ℕ → ℕ → WhisperNode → Option ℕ
get_enc_pubkey_for_shard own shard_id node =
    if shard_id == node.shard_id then own else elim (get_peer_for_shard shard_id node.membership) [
      | none ↦ none
      | some key ↦ if truthy key then get_enc_pubkey key node.membership else none
    ]

-- `shutdown`, below the stopping of the threads.
unfoldable pub shutdown : Env → WhisperNode → WhisperNode × ℕ
shutdown e node =
    let (s, released) = release_all_leases e node.ledger in (record node { ledger = s }, released)
