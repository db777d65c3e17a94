-- ===== src/Node/Sound.antt =====
-- The invariants of the components hold together on a node that handles messages (whisper/node.py,
-- `_start_recv_loop`).
use whisper_network.Common.{
  ℕ, ◌<◌, ◌≡◌, Option, none, some, List, [], ◌∷◌, Bool, true, false, not, ◌||◌, ◌==◌, truthy,
  Bool-cases, inl, inr, arith,
}
use whisper_network.Wire.{
  Message, ledger_update, task_result, heartbeat, suspicion, node_join, task_bid_request, task_bid,
  task_award, Award, Bid, BidRequest,
}
use whisper_network.Ledger.State.{Env, TaskLedger}
use whisper_network.Ledger.Ops.{claim_task}
use whisper_network.Ledger.Queries.{get_all_tasks}
use whisper_network.Ledger.Valid.{IsValid}
use whisper_network.Ledger.Calls.{Call, perform}
use whisper_network.Ledger.Kept.{CarriesWellFormed, perform-IsValid}
use whisper_network.Membership.Confirmed.{Backed}
use whisper_network.Membership.Backed.{handle_message-Backed}
use whisper_network.Node.Auction.{
  Auctioneer, handle_task_bid, handle_task_bid_request, handle_task_award, start_awarded,
}
use whisper_network.Node.Shares.{handle_share_request}
use whisper_network.Runtime.Execute.{Share}
use whisper_network.Node.Receive.{
  WhisperNode, Inbound, of_component, task_submit, share_request, share_response, unknown, Around,
  auctioneer, reply, or_none, handle_p2p_task_submit, buffer_result, receive_message, receive,
  receive_all,
}

-- The ledger is well formed, and every peer held for dead has its reports.
pub record IsSound (node : WhisperNode) : Type 0 where
  pub tasks : IsValid node.ledger.tasks
  pub peers : Backed node.membership

-- A ledger message carries no task or a well-formed one.
abbrev pub Carries : Inbound → Type 0
Carries (of_component (ledger_update msg)) = CarriesWellFormed msg.task
Carries _ = Unit

start_awarded-IsValid :
    (id : ℕ) (a : Auctioneer) (claim : TaskLedger × Bool)
    → IsValid (claim.0).tasks
    → IsValid (start_awarded id a claim).ledger.tasks
unfolding start_awarded
start_awarded-IsValid id a (s, true) valid = valid
start_awarded-IsValid id a (s, false) valid = valid

claim_task-IsValid :
    (e : Env) (id : ℕ) (s : TaskLedger)
    → 0 < e.now
    → IsValid s.tasks
    → IsValid (claim_task e id s).0.tasks
claim_task-IsValid e id s later valid =
    unfold perform in (perform-IsValid e (Call.claim id) s later valid)

handle_task_award-IsValid :
    (e : Env) (msg : Award) (a : Auctioneer)
    → 0 < e.now
    → IsValid a.ledger.tasks
    → IsValid (handle_task_award e msg a).ledger.tasks
unfolding handle_task_award
handle_task_award-IsValid e msg a later valid =
    elim (Bool-cases (not (truthy msg.task_id) || not (msg.winner == a.our_key))) [
      | inl skip ↦ rw skip valid
      | inr ours ↦ rw ours (
          start_awarded-IsValid msg.task_id a (claim_task e msg.task_id a.ledger)
            (claim_task-IsValid e msg.task_id a.ledger later valid))
    ]

handle_task_bid-ledger : (msg : Bid) (a : Auctioneer) → (handle_task_bid msg a).ledger ≡ a.ledger
unfolding handle_task_bid
handle_task_bid-ledger msg a = ground arith

handle_task_bid_request-ledger :
    (e : Env) (msg : BidRequest) (a : Auctioneer)
    → (handle_task_bid_request e msg a).ledger ≡ a.ledger
unfolding handle_task_bid_request
handle_task_bid_request-ledger e msg a = ground arith

reply-IsSound :
    (requester : ℕ) (share : Option Share) (node : WhisperNode)
    → IsSound node
    → IsSound (reply requester share node)
reply-IsSound requester none node h = h
reply-IsSound requester (some share) node h = record { tasks = h.tasks; peers = h.peers }

receive_message-IsSound :
    (e : Around) (from_peer : ℕ) (msg : Message) (node : WhisperNode)
    → 0 < e.tasks.now
    → Carries (of_component msg)
    → IsSound node
    → IsSound (receive_message e from_peer msg node)
unfolding receive_message buffer_result
receive_message-IsSound e from_peer (heartbeat msg) node later ok h = record {
  tasks = h.tasks;
  peers = handle_message-Backed e.members from_peer (heartbeat msg) node.membership h.peers;
}
receive_message-IsSound e from_peer (suspicion msg) node later ok h = record {
  tasks = h.tasks;
  peers = handle_message-Backed e.members from_peer (suspicion msg) node.membership h.peers;
}
receive_message-IsSound e from_peer (node_join msg) node later ok h = record {
  tasks = h.tasks;
  peers = handle_message-Backed e.members from_peer (node_join msg) node.membership h.peers;
}
receive_message-IsSound e from_peer (ledger_update msg) node later ok h = record {
  tasks = unfold perform in (perform-IsValid e.tasks (Call.receive msg) node.ledger ok h.tasks);
  peers = h.peers;
}
receive_message-IsSound e from_peer (task_bid_request msg) node later ok h = record {
  tasks = rw (handle_task_bid_request-ledger e.tasks msg (auctioneer node)) h.tasks;
  peers = h.peers;
}
receive_message-IsSound e from_peer (task_bid msg) node later ok h = record {
  tasks = rw (handle_task_bid-ledger msg (auctioneer node)) h.tasks;
  peers = h.peers;
}
receive_message-IsSound e from_peer (task_award msg) node later ok h = record {
  tasks = handle_task_award-IsValid e.tasks msg (auctioneer node) later h.tasks;
  peers = h.peers;
}
receive_message-IsSound e from_peer (task_result msg) node later ok h = record {
  tasks = h.tasks;
  peers = h.peers;
}

receive-IsSound :
    (e : Around) (from_peer : ℕ) (msg : Inbound) (node : WhisperNode)
    → 0 < e.tasks.now
    → Carries msg
    → IsSound node
    → IsSound (receive e from_peer msg node)
unfolding receive handle_p2p_task_submit
receive-IsSound e from_peer (of_component msg) node later ok h =
    receive_message-IsSound e from_peer msg node later ok h
receive-IsSound e from_peer (task_submit id payload shard sender) node later ok h = record {
  tasks =
      unfold perform in
      (perform-IsValid e.tasks (Call.submit e.ciphers id payload shard (or_none sender)) node.ledger
        later h.tasks);
  peers = h.peers;
}
receive-IsSound e from_peer (share_request id requester) node later ok h =
    reply-IsSound requester
      (handle_share_request e.own_share id requester (get_all_tasks node.ledger)) node h
receive-IsSound e from_peer (share_response id none) node later ok h = h
receive-IsSound e from_peer (share_response id (some share)) node later ok h = record {
  tasks = h.tasks;
  peers = h.peers;
}
receive-IsSound e from_peer unknown node later ok h = h

-- Every message comes after time 0, and a ledger message carries no task or a well-formed one.
abbrev pub AllCarry : List (Around × ℕ × Inbound) → Type 0
AllCarry [] = Unit
AllCarry ((e, from_peer, msg) ∷ rest) = (0 < e.tasks.now) × Carries msg × AllCarry rest

-- Whatever messages a node handles after time 0, in any order, if the ledger messages among them carry
-- no task or a well-formed one: its ledger stays well formed, it never becomes its own peer, and every
-- peer that it holds for dead keeps two distinct reporters.
pub receive_all-IsSound :
    (msgs : List (Around × ℕ × Inbound)) (node : WhisperNode)
    → AllCarry msgs
    → IsSound node
    → IsSound (receive_all msgs node)
unfolding receive_all
receive_all-IsSound [] node ok h = h
receive_all-IsSound ((e, from_peer, msg) ∷ rest) node ok h =
    receive_all-IsSound rest (receive e from_peer msg node) ok.2
      (receive-IsSound e from_peer msg node ok.0 ok.1 h)
