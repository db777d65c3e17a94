-- ===== src/Wire.antt =====
-- The JSON messages that nodes exchange over AXL (built in whisper/ledger.py, whisper/membership.py
-- and whisper/node.py), and the task record that ledger messages carry.
-- An identifier (peer key, task id, message id, hexadecimal key, hash) is a number; 0 is the empty
-- string, and stands also for a missing field where the code tests only the field's truth value.
use whisper_network.Common.{ℕ, Bool, true, false, Option, List, String, map}

-- `Task.status`
pub data Status : Type 0 where
  pending in_progress completed : Status

abbrev pub is_pending : Status → Bool
is_pending pending = true
is_pending _ = false

abbrev pub is_in_progress : Status → Bool
is_in_progress in_progress = true
is_in_progress _ = false

abbrev pub is_completed : Status → Bool
is_completed completed = true
is_completed _ = false

-- Times and durations are whole numbers of one small unit.
pub record Task : Type 0 where
  pub task_id : ℕ
  pub payload : String
  pub shard_id : ℕ
  pub status : Status
  pub leased_by : Option ℕ
  pub lease_expires : ℕ
  pub result : Option String
  pub created_at : ℕ
  pub version : ℕ
  pub completed_at : Option ℕ
  pub submitter_key : Option ℕ
  pub encrypted : Bool
  pub threshold_t : ℕ
  pub claimed_at : Option ℕ
  pub commitment : Option ℕ
  pub result_hash : Option ℕ

-- `ledger_update`; `hops` is 0 if the field is missing.
pub record Update : Type 0 where
  pub msg_id : ℕ
  pub sender : ℕ
  pub hops : ℕ
  pub task : Option Task
  pub signature : ℕ
  pub signing_key : ℕ

-- `task_result`
pub record Notification : Type 0 where
  pub msg_id : ℕ
  pub sender : ℕ
  pub task_id : ℕ
  pub shard_id : ℕ
  pub result : Option String
  pub completed_at : Option ℕ

-- `heartbeat`; an `enc_pubkey` or `lease_duration` of 0 stands for a missing field too.
pub record Heartbeat : Type 0 where
  pub msg_id : ℕ
  pub sender : ℕ
  pub timestamp : ℕ
  pub shard_id : Option ℕ
  pub tasks_held : List ℕ
  pub known_peers : List ℕ
  pub hops : ℕ
  pub lease_duration : ℕ
  pub capabilities : Option (List ℕ)
  pub price_axl : Option ℕ
  pub enc_pubkey : ℕ

-- `suspicion`; `timestamp` is 0 if the field is missing, and `sender` is the optional "from".
pub record Suspicion : Type 0 where
  pub msg_id : ℕ
  pub sender : Option ℕ
  pub suspect : ℕ
  pub timestamp : ℕ
  pub hops : ℕ

-- `node_join`
pub record NodeJoin : Type 0 where
  pub msg_id : ℕ
  pub sender : ℕ
  pub shard_id : Option ℕ
  pub hops : ℕ
  pub capabilities : Option (List ℕ)
  pub price_axl : Option ℕ
  pub enc_pubkey : ℕ

-- `task_bid_request`
pub record BidRequest : Type 0 where
  pub msg_id : ℕ
  pub sender : ℕ
  pub task_id : ℕ
  pub shard_id : ℕ

-- `task_bid`
pub record Bid : Type 0 where
  pub msg_id : ℕ
  pub sender : ℕ
  pub task_id : ℕ
  pub shard_id : ℕ
  pub price_axl : ℕ
  pub capabilities : List ℕ

-- `task_award`
pub record Award : Type 0 where
  pub msg_id : ℕ
  pub sender : ℕ
  pub task_id : ℕ
  pub winner : ℕ
  pub price_axl : ℕ
  pub shard_id : ℕ

pub data Message : Type 0 where
  ledger_update : Update → Message
  task_result : Notification → Message
  heartbeat : Heartbeat → Message
  suspicion : Suspicion → Message
  node_join : NodeJoin → Message
  task_bid_request : BidRequest → Message
  task_bid : Bid → Message
  task_award : Award → Message

-- A call of `transport.send(peer, msg)`.
abbrev pub Sent : Type 0
Sent = ℕ × Message

-- `for peer in targets: transport.send(peer, msg)`
abbrev pub send_all : List ℕ → Message → List Sent
send_all targets msg = map (λ peer. (peer, msg)) targets
