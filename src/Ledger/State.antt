-- ===== src/Ledger/State.antt =====
-- The state of `TaskLedger` (whisper/ledger.py) and the internal helpers that every method uses.
use whisper_network.Common.{
  ℕ, ◌+◌, ◌*◌, Option, none, some, List, [], ◌∷◌, ◌++◌, String, truthy, if◌then◌else◌, ◌==◌,
}
use whisper_network.Common.Dict.{Dict}
use whisper_network.Wire.{Task, Update, Notification, ledger_update, task_result, Sent, send_all}
use whisper_network.Crypto.Signer.{Ed25519, sign}
use whisper_network.Gossip.{fanout_targets, gossip_hops}

-- The ledger file as `_load` reads it; `none` if it is absent or cannot be parsed.
abbrev pub Disk : Type 0
Disk = Option (Dict Task)

-- How one write of the ledger file ends; a failed one may leave any content.
pub data Write : Type 0 where
  written : Write
  failed : Disk → Write

-- What a call reads from its surroundings: the clock, `uuid4` for each message it makes, the results
-- of `random.shuffle`, the peers and the AXL neighbours that the injected callbacks return, the file
-- system, and the hash and signature libraries.
pub record Env : Type 0 where
  pub now : ℕ
  pub fresh_id : ℕ → ℕ
  pub shuffled : ℕ → List ℕ → List ℕ
  pub peers : List ℕ
  pub axl_connected : List ℕ
  pub write : Write
  pub ed25519 : Ed25519
  pub commit_hash : ℕ → ℕ → ℕ → ℕ
  pub result_digest : String → ℕ

-- `sent` and `local_results` record the calls of the transport and of `_local_result_fn` in order.
pub record TaskLedger : Type 0 where
  pub our_key : ℕ
  pub lease_duration : ℕ
  pub renew_threshold : ℕ
  pub signing_key : Option ℕ
  pub tasks : Dict Task
  pub seen_ids : List ℕ
  pub tasks_rescued : ℕ
  pub disk : Disk
  pub sent : List Sent
  pub local_results : List Notification

-- The tasks that `_load` takes from the file, which is modelled by what can be read back of it.
abbrev pub loaded : Disk → Dict Task
loaded none = []
loaded (some tasks) = tasks

-- `__init__` and `_load`
unfoldable pub init : ℕ → ℕ → ℕ → Option ℕ → Disk → TaskLedger
init our_key lease_duration renew_threshold signing_key disk = record {
  our_key = our_key;
  lease_duration = lease_duration;
  renew_threshold = renew_threshold;
  signing_key = signing_key;
  tasks = loaded disk;
  seen_ids = [];
  tasks_rescued = 0;
  disk = disk;
  sent = [];
  local_results = [];
}

-- `_persist`: the file holds all tasks afterwards, or, if the write fails, what it leaves behind.
abbrev pub persist : Env → TaskLedger → TaskLedger
persist e s = record s { disk = elim e.write [ written ↦ some s.tasks | failed left ↦ left ] }

-- `_fanout_raw`; `i` numbers the fan-outs of one call.
unfoldable pub fanout_raw : Env → ℕ → Update → TaskLedger → TaskLedger
fanout_raw e i msg s =
    let targets =
      fanout_targets (e.shuffled (2 * i)) (e.shuffled (2 * i + 1)) e.peers e.axl_connected in
    record s { sent = s.sent ++ send_all targets (ledger_update msg) }

-- `_gossip_task`
unfoldable pub gossip_task : Env → ℕ → Task → TaskLedger → TaskLedger
gossip_task e i task s =
    let msg : Update = record {
      msg_id = e.fresh_id i;
      sender = s.our_key;
      hops = gossip_hops;
      task = some task;
      signature = 0;
      signing_key = 0;
    } in
    fanout_raw e i (sign e.ed25519 s.signing_key msg) s

-- The loop over the tasks that a bulk operation changed.
unfoldable pub gossip_all : Env → ℕ → List Task → TaskLedger → TaskLedger
gossip_all e i [] s = s
gossip_all e i (task ∷ rest) s = gossip_all e (i + 1) rest (gossip_task e i task s)

-- `_notify_submitter`, below its test of `submitter_key`
unfoldable pub notify_key : Env → Task → ℕ → TaskLedger → TaskLedger
notify_key e task key s =
    let notification : Notification = record {
      msg_id = e.fresh_id 1;
      sender = s.our_key;
      task_id = task.task_id;
      shard_id = task.shard_id;
      result = task.result;
      completed_at = task.completed_at;
    } in
    if key == s.our_key
    then record s { local_results = s.local_results ++ notification ∷ [] }
    else record s { sent = s.sent ++ (key, task_result notification) ∷ [] }

unfoldable pub notify_submitter : Env → Task → TaskLedger → TaskLedger
notify_submitter e task s = elim task.submitter_key [
  | none ↦ s
  | some key ↦ if truthy key then notify_key e task key s else s
]
