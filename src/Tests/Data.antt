-- ===== src/Tests/Data.antt =====
-- Concrete tasks, ledgers, messages and surroundings.
use whisper_network.Common.{ℕ, suc, ◌+◌, none, some, [], ◌∷◌, false, ◌==◌, arith}
use whisper_network.Common.Dict.{Dict}
use whisper_network.Wire.{Task, pending, in_progress, completed, Update}
use whisper_network.Crypto.Signer.{Ed25519, IsCorrect}
use whisper_network.Ledger.State.{Env, TaskLedger, written}

-- A signature scheme in which anybody can sign.
abbrev pub toy_ed25519 : Ed25519
toy_ed25519 = record {
  public_key = λ k. suc k;
  ed_sign = λ k m. suc (k + m.version);
  ed_verify = λ key signature m. signature == key + m.version;
}

pub toy_ed25519-IsCorrect : IsCorrect toy_ed25519
toy_ed25519-IsCorrect = record {
  key_text = λ k. ground arith;
  signature_text = λ k m. ground arith;
  verifies = λ k m. ground arith;
}

-- The surroundings of node 1 at time `now`, with the peers 2, 3 and 4.
abbrev pub env_at : ℕ → Env
env_at now = record {
  now = now;
  fresh_id = λ i. 1000 + now + i;
  shuffled = λ i xs. xs;
  peers = 2 ∷ 3 ∷ 4 ∷ [];
  axl_connected = 3 ∷ [];
  write = written;
  ed25519 = toy_ed25519;
  commit_hash = λ key id now. key + id + now;
  result_digest = λ result. 9;
}

abbrev pub idle_task : ℕ → ℕ → Task
idle_task id version = record {
  task_id = id;
  payload = "data";
  shard_id = 1;
  status = pending;
  leased_by = none;
  lease_expires = 0;
  result = none;
  created_at = 10;
  version = version;
  completed_at = none;
  submitter_key = some 1;
  encrypted = false;
  threshold_t = 0;
  claimed_at = none;
  commitment = none;
  result_hash = none;
}

abbrev pub busy_task : ℕ → ℕ → ℕ → Task
busy_task id holder expires = record (idle_task id 2) {
  status = in_progress;
  leased_by = some holder;
  lease_expires = expires;
}

abbrev pub done_task : ℕ → ℕ → Task
done_task id holder = record (busy_task id holder 50) {
  status = completed;
  result = some "ok";
  completed_at = some 60;
}

abbrev pub ledger_of : Dict Task → TaskLedger
ledger_of tasks = record {
  our_key = 1;
  lease_duration = 30;
  renew_threshold = 12;
  signing_key = some 5;
  tasks = tasks;
  seen_ids = [];
  tasks_rescued = 0;
  disk = none;
  sent = [];
  local_results = [];
}

-- Task 7 is free, task 8 is ours, task 9 is held by node 2, and task 6 is completed.
abbrev pub mixed : TaskLedger
mixed =
    ledger_of (
      (7, idle_task 7 1)
      ∷ (8, busy_task 8 1 120)
      ∷ (9, busy_task 9 2 500)
      ∷ (6, done_task 6 2)
      ∷ [])

abbrev pub update_of : ℕ → Task → Update
update_of id t = record {
  msg_id = id;
  sender = 2;
  hops = 3;
  task = some t;
  signature = 0;
  signing_key = 0;
}
