-- ===== src/Ledger/Submit.antt =====
-- `TaskLedger.submit_task` (whisper/ledger.py).
use whisper_network.Common.{
  ℕ, Option, none, some, Bool, true, false, String, List, if◌then◌else◌, truthy, not, ◌&&◌,
}
use whisper_network.Common.Dict.{insert}
use whisper_network.Wire.{Task, pending}
use whisper_network.Ledger.State.{Env, TaskLedger, persist, gossip_task}

-- What the injected ciphers and callbacks answer during the call; `none` from an encryption is an
-- exception. A cipher that is not set counts as disabled.
pub record Ciphers : Type 0 where
  pub threshold_enabled : Bool
  pub threshold_params : Option (ℕ × List ℕ)
  pub threshold_encrypt : List ℕ → String → ℕ → Option String
  pub cipher_enabled : Bool
  pub enc_pubkey : ℕ → Option ℕ
  pub cipher_encrypt : ℕ → String → Option String

-- The payload as it is stored, `encrypted` and `threshold_t`.
pub record Sealed : Type 0 where
  pub payload : String
  pub encrypted : Bool
  pub threshold_t : ℕ

unfoldable pub threshold_sealed : Ciphers → String → Sealed
threshold_sealed c payload =
    let plain : Sealed = record { payload = payload; encrypted = false; threshold_t = 0 } in
    if c.threshold_enabled
    then elim c.threshold_params [
      | none ↦ plain
      | some (t, pubkeys) ↦ elim (c.threshold_encrypt pubkeys payload t) [
        | none ↦ plain
        | some blob ↦ record { payload = blob; encrypted = false; threshold_t = t }
      ]
    ]
    else plain

-- The fallback, for a task that has no threshold encryption.
unfoldable pub shard_sealed : Ciphers → ℕ → Sealed → Sealed
shard_sealed c shard_id s =
    if not (truthy s.threshold_t) && c.cipher_enabled
    then elim (c.enc_pubkey shard_id) [
      | none ↦ s
      | some target ↦
          if truthy target
          then elim (c.cipher_encrypt target s.payload) [
            | none ↦ s
            | some blob ↦ record s { payload = blob; encrypted = true }
          ]
          else s
    ]
    else s

unfoldable pub sealed : Ciphers → ℕ → String → Sealed
sealed c shard_id payload = shard_sealed c shard_id (threshold_sealed c payload)

-- The task that is entered.
unfoldable pub submitted : Env → ℕ → Sealed → ℕ → Option ℕ → Task
submitted e task_id s shard_id submitter_key = record {
  task_id = task_id;
  payload = s.payload;
  shard_id = shard_id;
  status = pending;
  leased_by = none;
  lease_expires = 0;
  result = none;
  created_at = e.now;
  version = 1;
  completed_at = none;
  submitter_key = submitter_key;
  encrypted = s.encrypted;
  threshold_t = s.threshold_t;
  claimed_at = none;
  commitment = none;
  result_hash = none;
}

unfoldable pub submit_task :
    Env → Ciphers → ℕ → String → ℕ → Option ℕ → TaskLedger → TaskLedger × Task
submit_task e c task_id payload shard_id submitter_key s =
    let task = submitted e task_id (sealed c shard_id payload) shard_id submitter_key in
    (gossip_task e 0 task (persist e (record s { tasks = insert task_id task s.tasks })), task)
