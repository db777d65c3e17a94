-- ===== src/Runtime/Execute.antt =====
-- The execution of one task whose lease is held (whisper/runtime.py, `_execute_one` and the thread
-- bodies around it).
use text.Mathlib.Text.{starts_with}
use Prim.Native.String.{String, ◌++◌}
use whisper_network.Common.{ℕ, Option, none, some, List, Bool, ◌&&◌, ltb, if◌then◌else◌}
use whisper_network.Common.Lists.{length}
use whisper_network.Wire.{Task}
use whisper_network.Ledger.State.{Env, TaskLedger}
use whisper_network.Ledger.Ops.{complete_task, release_lease}
use whisper_network.Runtime.Text.{shard_note}
use whisper_network.Runtime.Dispatch.{Runner, discard_executing, still_ours}

-- A Shamir share: its x and its bytes.
abbrev pub Share : Type 0
Share = ℕ × List ℕ

-- What the execution calls: the share collection (absent if none was injected), the two decryptions,
-- `none` or a text for an exception, and `execute`, the inference over the shard.
pub record Tools : Type 0 where
  pub collect_shares : Option (Task → List Share)
  pub reconstruct_and_decrypt : String → List Share → Option String
  pub error_text : String → List Share → String
  pub cipher_enabled : Bool
  pub decrypt : String → Option String
  pub execute : String → ℕ → String

-- How an execution ends.
pub data Outcome : Type 0 where
  complete_with : String → Outcome
  release : Outcome

abbrev pub threshold_marker : String
threshold_marker = "THRESHOLD:"

abbrev pub encrypted_marker : String
encrypted_marker = "ENC:"

-- The threshold branch, with the shares collected.
unfoldable pub outcome_of_shares : Tools → Task → List Share → Outcome
outcome_of_shares k t shares =
    if ltb (length shares) t.threshold_t
    then release
    else elim (k.reconstruct_and_decrypt t.payload shares) [
      | none ↦ complete_with (
          shard_note t.shard_id
            (◌++◌ "[threshold decryption failed: " (◌++◌ (k.error_text t.payload shares) "]")))
      | some plain ↦ complete_with (k.execute plain t.shard_id)
    ]

unfoldable pub threshold_outcome : Tools → Task → Outcome
threshold_outcome k t = elim k.collect_shares [
  | none ↦ complete_with (shard_note t.shard_id "[threshold encrypted — no share collection fn]")
  | some collect ↦ outcome_of_shares k t (collect t)
]

-- The per-shard branch.
unfoldable pub encrypted_outcome : Tools → Task → Outcome
encrypted_outcome k t =
    if k.cipher_enabled
    then elim (k.decrypt t.payload) [
      | none ↦ complete_with (shard_note t.shard_id "[encrypted payload — home node offline]")
      | some plain ↦ complete_with (k.execute plain t.shard_id)
    ]
    else complete_with (shard_note t.shard_id "[encrypted payload — no key configured]")

-- The payload is under threshold encryption, or under the per-shard cipher.
unfoldable pub is_threshold : Task → Bool
is_threshold t = ltb 0 t.threshold_t && starts_with t.payload threshold_marker

unfoldable pub is_encrypted : Task → Bool
is_encrypted t = t.encrypted && starts_with t.payload encrypted_marker

unfoldable pub outcome : Tools → Task → Outcome
outcome k t =
    if is_threshold t
    then threshold_outcome k t
    else (if is_encrypted t
        then encrypted_outcome k t
        else complete_with (k.execute t.payload t.shard_id))

-- `_execute_one`
unfoldable pub conclude : Env → ℕ → Outcome → TaskLedger → TaskLedger
conclude e id (complete_with result) s = (complete_task e id result s).0
conclude e id release s = (release_lease e id s).0

unfoldable pub execute_one : Env → Tools → Task → TaskLedger → TaskLedger
execute_one e k t s = conclude e t.task_id (outcome k t) s

-- The body of the threads, after the pause: the lease is checked, the task is executed if it is still
-- ours, and the id leaves the executing set in either case.
unfoldable pub run_exec_thread : Env → Tools → ℕ → Runner → Runner
run_exec_thread e k id r = record r {
  ledger = elim (still_ours id r.ledger) [ none ↦ r.ledger | some t ↦ execute_one e k t r.ledger ];
  executing = discard_executing id r.executing;
}
