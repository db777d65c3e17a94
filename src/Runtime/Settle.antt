-- ===== src/Runtime/Settle.antt =====
-- What an execution leaves in the ledger (whisper/runtime.py, `_execute_one`).
use whisper_network.Common.{
  ◌<◌, ◌≡◌, ◌⊎◌, ◌↔◌, inl, inr, refl, some, true, List, arith, Option-cases, Bool-cases, is_some_eq,
  String,
}
use whisper_network.Common.Lists.{length}
use whisper_network.Common.Dict.{lookup}
use whisper_network.Wire.{Task}
use whisper_network.Ledger.State.{Env, TaskLedger}
use whisper_network.Ledger.Ops.{finished, freed}
use whisper_network.Ledger.Leases.{Writes, complete_task_known, release_lease_known}
use whisper_network.Runtime.Execute.{
  Tools, Share, Outcome, complete_with, release, outcome_of_shares, threshold_outcome,
  encrypted_outcome, outcome, conclude, execute_one, is_threshold,
}

-- An execution gives a task back exactly if it is under threshold encryption, shares can be
-- collected, and fewer arrive than the threshold; in every other case it ends with a result.
pub outcome_release :
    (k : Tools) (t : Task)
    → (outcome k t ≡ release) ↔ (
        (is_threshold t ≡ true)
        × ((collect : Task → List Share) × (k.collect_shares ≡ some collect)
            × (length (collect t) < t.threshold_t)))
unfolding outcome threshold_outcome encrypted_outcome outcome_of_shares
outcome_release k t = (
  λ gives_back. elim (Bool-cases (is_threshold t)) [
    | inr plain ↦ absurd (ground arith)
    | inl sealed ↦ elim (Option-cases k.collect_shares) [
      | inl missing ↦ absurd (ground arith)
      | inr (collect, there) ↦ (sealed, (collect, there, ground arith))
    ]
  ],
  λ (sealed, (collect, there, few)). ground arith,
)

Outcome-cases : (o : Outcome) → ((result : String) × (o ≡ complete_with result)) ⊎ (o ≡ release)
Outcome-cases (complete_with result) = inl (result, refl)
Outcome-cases release = inr refl

-- A task that is ours when its execution starts does not stay with us unfinished: afterwards its entry
-- is completed with the outcome's result, or is free again, and no other entry has changed.
pub execute_one-settles :
    (e : Env) (k : Tools) (s : TaskLedger) {t : Task}
    → lookup t.task_id s.tasks ≡ some t
    → t.leased_by ≡ some s.our_key
    → ((result : String) × (outcome k t ≡ complete_with result)
        × Writes t.task_id (finished e result t) s (execute_one e k t s))
      ⊎ ((outcome k t ≡ release) × Writes t.task_id (freed t) s (execute_one e k t s))
unfolding execute_one
execute_one-settles e k s {t} known ours =
    let holder : is_some_eq t.leased_by s.our_key ≡ true = ground arith in
    elim (Outcome-cases (outcome k t)) [
      | inl (result, ends) ↦ elim (complete_task_known e t.task_id s known result) [
        | inl (o, done, writes) ↦ inl (result, ends, unfold conclude in (rw ends writes))
        | inr (refused, same) ↦ absurd (ground arith)
      ]
      | inr gives_back ↦ elim (release_lease_known e t.task_id s known) [
        | inl (o, done, writes) ↦ inr (gives_back, unfold conclude in (rw gives_back writes))
        | inr (refused, same) ↦ absurd (ground arith)
      ]
    ]
