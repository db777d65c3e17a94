-- ===== src/Tests/LedgerCalls.antt =====
-- The methods of the ledger, the signatures and an execution at concrete inputs.
use whisper_network.Common.{ℕ, ◌≤◌, ◌≡◌, ◌≢◌, refl, Option, none, some, true, false, ◌⊎◌, String}
use whisper_network.Common.Dict.{lookup, values}
use whisper_network.Common.Lists.{All}
use whisper_network.Wire.{Task, Update, pending, in_progress, completed}
use whisper_network.Crypto.Signer.{sign, verify}
use whisper_network.Crypto.Signing.{verify-sign, verify_tampered}
use whisper_network.Ledger.Ops.{claim_task, renew_lease, complete_task, release_lease}
use whisper_network.Ledger.Bulk.{recover_identity, release_all_leases}
use whisper_network.Ledger.Effects.{
  Rescued, Becomes, IsClaimed, IsRenewed, IsFinished, IsFreed, claim_task-IsClaimed,
  renew_lease-IsRenewed, complete_task-IsFinished, release_lease-IsFreed,
}
use whisper_network.Ledger.Walks.{
  IsHeld, Counts, Walked, recover_identity-Walked, release_all_leases-Walked,
}
use whisper_network.Runtime.Execute.{Tools, execute_one}
use whisper_network.Runtime.Ending.{TooFew, Answers, execute_one-Ending}
use whisper_network.Tests.Data.{
  env_at, idle_task, busy_task, mixed, update_of, toy_ed25519, toy_ed25519-IsCorrect,
}

claim_task-IsClaimed_example :
    let (s', ok) = claim_task (env_at 100) 7 mixed in
    (Rescued 100 (idle_task 7 1) mixed.tasks_rescued s'.tasks_rescued
      × (ok ≡ true)
      × Becomes (IsClaimed (env_at 100) 1 mixed.lease_duration 7 (idle_task 7 1)) 7 mixed s')
    ⊎ (((pending ≡ completed) ⊎ ((pending ≡ in_progress) × (100 ≤ 0)))
        × (s' ≡ mixed)
        × (ok ≡ false))
claim_task-IsClaimed_example = claim_task-IsClaimed (env_at 100) 7 mixed refl

abbrev us : Option ℕ
us = some 1

renew_lease-IsRenewed_example :
    let (s', ok) = renew_lease (env_at 100) 8 mixed in
    ((us ≡ us)
      × (in_progress ≡ in_progress)
      × (ok ≡ true)
      × Becomes (IsRenewed (env_at 100) mixed.lease_duration (busy_task 8 1 120)) 8 mixed s')
    ⊎ (((us ≢ us) ⊎ (in_progress ≢ in_progress)) × (s' ≡ mixed) × (ok ≡ false))
renew_lease-IsRenewed_example = renew_lease-IsRenewed (env_at 100) 8 mixed refl

complete_task-IsFinished_example :
    let (s', ok) = complete_task (env_at 100) 8 "ok" mixed in
    ((us ≡ us)
      × (ok ≡ true)
      × Becomes (IsFinished (env_at 100) "ok" (busy_task 8 1 120)) 8 mixed s')
    ⊎ ((us ≢ us) × (s' ≡ mixed) × (ok ≡ false))
complete_task-IsFinished_example = complete_task-IsFinished (env_at 100) 8 "ok" mixed refl

release_lease-IsFreed_example :
    let (s', ok) = release_lease (env_at 100) 8 mixed in
    ((us ≡ us) × (ok ≡ true) × Becomes (IsFreed (busy_task 8 1 120)) 8 mixed s')
    ⊎ ((us ≢ us) × (s' ≡ mixed) × (ok ≡ false))
release_lease-IsFreed_example = release_lease-IsFreed (env_at 100) 8 mixed refl

recover_identity-Walked_example :
    let (s', n) = recover_identity (env_at 100) mixed in
    ((j : ℕ)
      → Walked
          (IsHeld 1)
          (IsRenewed (env_at 100) mixed.lease_duration)
          (lookup j mixed.tasks)
          (lookup j s'.tasks))
    × Counts (IsHeld 1) (values mixed.tasks) n
recover_identity-Walked_example = recover_identity-Walked (env_at 100) mixed

release_all_leases-Walked_example :
    let (s', n) = release_all_leases (env_at 100) mixed in
    ((j : ℕ) → Walked (IsHeld 1) IsFreed (lookup j mixed.tasks) (lookup j s'.tasks))
    × All (λ t. ¬ IsHeld 1 t) (values s'.tasks)
    × Counts (IsHeld 1) (values mixed.tasks) n
release_all_leases-Walked_example = release_all_leases-Walked (env_at 100) mixed

verify-sign_example :
    verify toy_ed25519
      (record (sign toy_ed25519 (some 5) (update_of 51 (idle_task 7 1))) { hops = 2 })
    ≡ true
verify-sign_example =
    verify-sign toy_ed25519 toy_ed25519-IsCorrect 5 (update_of 51 (idle_task 7 1)) 2

-- The message of node 5 about task 7, and the same task with another payload.
abbrev signed : Update
signed = record (update_of 51 (idle_task 7 1)) { signature = 7; signing_key = 6 }

abbrev forged : Task
forged = record (idle_task 7 1) { payload = "other" }

verify_tampered_example :
    verify toy_ed25519 (record signed { task = some forged; hops = 2; sender = 3 })
    ≡ verify toy_ed25519 signed
verify_tampered_example =
    verify_tampered toy_ed25519 signed (idle_task 7 1) forged 2 3 refl refl refl refl refl

abbrev tools : Tools
tools = record {
  collect_shares = none;
  reconstruct_and_decrypt = λ payload shares. none;
  error_text = λ payload shares. "error";
  cipher_enabled = false;
  decrypt = λ payload. none;
  execute = λ payload shard. payload;
}

execute_one-Ending_example :
    let s' = execute_one (env_at 100) tools (busy_task 8 1 120) mixed in
    (TooFew tools (busy_task 8 1 120) × Becomes (IsFreed (busy_task 8 1 120)) 8 mixed s')
    ⊎ ((¬ TooFew tools (busy_task 8 1 120))
        × ((result : String) × Answers tools (busy_task 8 1 120) result
            × Becomes (IsFinished (env_at 100) result (busy_task 8 1 120)) 8 mixed s'))
execute_one-Ending_example = execute_one-Ending (env_at 100) tools mixed refl refl
