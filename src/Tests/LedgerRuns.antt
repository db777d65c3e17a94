-- ===== src/Tests/LedgerRuns.antt =====
-- The merge, the calls and the file of the ledger at concrete inputs.
use whisper_network.Common.{◌≡◌, refl, inl, inr, some, List, [], ◌∷◌, true, arith, if◌then◌else◌}
use whisper_network.Common.Dict.{lookup}
use whisper_network.Wire.{Task, Update}
use whisper_network.Crypto.Signer.{verify}
use whisper_network.Common.Deque.{remember}
use whisper_network.Ledger.State.{Env, TaskLedger, fanout_raw}
use whisper_network.Ledger.Ops.{claim_task, leased}
use whisper_network.Ledger.Update.{
  handle_ledger_update, replaces, accepts, merge_update, merge_body, forward,
}
use whisper_network.Ledger.Calls.{Call, perform}
use whisper_network.Ledger.Merge.{
  passes, effect, Succeeds, lookup-handle_ledger_update, completed_sticky,
  handle_ledger_update-Succeeds,
}
use whisper_network.Ledger.Converge.{handle_all, replicas_converge}
use whisper_network.Ledger.Machine.{Moves}
use whisper_network.Ledger.Moves.{perform-Moves, foreign_lease_kept}
use whisper_network.Ledger.Valid.{IsValid}
use whisper_network.Ledger.Kept.{perform-IsValid}
use whisper_network.Ledger.Race.{racing_claims_stay}
use whisper_network.Ledger.Scan.{get_claimable_tasks-claim_task}
use whisper_network.Ledger.Queries.{get_claimable_tasks}
use whisper_network.Common.Lists.{All}
use whisper_network.Tests.Data.{
  env_at, idle_task, busy_task, done_task, ledger_of, mixed, update_of,
}

-- Two updates of task 7, which arrive in either order, one of them again under another message id.
abbrev one_way : List (Env × Update)
one_way =
    (env_at 100, update_of 51 (idle_task 7 3)) ∷ (env_at 101, update_of 52 (busy_task 7 2 500)) ∷ []

abbrev other_way : List (Env × Update)
other_way =
    (env_at 200, update_of 52 (busy_task 7 2 500))
    ∷ (env_at 201, update_of 51 (idle_task 7 3))
    ∷ (env_at 202, update_of 53 (busy_task 7 2 500))
    ∷ []

replicas_converge_example :
    (lookup 7 (handle_all one_way (ledger_of [])).tasks ≡ some (idle_task 7 3))
    × (lookup 7 (handle_all other_way (ledger_of [])).tasks ≡ some (idle_task 7 3))
unfolding replaces handle_ledger_update verify merge_body merge_update accepts forward fanout_raw
    remember
replicas_converge_example =
    replicas_converge 7 (idle_task 7 3) one_way other_way (ledger_of []) (ledger_of []) refl refl
      (refl, (refl, tt)) (refl, (refl, (refl, tt))) (inl refl) (inr (inl refl))
      (inl refl, (inr refl, tt)) (inr refl, (inl refl, (inr refl, tt)))

lookup-handle_ledger_update_example :
    lookup 9 (handle_ledger_update (env_at 100) (update_of 51 (done_task 9 2)) mixed).tasks ≡ (
      if passes (env_at 100) (update_of 51 (done_task 9 2)) mixed
      then effect 9 (lookup 9 mixed.tasks) (some (done_task 9 2))
      else lookup 9 mixed.tasks)
lookup-handle_ledger_update_example =
    lookup-handle_ledger_update (env_at 100) (update_of 51 (done_task 9 2)) mixed 9

completed_sticky_example :
    lookup 6 (handle_ledger_update (env_at 100) (update_of 51 (idle_task 6 99)) mixed).tasks
    ≡ some (done_task 6 2)
completed_sticky_example =
    completed_sticky (env_at 100) (update_of 51 (idle_task 6 99)) mixed 6 refl refl

handle_ledger_update-Succeeds_example :
    (u : Task) × (lookup 9
        (handle_ledger_update (env_at 100) (update_of 51 (done_task 9 2)) mixed).tasks
      ≡ some u)
    × Succeeds (busy_task 9 2 500) u
handle_ledger_update-Succeeds_example =
    handle_ledger_update-Succeeds (env_at 100) (update_of 51 (done_task 9 2)) mixed 9 refl

perform-Moves_example :
    (u : Task) × (lookup 8 (perform (env_at 100) Call.release_all mixed).tasks ≡ some u)
    × Moves (env_at 100) mixed (busy_task 8 1 120) u
perform-Moves_example = perform-Moves (env_at 100) Call.release_all mixed 8 tt refl

foreign_lease_kept_example :
    lookup 9 (perform (env_at 100) (Call.claim 9) mixed).tasks ≡ some (busy_task 9 2 500)
foreign_lease_kept_example =
    foreign_lease_kept (env_at 100) (Call.claim 9) mixed 9 tt refl refl refl
      (λ same. omega (arith, same)) (omega arith)

mixed-IsValid : IsValid mixed.tasks
mixed-IsValid = (
  refl,
  refl,
  record { free = λ h. refl; held = λ h. cc; answered = λ h. cc; stamped = λ h. cc },
  (
    refl,
    refl,
    record { free = λ h. cc; held = λ h. refl; answered = λ h. cc; stamped = λ h. cc },
    (
      refl,
      refl,
      record { free = λ h. cc; held = λ h. refl; answered = λ h. cc; stamped = λ h. cc },
      (
        refl,
        refl,
        record { free = λ h. cc; held = λ h. cc; answered = λ h. refl; stamped = λ h. refl },
        tt,
      ),
    ),
  ),
)

perform-IsValid_example : IsValid (perform (env_at 100) (Call.complete 8 "ok") mixed).tasks
perform-IsValid_example =
    perform-IsValid (env_at 100) (Call.complete 8 "ok") mixed (omega arith) mixed-IsValid

get_claimable_tasks-claim_task_example :
    All (λ t. (claim_task (env_at 100) t.task_id mixed).1 ≡ true) (get_claimable_tasks 100 mixed)
get_claimable_tasks-claim_task_example =
    get_claimable_tasks-claim_task (env_at 100) mixed mixed-IsValid

-- Nodes 1 and 2 know the free task 7.
abbrev here : TaskLedger
here = ledger_of ((7, idle_task 7 1) ∷ [])

abbrev there : TaskLedger
there = record here { our_key = 2 }

abbrev their_claim : Update
their_claim = update_of 51 (leased (env_at 102) there 7 (idle_task 7 1))

abbrev our_claim : Update
our_claim = update_of 52 (leased (env_at 100) here 7 (idle_task 7 1))

racing_claims_stay_example :
    (lookup 7
        (handle_ledger_update (env_at 103) their_claim (claim_task (env_at 100) 7 here).0).tasks
      ≡ some (leased (env_at 100) here 7 (idle_task 7 1)))
    × (lookup 7
          (handle_ledger_update (env_at 104) our_claim (claim_task (env_at 102) 7 there).0).tasks
        ≡ some (leased (env_at 102) there 7 (idle_task 7 1)))
racing_claims_stay_example =
    racing_claims_stay (env_at 100) (env_at 102) here there 7 refl refl (inl refl) (inl refl)
      their_claim our_claim (env_at 103) (env_at 104) refl refl
