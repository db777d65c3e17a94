-- ===== src/Ledger/Ops.antt =====
-- The methods of `TaskLedger` (whisper/ledger.py) that change one task.
use whisper_network.Common.{
  ℕ, ◌+◌, none, some, Bool, true, false, String, if◌then◌else◌, ltb, not, ◌&&◌, ◌||◌, is_some_eq,
}
use whisper_network.Common.Dict.{lookup, insert}
use whisper_network.Wire.{Task, pending, in_progress, completed, is_in_progress, is_completed}
use whisper_network.Ledger.State.{Env, TaskLedger, persist, gossip_task, notify_submitter}

-- The lease that `claim_task` writes.
unfoldable pub leased : Env → TaskLedger → ℕ → Task → Task
leased e s task_id task = record task {
  status = in_progress;
  leased_by = some s.our_key;
  lease_expires = e.now + s.lease_duration;
  claimed_at = some e.now;
  commitment = some (e.commit_hash s.our_key task_id e.now);
  version = task.version + 1;
}

unfoldable pub claim_found : Env → ℕ → Task → TaskLedger → TaskLedger × Bool
claim_found e task_id task s =
    let was_orphaned = is_in_progress task.status && ltb task.lease_expires e.now in
    let claimed = leased e s task_id task in
    let s' = record s {
      tasks_rescued = if was_orphaned then s.tasks_rescued + 1 else s.tasks_rescued;
      tasks = insert task_id claimed s.tasks;
    } in
    if is_completed task.status
    then (s, false)
    else (if is_in_progress task.status && not was_orphaned
        then (s, false)
        else (gossip_task e 0 claimed (persist e s'), true))

unfoldable pub claim_task : Env → ℕ → TaskLedger → TaskLedger × Bool
claim_task e task_id s = elim (lookup task_id s.tasks) [
  | none ↦ (s, false)
  | some task ↦ claim_found e task_id task s
]

unfoldable pub renewed : Env → TaskLedger → Task → Task
renewed e s task = record task {
  lease_expires = e.now + s.lease_duration;
  version = task.version + 1;
}

unfoldable pub renew_lease : Env → ℕ → TaskLedger → TaskLedger × Bool
renew_lease e task_id s = elim (lookup task_id s.tasks) [
  | none ↦ (s, false)
  | some task ↦
      if not (is_some_eq task.leased_by s.our_key) || not (is_in_progress task.status)
      then (s, false)
      else (
        gossip_task e 0 (renewed e s task)
            (persist e (record s { tasks = insert task_id (renewed e s task) s.tasks })),
        true,
      )
]

unfoldable pub finished : Env → String → Task → Task
finished e result task = record task {
  status = completed;
  result = some result;
  completed_at = some e.now;
  result_hash = some (e.result_digest result);
  version = task.version + 1;
}

unfoldable pub complete_task : Env → ℕ → String → TaskLedger → TaskLedger × Bool
complete_task e task_id result s = elim (lookup task_id s.tasks) [
  | none ↦ (s, false)
  | some task ↦ if not (is_some_eq task.leased_by s.our_key) then (s, false) else (
    notify_submitter e (finished e result task) (
        gossip_task e 0 (finished e result task)
          (persist e (record s { tasks = insert task_id (finished e result task) s.tasks }))),
    true,
  )
]

unfoldable pub freed : Task → Task
freed task = record task {
  status = pending;
  leased_by = none;
  lease_expires = 0;
  version = task.version + 1;
}

unfoldable pub release_lease : Env → ℕ → TaskLedger → TaskLedger × Bool
release_lease e task_id s = elim (lookup task_id s.tasks) [
  | none ↦ (s, false)
  | some task ↦ if not (is_some_eq task.leased_by s.our_key) then (s, false) else (
    gossip_task e 0 (freed task)
        (persist e (record s { tasks = insert task_id (freed task) s.tasks })),
    true,
  )
]
