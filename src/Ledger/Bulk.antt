-- ===== src/Ledger/Bulk.antt =====
-- The methods of `TaskLedger` (whisper/ledger.py) that walk over all tasks and change some:
-- `recover_identity` at startup and `release_all_leases` at shutdown.
use whisper_network.Common.{ℕ, Bool, List, [], ◌∷◌, if◌then◌else◌, ◌&&◌, ltb, is_some_eq}
use whisper_network.Common.Lists.{length}
use whisper_network.Common.Dict.{Dict}
use whisper_network.Wire.{Task, is_in_progress}
use whisper_network.Ledger.State.{Env, TaskLedger, persist, gossip_all}
use whisper_network.Ledger.Ops.{renewed, freed}

-- `task.leased_by == self.our_key and task.status == "in_progress"`
abbrev pub held_by : ℕ → Task → Bool
held_by our_key task = is_some_eq task.leased_by our_key && is_in_progress task.status

-- `for task in self._tasks.values(): if p(task): change it; out.append(task)`
unfoldable pub sweep : (Task → Bool) → (Task → Task) → Dict Task → Dict Task × List Task
sweep p f [] = ([], [])
sweep p f ((k, task) ∷ rest) =
    let (rest', out) = sweep p f rest in
    if p task then ((k, f task) ∷ rest', f task ∷ out) else ((k, task) ∷ rest', out)

-- `if changed: self._persist()`, then the gossip of each changed task.
unfoldable pub finish_sweep : Env → TaskLedger → Dict Task × List Task → TaskLedger × ℕ
finish_sweep e s (tasks, out) =
    let s' = record s { tasks = tasks } in
    (gossip_all e 0 out (if ltb 0 (length out) then persist e s' else s'), length out)

unfoldable pub recover_identity : Env → TaskLedger → TaskLedger × ℕ
recover_identity e s = finish_sweep e s (sweep (held_by s.our_key) (renewed e s) s.tasks)

unfoldable pub release_all_leases : Env → TaskLedger → TaskLedger × ℕ
release_all_leases e s = finish_sweep e s (sweep (held_by s.our_key) freed s.tasks)
