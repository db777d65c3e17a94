-- ===== src/Runtime/Dispatch.antt =====
-- The scan of `AgentRuntime` (whisper/runtime.py): lease renewal, claims, and the tasks in execution.
use whisper_network.Common.{
  ℕ, suc, Option, none, some, List, [], ◌∷◌, Bool, true, false, not, ◌==◌, if◌then◌else◌,
}
use whisper_network.Common.Lists.{contains, keep}
use whisper_network.Wire.{Task}
use whisper_network.Ledger.State.{Env, TaskLedger}
use whisper_network.Ledger.Ops.{claim_task, renew_lease}
use whisper_network.Ledger.Queries.{
  get_claimable_tasks, get_my_active_tasks, get_tasks_needing_renewal,
}
use whisper_network.Runtime.Select.{Site, selected}

-- `self.ledger`, `self._executing`, and the tasks for which `_scan` has started a thread, newest first.
pub record Runner : Type 0 where
  pub ledger : TaskLedger
  pub executing : List ℕ
  pub started : List ℕ

-- `self._executing.add(id)` and `self._executing.discard(id)`
abbrev pub add_executing : ℕ → List ℕ → List ℕ
add_executing id ids = if contains id ids then ids else id ∷ ids

abbrev pub discard_executing : ℕ → List ℕ → List ℕ
discard_executing id ids = keep (λ k. not (k == id)) ids

-- `for task in ...: self.ledger.renew_lease(task.task_id)`; the surroundings of the i-th call are
-- `at i`.
unfoldable pub renew_each : (ℕ → Env) → ℕ → List Task → TaskLedger → TaskLedger
renew_each at i [] s = s
renew_each at i (t ∷ ts) s = renew_each at (suc i) ts (renew_lease (at i) t.task_id s).0

-- What follows a claim, by its success.
unfoldable pub start_claimed : ℕ → Runner → TaskLedger × Bool → Runner
start_claimed id r (s, false) = record r { ledger = s }
start_claimed id r (s, true) = record {
  ledger = s;
  executing = add_executing id r.executing;
  started = id ∷ r.started;
}

-- One round of the dispatch loop.
unfoldable pub dispatch_one : Env → Task → Runner → Runner
dispatch_one e t r =
    if contains t.task_id r.executing
    then r
    else start_claimed t.task_id r (claim_task e t.task_id r.ledger)

unfoldable pub dispatch_each : (ℕ → Env) → ℕ → List Task → Runner → Runner
dispatch_each at i [] r = r
dispatch_each at i (t ∷ ts) r = dispatch_each at (suc i) ts (dispatch_one (at i) t r)

-- `_scan`: the clock is read once for the renewals and once for the claims, and each call of a ledger
-- method has surroundings of its own.
unfoldable pub scan : ℕ → (ℕ → Env) → ℕ → (ℕ → Env) → Site → Runner → Runner
scan renew_time renew_at claim_time claim_at site r =
    let renewed = renew_each renew_at 0 (get_tasks_needing_renewal renew_time r.ledger) r.ledger in
    let tasks = selected site (get_claimable_tasks claim_time renewed) in
    dispatch_each claim_at 0 tasks (record r { ledger = renewed })

-- `next((t for t in self.ledger.get_my_active_tasks() if t.task_id == task_id), None)`
unfoldable pub first_with : ℕ → List Task → Option Task
first_with id [] = none
first_with id (t ∷ ts) = if t.task_id == id then some t else first_with id ts

unfoldable pub still_ours : ℕ → TaskLedger → Option Task
still_ours id s = first_with id (get_my_active_tasks s)

-- The entry of `execute_awarded_task`: whether it goes on.
unfoldable pub begin_awarded : ℕ → Runner → Runner × Bool
begin_awarded id r =
    if contains id r.executing
    then (r, false)
    else (record r { executing = add_executing id r.executing }, true)
