-- ===== src/Ledger/Queries.antt =====
-- The methods of `TaskLedger` (whisper/ledger.py) that only read.
use whisper_network.Common.{
  ℕ, ◌+◌, Bool, false, List, ◌&&◌, ◌||◌, not, ltb, is_some_eq, map, Option, none, some, truthy,
}
use whisper_network.Common.Lists.{length, keep, count_if}
use whisper_network.Common.Dict.{values}
use whisper_network.Wire.{Task, is_pending, is_in_progress, is_completed}
use whisper_network.Ledger.State.{TaskLedger}
use whisper_network.Ledger.Bulk.{held_by}

-- The test of `get_claimable_tasks`
unfoldable pub claimable : ℕ → ℕ → Task → Bool
claimable now our_key t =
    is_pending t.status
    || is_in_progress t.status && ltb t.lease_expires now && not (is_some_eq t.leased_by our_key)

unfoldable pub get_claimable_tasks : ℕ → TaskLedger → List Task
unfolding claimable
get_claimable_tasks now s = keep (claimable now s.our_key) (values s.tasks)

unfoldable pub get_my_active_tasks : TaskLedger → List Task
get_my_active_tasks s = keep (held_by s.our_key) (values s.tasks)

unfoldable pub get_my_task_ids : TaskLedger → List ℕ
get_my_task_ids s = map (λ t. t.task_id) (keep (held_by s.our_key) (values s.tasks))

-- `lease_expires - now < renew_threshold`, on numbers that cannot be negative.
unfoldable pub needs_renewal : ℕ → TaskLedger → Task → Bool
needs_renewal now s t =
    is_in_progress t.status
    && is_some_eq t.leased_by s.our_key
    && ltb t.lease_expires (now + s.renew_threshold)

unfoldable pub get_tasks_needing_renewal : ℕ → TaskLedger → List Task
unfolding needs_renewal
get_tasks_needing_renewal now s = keep (needs_renewal now s) (values s.tasks)

abbrev pub get_all_tasks : TaskLedger → List Task
get_all_tasks s = values s.tasks

-- The counts of `get_metrics`.
pub record Metrics : Type 0 where
  pub total : ℕ
  pub completed : ℕ
  pub in_progress : ℕ
  pub pending : ℕ
  pub tasks_rescued : ℕ

abbrev pub was_stamped : Option ℕ → Bool
was_stamped none = false
was_stamped (some at) = truthy at

-- `t.status == "completed" and t.completed_at`
abbrev pub has_completed : Task → Bool
has_completed t = is_completed t.status && was_stamped t.completed_at

unfoldable pub get_metrics : TaskLedger → Metrics
get_metrics s =
    let tasks = values s.tasks in
    record {
      total = length tasks;
      completed = length (keep has_completed tasks);
      in_progress = count_if (λ t. is_in_progress t.status) tasks;
      pending = count_if (λ t. is_pending t.status) tasks;
      tasks_rescued = s.tasks_rescued;
    }
