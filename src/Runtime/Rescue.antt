-- ===== src/Runtime/Rescue.antt =====
-- The rescue of a task by a survivor: `_scan` and then `_run_exec_thread` of whisper/runtime.py.
use whisper_network.Common.{
  ℕ, suc, ◌≤◌, ◌≡◌, inl, inr, refl, sym, ◌∙◌, ap, subst, Option, none, some, Bool, true, false,
  List, [], ◌∷◌, arith, Bool-cases, ◌==◌, is_some_eq, ◌&&◌, String, if◌then◌else◌,
}
use whisper_network.Common.Lists.{contains, keep}
use whisper_network.Common.Dict.{Dict, lookup, values}
use whisper_network.Wire.{Task, completed, in_progress, is_in_progress}
use whisper_network.Ledger.State.{Env, TaskLedger}
use whisper_network.Ledger.Ops.{leased, finished, claim_task, renew_lease}
use whisper_network.Ledger.Bulk.{held_by}
use whisper_network.Ledger.Leases.{IsFree}
use whisper_network.Ledger.Queries.{
  claimable, get_claimable_tasks, get_my_active_tasks, get_tasks_needing_renewal,
}
use whisper_network.Ledger.Valid.{IsValid}
use whisper_network.Ledger.Kept.{claim_task-IsValid, renew_lease-IsValid}
use whisper_network.Runtime.Select.{Site, selected}
use whisper_network.Runtime.Dispatch.{
  Runner, start_claimed, renew_each, dispatch_one, dispatch_each, scan, first_with, still_ours,
}
use whisper_network.Runtime.Execute.{
  Tools, complete_with, outcome, execute_one, run_exec_thread, is_threshold, is_encrypted,
  encrypted_outcome,
}
use whisper_network.Runtime.Settle.{execute_one-settles, outcome_release}
use whisper_network.Runtime.Selected.{IsIn-keep, IsIn-values, IsIn-selected, is_selected}
use whisper_network.Runtime.Untouched.{renew_each-kept}
use whisper_network.Runtime.Waiting.{IsRunning, dispatch_each-starts}

claimable-IsFree :
    (now later k : ℕ) (t : Task) → claimable now k t ≡ true → now ≤ later → IsFree later t
unfolding claimable
claimable-IsFree now later k t h passed = grind arith

claimable-others :
    (now k : ℕ) (t : Task)
    → claimable now k t ≡ true
    → is_in_progress t.status && is_some_eq t.leased_by k ≡ false
unfolding claimable
claimable-others now k t h = grind arith

-- If a task is claimable when the scan lists them, passes one of the scan's three tests, and is not in
-- execution, and the claims are made no earlier than the list: after the scan the task has been
-- started, and its entry carries our lease, whatever else the scan renews and claims.
pub scan-starts :
    (renew_time claim_time : ℕ) (renew_at claim_at : ℕ → Env) (site : Site) (r : Runner) (t : Task)
    → lookup t.task_id r.ledger.tasks ≡ some t
    → claimable claim_time r.ledger.our_key t ≡ true
    → is_selected site t ≡ true
    → contains t.task_id r.executing ≡ false
    → ((i : ℕ) → claim_time ≤ (claim_at i).now)
    → IsRunning r.ledger.our_key t (scan renew_time renew_at claim_time claim_at site r)
unfolding scan get_claimable_tasks
scan-starts renew_time claim_time renew_at claim_at site r t known ready chosen idle later =
    let due = get_tasks_needing_renewal renew_time r.ledger in
    let s' = renew_each renew_at 0 due r.ledger in
    let not_ours : is_in_progress t.status && is_some_eq t.leased_by r.ledger.our_key ≡ false =
      claimable-others claim_time r.ledger.our_key t ready in
    let (still, key) = renew_each-kept renew_at 0 t.task_id due r.ledger t known not_ours in
    dispatch_each-starts r.ledger.our_key t claim_at 0
      (selected site (keep (claimable claim_time s'.our_key) (values s'.tasks)))
      (record r { ledger = s' }) (record { known = still; same_key = key; idle = idle })
      (λ i. claimable-IsFree claim_time (claim_at i).now r.ledger.our_key t ready (later i))
      (IsIn-selected site t (keep (claimable claim_time s'.our_key) (values s'.tasks)) chosen (
        IsIn-keep (claimable claim_time s'.our_key) t (values s'.tasks) (rw key ready)
          (IsIn-values t.task_id t s'.tasks still)))

renew_each-IsValid :
    (at : ℕ → Env) (i : ℕ) (ts : List Task) (s : TaskLedger)
    → IsValid s.tasks
    → IsValid (renew_each at i ts s).tasks
unfolding renew_each
renew_each-IsValid at i [] s valid = valid
renew_each-IsValid at i (t ∷ ts) s valid =
    renew_each-IsValid at (suc i) ts (renew_lease (at i) t.task_id s).0
      (renew_lease-IsValid (at i) s valid t.task_id)

start_claimed-IsValid :
    (id : ℕ) (r : Runner) (c : TaskLedger × Bool)
    → IsValid c.0.tasks
    → IsValid (start_claimed id r c).ledger.tasks
unfolding start_claimed
start_claimed-IsValid id r (s, false) valid = valid
start_claimed-IsValid id r (s, true) valid = valid

dispatch_each-IsValid :
    (at : ℕ → Env) (i : ℕ) (ts : List Task) (r : Runner)
    → IsValid r.ledger.tasks
    → IsValid (dispatch_each at i ts r).ledger.tasks
unfolding dispatch_each dispatch_one
dispatch_each-IsValid at i [] r valid = valid
dispatch_each-IsValid at i (t ∷ ts) r valid =
    dispatch_each-IsValid at (suc i) ts (dispatch_one (at i) t r)
      (elim (Bool-cases (contains t.task_id r.executing)) [
        | inl busy ↦ rw busy valid
        | inr free ↦ rw free (
            start_claimed-IsValid t.task_id r (claim_task (at i) t.task_id r.ledger)
              (claim_task-IsValid (at i) r.ledger valid t.task_id))
      ])

first_with-keep :
    (our_key id : ℕ) (d : Dict Task) (u : Task)
    → IsValid d
    → lookup id d ≡ some u
    → held_by our_key u ≡ true
    → first_with id (keep (held_by our_key) (values d)) ≡ some u
unfolding first_with
first_with-keep our_key id [] u valid known ours = absurd (ground arith)
first_with-keep our_key id ((k, v) ∷ d) u valid known ours =
    let named : k ≡ v.task_id = valid.1 in
    elim (Bool-cases (id == k)) [
      | inl same ↦
          let vu : v ≡ u = ground arith in
          let mine : held_by our_key v ≡ true = rw vu ours in
          let hit : (v.task_id == id) ≡ true = ground (arith, named) in rw (mine, hit) (ap some vu)
      | inr other ↦
          let rest = first_with-keep our_key id d u valid.3 (ground arith) ours in
          elim (Bool-cases (held_by our_key v)) [
            | inl mine ↦ rw mine (ground arith)
            | inr foreign ↦ rw foreign rest
          ]
    ]

scan-IsValid :
    (renew_time claim_time : ℕ) (renew_at claim_at : ℕ → Env) (site : Site) (r : Runner)
    → IsValid r.ledger.tasks
    → IsValid (scan renew_time renew_at claim_time claim_at site r).ledger.tasks
unfolding scan
scan-IsValid renew_time claim_time renew_at claim_at site r valid =
    let s' = renew_each renew_at 0 (get_tasks_needing_renewal renew_time r.ledger) r.ledger in
    dispatch_each-IsValid claim_at 0 (selected site (get_claimable_tasks claim_time s'))
      (record r { ledger = s' })
      (renew_each-IsValid renew_at 0 (get_tasks_needing_renewal renew_time r.ledger) r.ledger valid)

-- A lease changes nothing that an execution without threshold encryption reads.
outcome-leased :
    (k : Tools) (e : Env) (s : TaskLedger) (id : ℕ) (t : Task)
    → is_threshold t ≡ false
    → outcome k (leased e s id t) ≡ outcome k t
unfolding outcome leased is_threshold is_encrypted encrypted_outcome
outcome-leased k e s id t plain = ground arith

run_exec_thread-ours :
    (e : Env) (k : Tools) (id : ℕ) (r : Runner) (u : Task)
    → first_with id (keep (held_by r.ledger.our_key) (values r.ledger.tasks)) ≡ some u
    → (run_exec_thread e k id r).ledger ≡ execute_one e k u r.ledger
unfolding run_exec_thread still_ours get_my_active_tasks
run_exec_thread-ours e k id r u found =
    ap
      (λ (o : Option Task). elim o as (λ _. TaskLedger) [
        | none ↦ r.ledger
        | some v ↦ execute_one e k v r.ledger
      ])
      found

thread_completes :
    (e : Env) (k : Tools) (our_key : ℕ) (t : Task) (r : Runner)
    → IsValid r.ledger.tasks
    → IsRunning our_key t r
    → is_threshold t ≡ false
    → let r' = run_exec_thread e k t.task_id r in
      (result : String) × (outcome k t ≡ complete_with result)
      × ((u : Task) × (lookup t.task_id r'.ledger.tasks ≡ some u)
          × (u.status ≡ completed)
          × (u.result ≡ some result))
unfolding leased finished
thread_completes e k our_key t r valid h plain =
    let (u, known, (at_e, (at_s, key, is_lease))) = h.entry in
    let named : u.task_id ≡ t.task_id = ap (λ v. v.task_id) is_lease in
    let busy : u.status ≡ in_progress = ap (λ v. v.status) is_lease in
    let holder : u.leased_by ≡ some r.ledger.our_key =
      ap (λ v. v.leased_by) is_lease ∙ ap some (key ∙ sym h.same_key) in
    let ours : held_by r.ledger.our_key u ≡ true = rw (holder, busy) (ground arith) in
    let found = first_with-keep r.ledger.our_key t.task_id r.ledger.tasks u valid known ours in
    let same : outcome k u ≡ outcome k t =
      ap (outcome k) is_lease ∙ outcome-leased k at_e at_s t.task_id t plain in
    let at_u : lookup u.task_id r.ledger.tasks ≡ some u =
      subst (λ j. lookup j r.ledger.tasks ≡ some u) (sym named) known in
    let same_id : (t.task_id == u.task_id) ≡ true = ground (arith, named) in
    let hit : (result : String)
        → (if t.task_id == u.task_id
            then some (finished e result u)
            else lookup t.task_id r.ledger.tasks)
          ≡ some (finished e result u) =
      λ result. rw same_id refl in
    elim (execute_one-settles e k r.ledger {t = u} at_u holder) [
      | inl (result, ends, writes) ↦ (
        result,
        sym same ∙ ends,
        (
          finished e result u,
          ap (λ l. lookup t.task_id l.tasks) (run_exec_thread-ours e k t.task_id r u found)
              ∙ writes t.task_id
              ∙ hit result,
          refl,
          refl,
        ),
      )
      | inr (gives_back, writes) ↦
          let (sealed, more) = (outcome_release k t).0 (sym same ∙ gives_back) in
          absurd (ground arith)
    ]

-- A task that is claimable when the scan of a node with a well-formed ledger lists the tasks, that
-- passes one of the scan's three tests (as a task of a dead home does on its replica, with a quorum),
-- is not in execution and not under threshold encryption: if the claims are made no earlier than the
-- list, then after the scan and the task's thread the entry is completed and carries the result of
-- the execution, whatever else the scan claims and whatever decryption and inference give.
pub rescue-completes :
    (renew_time claim_time : ℕ) (renew_at claim_at : ℕ → Env) (site : Site) (r : Runner) (t : Task)
    (e : Env) (k : Tools)
    → IsValid r.ledger.tasks
    → lookup t.task_id r.ledger.tasks ≡ some t
    → claimable claim_time r.ledger.our_key t ≡ true
    → is_selected site t ≡ true
    → contains t.task_id r.executing ≡ false
    → ((i : ℕ) → claim_time ≤ (claim_at i).now)
    → is_threshold t ≡ false
    → let r' =
        run_exec_thread e k t.task_id (scan renew_time renew_at claim_time claim_at site r) in
      (result : String) × (outcome k t ≡ complete_with result)
      × ((u : Task) × (lookup t.task_id r'.ledger.tasks ≡ some u)
          × (u.status ≡ completed)
          × (u.result ≡ some result))
rescue-completes renew_time claim_time renew_at claim_at site r t e k valid known ready chosen idle
      later plain =
    thread_completes e k r.ledger.our_key t (scan renew_time renew_at claim_time claim_at site r)
      (scan-IsValid renew_time claim_time renew_at claim_at site r valid)
      (scan-starts renew_time claim_time renew_at claim_at site r t known ready chosen idle later)
      plain
