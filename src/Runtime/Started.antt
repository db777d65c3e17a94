-- ===== src/Runtime/Started.antt =====
-- No task is executed twice at a time by one node (whisper/runtime.py): the executing set.
use whisper_network.Common.{
  ℕ, suc, ◌≤◌, ◌≡◌, inl, inr, refl, Bool, true, false, List, [], ◌∷◌, arith, Bool-cases, ◌==◌,
}
use whisper_network.Common.Lists.{contains, count, contains-eq-count}
use whisper_network.Wire.{Task}
use whisper_network.Ledger.State.{Env, TaskLedger}
use whisper_network.Ledger.Ops.{claim_task}
use whisper_network.Runtime.Dispatch.{
  Runner, start_claimed, dispatch_one, dispatch_each, begin_awarded, scan, renew_each,
}
use whisper_network.Ledger.Queries.{get_claimable_tasks, get_tasks_needing_renewal}
use whisper_network.Runtime.Select.{Site, selected}

-- Each started task is in the executing set, was started once, and was not in execution before.
pub record IsTracked (before : List ℕ) (r : Runner) : Type 0 where
  pub tracked : (k : ℕ) → contains k r.started ≡ true → contains k r.executing ≡ true
  pub once : (k : ℕ) → count k r.started ≤ 1
  pub fresh : (k : ℕ) → contains k r.started ≡ true → contains k before ≡ false
  pub grows : (k : ℕ) → contains k before ≡ true → contains k r.executing ≡ true

count_zero : (k : ℕ) (xs : List ℕ) → contains k xs ≡ false → count k xs ≡ 0
count_zero k [] h = refl
count_zero k (x ∷ xs) h = ground (arith, count_zero k xs)

module _ (before : List ℕ) where
  start_claimed-IsTracked :
      (id : ℕ) (r : Runner) (claimed : TaskLedger × Bool)
      → contains id r.executing ≡ false
      → IsTracked before r
      → IsTracked before (start_claimed id r claimed)
  unfolding start_claimed
  start_claimed-IsTracked id r (s, false) free h = record {
    tracked = h.tracked;
    once = h.once;
    fresh = h.fresh;
    grows = h.grows;
  }
  start_claimed-IsTracked id r (s, true) free h = record {
    tracked = λ k listed. elim (Bool-cases (k == id)) [
      | inl same ↦ ground arith
      | inr other ↦ ground (arith, h.tracked k)
    ];
    once = λ k. elim (Bool-cases (k == id)) [
      | inl same ↦
          let ke : k ≡ id = ground arith in
          let unlisted : contains id r.started ≡ false = ground (arith, h.tracked id) in
          ground (arith, count_zero id r.started unlisted)
      | inr other ↦ rw other (h.once k)
    ];
    fresh = λ k listed. elim (Bool-cases (k == id)) [
      | inl same ↦
          let ke : k ≡ id = ground arith in
          elim (Bool-cases (contains id before)) [
            | inl ran ↦ absurd (ground (arith, h.grows id))
            | inr new ↦ rw ke new
          ]
      | inr other ↦ h.fresh k (ground arith)
    ];
    grows = λ k ran. ground (arith, h.grows k);
  }

  dispatch_one-IsTracked :
      (e : Env) (t : Task) (r : Runner) → IsTracked before r → IsTracked before (dispatch_one e t r)
  unfolding dispatch_one
  dispatch_one-IsTracked e t r h = elim (Bool-cases (contains t.task_id r.executing)) [
    | inl running ↦ rw running h
    | inr free ↦
        rw free (start_claimed-IsTracked t.task_id r (claim_task e t.task_id r.ledger) free h)
  ]

  dispatch_each-IsTracked :
      (at : ℕ → Env) (i : ℕ) (ts : List Task) (r : Runner)
      → IsTracked before r
      → IsTracked before (dispatch_each at i ts r)
  unfolding dispatch_each
  dispatch_each-IsTracked at i [] r h = h
  dispatch_each-IsTracked at i (t ∷ ts) r h =
      dispatch_each-IsTracked at (suc i) ts (dispatch_one (at i) t r)
        (dispatch_one-IsTracked (at i) t r h)

-- One scan of a node that has started no thread for it starts each task at most once and none that was
-- in execution; each started task is then in the executing set, so that an award of it starts nothing.
pub scan-once :
    (renew_time claim_time : ℕ) (renew_at claim_at : ℕ → Env) (site : Site) (r : Runner) (k : ℕ)
    → r.started ≡ []
    → contains k (scan renew_time renew_at claim_time claim_at site r).started ≡ true
    → let r' = scan renew_time renew_at claim_time claim_at site r in
      (count k r'.started ≡ 1)
      × (contains k r.executing ≡ false)
      × (begin_awarded k r' ≡ (r', false))
unfolding scan begin_awarded
scan-once renew_time claim_time renew_at claim_at site r k none_yet listed =
    let s' = renew_each renew_at 0 (get_tasks_needing_renewal renew_time r.ledger) r.ledger in
    let tasks = selected site (get_claimable_tasks claim_time s') in
    let h =
      dispatch_each-IsTracked r.executing claim_at 0 tasks (record r { ledger = s' })
        (record {
          tracked = λ j e. ground arith;
          once = λ j. rw none_yet (omega arith);
          fresh = λ j e. ground arith;
          grows = λ j e. e;
        }) in
    (
      omega (arith, h.once k, contains-eq-count k _ listed),
      h.fresh k listed,
      rw (h.tracked k listed),
    )
