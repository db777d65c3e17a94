-- ===== src/Runtime/Waiting.antt =====
-- A task that waits for a claim, through the dispatch loop of `_scan` (whisper/runtime.py).
use whisper_network.Common.{
  ℕ, suc, ◌≡◌, inl, inr, refl, sym, ◌∙◌, ap, some, Bool, true, false, List, [], ◌∷◌, arith,
  Bool-cases, ◌==◌,
}
use whisper_network.Common.Lists.{contains}
use whisper_network.Common.Dict.{lookup}
use whisper_network.Wire.{Task}
use whisper_network.Ledger.State.{Env, TaskLedger}
use whisper_network.Ledger.Ops.{claim_task, leased}
use whisper_network.Ledger.Leases.{IsFree, stored, claimed, claim_free, rescues}
use whisper_network.Runtime.Dispatch.{Runner, start_claimed, dispatch_one, dispatch_each}
use whisper_network.Runtime.Selected.{IsIn}
use whisper_network.Runtime.Untouched.{claim_task-other, claim_task-our_key}

-- The task waits: it is known as it is, and not in execution.
pub record IsWaiting (our_key : ℕ) (t : Task) (r : Runner) : Type 0 where
  pub known : lookup t.task_id r.ledger.tasks ≡ some t
  pub same_key : r.ledger.our_key ≡ our_key
  pub idle : contains t.task_id r.executing ≡ false

-- The entry is a lease of ours on the task.
abbrev pub IsLeaseOf : ℕ → Task → Task → Type 0
IsLeaseOf our_key t u =
    (e : Env) × ((s : TaskLedger) × (s.our_key ≡ our_key) × (u ≡ leased e s t.task_id t))

-- The task was started, is in execution, and its entry carries our lease.
pub record IsRunning (our_key : ℕ) (t : Task) (r : Runner) : Type 0 where
  pub listed : contains t.task_id r.started ≡ true
  pub same_key : r.ledger.our_key ≡ our_key
  pub executing : contains t.task_id r.executing ≡ true
  pub entry : (u : Task) × (lookup t.task_id r.ledger.tasks ≡ some u) × IsLeaseOf our_key t u

module _ (our_key : ℕ) (t : Task) where
  start_claimed-waits :
      (id : ℕ) (r : Runner) (c : TaskLedger × Bool)
      → IsWaiting our_key t r
      → (t.task_id == id) ≡ false
      → lookup t.task_id c.0.tasks ≡ lookup t.task_id r.ledger.tasks
      → c.0.our_key ≡ r.ledger.our_key
      → IsWaiting our_key t (start_claimed id r c)
  unfolding start_claimed
  start_claimed-waits id r (s, false) h other kept key = record {
    known = kept ∙ h.known;
    same_key = key ∙ h.same_key;
    idle = h.idle;
  }
  start_claimed-waits id r (s, true) h other kept key = record {
    known = kept ∙ h.known;
    same_key = key ∙ h.same_key;
    idle = ground (arith, h.idle);
  }

  start_claimed-runs :
      (id : ℕ) (r : Runner) (c : TaskLedger × Bool)
      → IsRunning our_key t r
      → lookup t.task_id c.0.tasks ≡ lookup t.task_id r.ledger.tasks
      → c.0.our_key ≡ r.ledger.our_key
      → IsRunning our_key t (start_claimed id r c)
  unfolding start_claimed
  start_claimed-runs id r (s, false) h kept key = record {
    listed = h.listed;
    executing = h.executing;
    same_key = key ∙ h.same_key;
    entry = (h.entry.0, kept ∙ h.entry.1, h.entry.2);
  }
  start_claimed-runs id r (s, true) h kept key = record {
    listed = ground (arith, h.listed);
    executing = ground (arith, h.executing);
    same_key = key ∙ h.same_key;
    entry = (h.entry.0, kept ∙ h.entry.1, h.entry.2);
  }

  dispatch_one-starts :
      (e : Env) (u : Task) (r : Runner)
      → IsWaiting our_key t r
      → IsFree e.now t
      → u.task_id ≡ t.task_id
      → IsRunning our_key t (dispatch_one e u r)
  unfolding dispatch_one start_claimed
  dispatch_one-starts e u r h free same =
      let s = r.ledger in
      let id = t.task_id in
      let v : Task = leased e s id t in
      let made = claim_free e id s h.known free in
      let put : lookup id (claimed e id s h.known).tasks ≡ some v =
        ground (arith, stored e 0 id v s (rescues t s) id) in
      rw (same, h.idle, made)
        (record {
          listed = ground arith;
          same_key = ap (λ c. c.0.our_key) (sym made) ∙ claim_task-our_key e id s ∙ h.same_key;
          executing = ground arith;
          entry = (v, put, (e, (s, h.same_key, refl)));
        })

  dispatch_one-waits :
      (e : Env) (u : Task) (r : Runner)
      → IsWaiting our_key t r
      → (t.task_id == u.task_id) ≡ false
      → IsWaiting our_key t (dispatch_one e u r)
  unfolding dispatch_one
  dispatch_one-waits e u r h other = elim (Bool-cases (contains u.task_id r.executing)) [
    | inl busy ↦ rw busy h
    | inr free ↦ rw free (
        start_claimed-waits u.task_id r (claim_task e u.task_id r.ledger) h other
          (claim_task-other e u.task_id t.task_id r.ledger other)
          (claim_task-our_key e u.task_id r.ledger))
  ]

  dispatch_one-runs :
      (e : Env) (u : Task) (r : Runner)
      → IsRunning our_key t r
      → IsRunning our_key t (dispatch_one e u r)
  unfolding dispatch_one
  dispatch_one-runs e u r h = elim (Bool-cases (contains u.task_id r.executing)) [
    | inl busy ↦ rw busy h
    | inr free ↦
        let other : (t.task_id == u.task_id) ≡ false = ground (arith, h.executing) in
        rw free (
          start_claimed-runs u.task_id r (claim_task e u.task_id r.ledger) h
            (claim_task-other e u.task_id t.task_id r.ledger other)
            (claim_task-our_key e u.task_id r.ledger))
  ]

  dispatch_each-runs :
      (at : ℕ → Env) (i : ℕ) (us : List Task) (r : Runner)
      → IsRunning our_key t r
      → IsRunning our_key t (dispatch_each at i us r)
  unfolding dispatch_each
  dispatch_each-runs at i [] r h = h
  dispatch_each-runs at i (u ∷ us) r h =
      dispatch_each-runs at (suc i) us (dispatch_one (at i) u r) (dispatch_one-runs (at i) u r h)

  pub dispatch_each-starts :
      (at : ℕ → Env) (i : ℕ) (us : List Task) (r : Runner)
      → IsWaiting our_key t r
      → ((j : ℕ) → IsFree (at j).now t)
      → IsIn t us
      → IsRunning our_key t (dispatch_each at i us r)
  unfolding dispatch_each
  dispatch_each-starts at i [] r h free there = absurd there
  dispatch_each-starts at i (u ∷ us) r h free there = elim (Bool-cases (t.task_id == u.task_id)) [
    | inl same ↦
        dispatch_each-runs at (suc i) us (dispatch_one (at i) u r)
          (dispatch_one-starts (at i) u r h (free i) (ground arith))
    | inr other ↦
        let rest = dispatch_one-waits (at i) u r h other in
        elim there [
          | inl here ↦ absurd (ground (arith, ap (λ v. v.task_id) here))
          | inr later ↦ dispatch_each-starts at (suc i) us (dispatch_one (at i) u r) rest free later
        ]
  ]
