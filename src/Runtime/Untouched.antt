-- ===== src/Runtime/Untouched.antt =====
-- What a renewal or a claim of one task leaves alone (whisper/ledger.py), as a scan uses it.
use whisper_network.Common.{
  ℕ, suc, ◌≡◌, inl, inr, refl, sym, ◌∙◌, subst, some, false, List, [], ◌∷◌, arith, Bool-cases,
  Option-cases, ◌==◌, is_some_eq, ◌&&◌,
}
use whisper_network.Common.Dict.{lookup, insert}
use whisper_network.Wire.{Task, is_in_progress}
use whisper_network.Ledger.State.{Env, TaskLedger, persist}
use whisper_network.Ledger.Frame.{gossip_task-Same}
use whisper_network.Ledger.Ops.{claim_task, leased, renew_lease, renewed}
use whisper_network.Ledger.Leases.{
  claim_free, claim_held, Free-cases, rescues, claim_task_known, renew_lease_known,
}
use whisper_network.Runtime.Dispatch.{renew_each}

renew_lease-our_key :
    (e : Env) (id : ℕ) (s : TaskLedger) → (renew_lease e id s).0.our_key ≡ s.our_key
unfolding renew_lease
renew_lease-our_key e id s = elim (Option-cases (lookup id s.tasks)) [
  | inl missing ↦ ground arith
  | inr (t, found) ↦ ground (
    arith,
    (gossip_task-Same e 0 (renewed e s t)
        (persist e (record s { tasks = insert id (renewed e s t) s.tasks }))).our_key,
  )
]

pub claim_task-our_key :
    (e : Env) (id : ℕ) (s : TaskLedger) → (claim_task e id s).0.our_key ≡ s.our_key
unfolding claim_task
claim_task-our_key e id s = elim (Option-cases (lookup id s.tasks)) [
  | inl missing ↦ ground arith
  | inr (t, found) ↦ elim (Free-cases e id s found) [
    | inl free ↦
        rw (claim_free e id s found free)
          (gossip_task-Same e 0 (leased e s id t) (
            persist e (record s {
              tasks_rescued = rescues t s;
              tasks = insert id (leased e s id t) s.tasks;
            }))).our_key
    | inr held ↦ rw (claim_held e id s found held) refl
  ]
]

-- Another task's claim, or a renewal, leaves an entry.
pub claim_task-other :
    (e : Env) (k id : ℕ) (s : TaskLedger)
    → (id == k) ≡ false
    → lookup id (claim_task e k s).0.tasks ≡ lookup id s.tasks
unfolding claim_task
claim_task-other e k id s other = elim (Option-cases (lookup k s.tasks)) [
  | inl missing ↦ ground arith
  | inr (u, found) ↦ elim (claim_task_known e k s found) [
    | inl (free, won, writes, counted) ↦ writes id ∙ rw other refl
    | inr (held, same) ↦ rw same refl
  ]
]

renew_lease-kept :
    (e : Env) (k id : ℕ) (s : TaskLedger) (t : Task)
    → lookup id s.tasks ≡ some t
    → is_in_progress t.status && is_some_eq t.leased_by s.our_key ≡ false
    → lookup id (renew_lease e k s).0.tasks ≡ some t
unfolding renew_lease
renew_lease-kept e k id s t known not_ours = elim (Option-cases (lookup k s.tasks)) [
  | inl missing ↦ ground arith
  | inr (u, found) ↦ elim (renew_lease_known e k s found) [
    | inl (ours, busy, won, writes) ↦ writes id ∙ (elim (Bool-cases (id == k)) [
      | inl same ↦
          let e : id ≡ k = ground arith in
          absurd (ground (arith, known, subst (λ j. lookup j s.tasks ≡ some u) (sym e) found))
      | inr other ↦ rw other known
    ])
    | inr (held, same) ↦ rw same known
  ]
]

pub renew_each-kept :
    (at : ℕ → Env) (i id : ℕ) (ts : List Task) (s : TaskLedger) (t : Task)
    → lookup id s.tasks ≡ some t
    → is_in_progress t.status && is_some_eq t.leased_by s.our_key ≡ false
    → (lookup id (renew_each at i ts s).tasks ≡ some t)
      × ((renew_each at i ts s).our_key ≡ s.our_key)
unfolding renew_each
renew_each-kept at i id [] s t known not_ours = (known, refl)
renew_each-kept at i id (u ∷ us) s t known not_ours =
    let s' = (renew_lease (at i) u.task_id s).0 in
    let key : s'.our_key ≡ s.our_key = renew_lease-our_key (at i) u.task_id s in
    let (still, same) =
      renew_each-kept at (suc i) id us s' t
        (renew_lease-kept (at i) u.task_id id s t known not_ours) (rw key not_ours) in
    (still, same ∙ key)
