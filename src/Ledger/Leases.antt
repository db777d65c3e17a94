-- ===== src/Ledger/Leases.antt =====
-- The leases of whisper/ledger.py: what each method that changes one task does to every entry.
use whisper_network.Common.{
  ℕ, ◌+◌, ◌<◌, ◌≤◌, ◌≡◌, ◌⊎◌, inl, inr, some, true, false, arith, Bool-cases, ◌==◌, if◌then◌else◌,
  ◌&&◌, String, is_some_eq,
}
use whisper_network.Common.Dict.{lookup, insert, lookup-insert}
use whisper_network.Wire.{pending, in_progress, Task, is_completed, is_in_progress}
use whisper_network.Ledger.State.{Env, TaskLedger, persist, gossip_task, notify_submitter}
use whisper_network.Ledger.Frame.{gossip_task-Same, notify_submitter-Same}
use whisper_network.Ledger.Ops.{
  leased, claim_found, claim_task, renewed, renew_lease, finished, complete_task, freed,
  release_lease,
}

-- A task that `claim_task` may take: it is pending, or its lease has run out.
abbrev pub IsFree : ℕ → Task → Type 0
IsFree now t = (t.status ≡ pending) ⊎ ((t.status ≡ in_progress) × (t.lease_expires < now))

-- The ledger after `task_id` was given the entry `u`, all other entries kept.
abbrev pub Writes : ℕ → Task → TaskLedger → TaskLedger → Type 0
Writes task_id u s s' =
    (j : ℕ) → lookup j s'.tasks ≡ (if j == task_id then some u else lookup j s.tasks)

pub stored :
    (e : Env) (i id : ℕ) (u : Task) (s : TaskLedger) (r : ℕ)
    → Writes id u s (
        gossip_task e i u (persist e (record s { tasks_rescued = r; tasks = insert id u s.tasks })))
stored e i id u s r = λ j. ground (
  arith,
  gossip_task-Same e i u (persist e (record s { tasks_rescued = r; tasks = insert id u s.tasks })),
  lookup-insert j id u s.tasks,
)

-- `self._tasks_rescued += 1`, for an orphaned task.
abbrev pub rescues : Task → TaskLedger → ℕ
rescues t s = if is_in_progress t.status then s.tasks_rescued + 1 else s.tasks_rescued

module _ (e : Env) (id : ℕ) (s : TaskLedger) {t : Task} (known : lookup id s.tasks ≡ some t) where
  abbrev pub claimed : TaskLedger
  claimed = gossip_task e 0 (leased e s id t) (
      persist e
        (record s { tasks_rescued = rescues t s; tasks = insert id (leased e s id t) s.tasks }))

  pub claim_free : IsFree e.now t → claim_task e id s ≡ (claimed, true)
  unfolding claim_task claim_found
  claim_free (inl idle) = ground arith
  claim_free (inr (busy, expired)) = ground arith

  pub claim_held :
      (is_completed t.status ≡ true)
        ⊎ ((is_in_progress t.status ≡ true) × (e.now ≤ t.lease_expires))
      → claim_task e id s ≡ (s, false)
  unfolding claim_task claim_found
  claim_held (inl done) = ground arith
  claim_held (inr (busy, valid)) = ground arith

  pub Free-cases :
      IsFree e.now t
      ⊎ ((is_completed t.status ≡ true)
          ⊎ ((is_in_progress t.status ≡ true) × (e.now ≤ t.lease_expires)))
  Free-cases = grind arith

  -- On a known task: `claim_task` succeeds exactly if the task is pending or whose lease has run out; it
  -- then writes our lease, valid for the lease duration from now, leaves all other entries, and
  -- counts a rescue exactly if the task was orphaned. Otherwise nothing changes.
  pub claim_task_known :
      (IsFree e.now t
        × ((claim_task e id s).1 ≡ true)
        × Writes id (leased e s id t) s (claim_task e id s).0
        × ((claim_task e id s).0.tasks_rescued ≡ rescues t s))
      ⊎ ((¬ IsFree e.now t) × (claim_task e id s ≡ (s, false)))
  claim_task_known = elim Free-cases [
    | inl free ↦ inl (
      free,
      rw (claim_free free),
      rw (claim_free free) (stored e 0 id (leased e s id t) s (rescues t s)),
      rw (claim_free free)
          (gossip_task-Same e 0 (leased e s id t) (
            persist e (record s {
              tasks_rescued = rescues t s;
              tasks = insert id (leased e s id t) s.tasks;
            }))).rescued,
    )
    | inr held ↦ inr (grind arith, claim_held held)
  ]

  -- `task.leased_by == self.our_key`
  abbrev pub IsOurs : Type 0
  IsOurs = is_some_eq t.leased_by s.our_key ≡ true

  -- On a known task: only the owner of a running lease can renew it: then the entry is the renewed task and all
  -- others stay; otherwise nothing changes.
  pub renew_lease_known :
      (IsOurs
        × (is_in_progress t.status ≡ true)
        × ((renew_lease e id s).1 ≡ true)
        × Writes id (renewed e s t) s (renew_lease e id s).0)
      ⊎ (((is_some_eq t.leased_by s.our_key ≡ false) ⊎ (is_in_progress t.status ≡ false))
          × (renew_lease e id s ≡ (s, false)))
  renew_lease_known =
      elim (Bool-cases (is_some_eq t.leased_by s.our_key && is_in_progress t.status)) [
        | inl held ↦
            let made : renew_lease e id s ≡ (
              gossip_task e 0 (renewed e s t)
                  (persist e (record s { tasks = insert id (renewed e s t) s.tasks })),
              true,
            ) =
              unfold renew_lease in (ground arith) in
            inl (
              ground arith,
              ground arith,
              rw made,
              rw made (stored e 0 id (renewed e s t) s s.tasks_rescued),
            )
        | inr other ↦ inr (ground arith, unfold renew_lease in (ground arith))
      ]

  -- On a known task: only the node that it names as its holder can complete it, whatever its status: then the entry carries the result,
  -- its digest and the time, and all other entries stay; otherwise nothing changes.
  pub complete_task_known :
      (result : String)
      → (IsOurs
          × ((complete_task e id result s).1 ≡ true)
          × Writes id (finished e result t) s (complete_task e id result s).0)
        ⊎ ((is_some_eq t.leased_by s.our_key ≡ false) × (complete_task e id result s ≡ (s, false)))
  complete_task_known result = elim (Bool-cases (is_some_eq t.leased_by s.our_key)) [
    | inl held ↦
        let u = finished e result t in
        let told = gossip_task e 0 u (persist e (record s { tasks = insert id u s.tasks })) in
        let made : complete_task e id result s ≡ (notify_submitter e u told, true) =
          unfold complete_task in (ground arith) in
        inl (
          held,
          rw made,
          rw (made, (notify_submitter-Same e u told).tasks) (stored e 0 id u s s.tasks_rescued),
        )
    | inr other ↦ inr (other, unfold complete_task in (ground arith))
  ]

  -- On a known task: only the node that it names as its holder can release it: then the entry is free and all
  -- others stay; otherwise nothing changes. The task's status is not asked.
  pub release_lease_known :
      (IsOurs × ((release_lease e id s).1 ≡ true) × Writes id (freed t) s (release_lease e id s).0)
      ⊎ ((is_some_eq t.leased_by s.our_key ≡ false) × (release_lease e id s ≡ (s, false)))
  release_lease_known = elim (Bool-cases (is_some_eq t.leased_by s.our_key)) [
    | inl held ↦
        let made : release_lease e id s ≡ (
          gossip_task e 0 (freed t) (persist e (record s { tasks = insert id (freed t) s.tasks })),
          true,
        ) =
          unfold release_lease in (ground arith) in
        inl (held, rw made, rw made (stored e 0 id (freed t) s s.tasks_rescued))
    | inr other ↦ inr (other, unfold release_lease in (ground arith))
  ]
