-- ===== src/Ledger/Durable.antt =====
-- The ledger file (whisper/ledger.py, `_persist` and `_load`): what a restart finds.
use whisper_network.Common.{
  ℕ, ◌≡◌, inl, inr, refl, sym, ◌∙◌, ap, Option, none, some, Bool, List, [], ◌∷◌, arith,
  Option-cases, Bool-cases, truthy, not, ◌||◌, String, is_some_eq, ltb,
}
use whisper_network.Common.Lists.{length, contains}
use whisper_network.Common.Deque.{remember}
use whisper_network.Common.Dict.{Dict, lookup, insert}
use whisper_network.Wire.{Task, Update, is_in_progress}
use whisper_network.Crypto.Signer.{verify}
use whisper_network.Ledger.State.{
  Env, TaskLedger, Disk, written, loaded, init, persist, gossip_task, gossip_all, notify_submitter,
}
use whisper_network.Ledger.Frame.{
  Same, gossip_task-Same, gossip_all-Same, notify_submitter-Same, forward-Same,
}
use whisper_network.Ledger.Ops.{
  leased, claim_task, renewed, renew_lease, finished, complete_task, freed, release_lease,
}
use whisper_network.Ledger.Leases.{claim_free, claim_held, Free-cases, rescues}
use whisper_network.Ledger.Submit.{submitted, sealed, submit_task}
use whisper_network.Ledger.Bulk.{held_by, sweep, finish_sweep, recover_identity, release_all_leases}
use whisper_network.Ledger.Update.{accepts, forward, merge_update, merge_body, handle_ledger_update}
use whisper_network.Ledger.Calls.{
  Call, claim, renew, release, complete, recover, release_all, submit, receive, perform, run,
}

-- The file holds what the memory holds.
abbrev pub IsSaved : TaskLedger → Type 0
IsSaved s = loaded s.disk ≡ s.tasks

Same-IsSaved : (s s' : TaskLedger) → Same s s' → IsSaved s → IsSaved s'
Same-IsSaved s s' same saved = ap loaded same.disk ∙ saved ∙ sym same.tasks

module _ (e : Env) (works : e.write ≡ written) where
  persist-IsSaved : (s : TaskLedger) → IsSaved (persist e s)
  persist-IsSaved s = rw works

  stored-IsSaved : (i : ℕ) (u : Task) (s : TaskLedger) → IsSaved (gossip_task e i u (persist e s))
  stored-IsSaved i u s =
      Same-IsSaved (persist e s) (gossip_task e i u (persist e s))
        (gossip_task-Same e i u (persist e s)) (persist-IsSaved s)

  claim_task-IsSaved : (id : ℕ) (s : TaskLedger) → IsSaved s → IsSaved (claim_task e id s).0
  unfolding claim_task
  claim_task-IsSaved id s saved = elim (Option-cases (lookup id s.tasks)) [
    | inl gone ↦ rw (gone, claim_task) saved
    | inr (t, there) ↦ elim (Free-cases e id s there) [
      | inl free ↦ rw (claim_free e id s there free) (
          stored-IsSaved 0 (leased e s id t)
            (record s { tasks_rescued = rescues t s; tasks = insert id (leased e s id t) s.tasks }))
      | inr held ↦ rw (claim_held e id s there held) saved
    ]
  ]

  renew_lease-IsSaved : (id : ℕ) (s : TaskLedger) → IsSaved s → IsSaved (renew_lease e id s).0
  unfolding renew_lease
  renew_lease-IsSaved id s saved = elim (Option-cases (lookup id s.tasks)) [
    | inl gone ↦ rw (gone, renew_lease) saved
    | inr (t, there) ↦
        elim (Bool-cases
          (not (is_some_eq t.leased_by s.our_key) || not (is_in_progress t.status))) [
            | inl refused ↦ rw (there, renew_lease, refused) saved
            | inr held ↦
                rw (there, renew_lease, held)
                  (stored-IsSaved 0 (renewed e s t)
                    (record s { tasks = insert id (renewed e s t) s.tasks }))
          ]
  ]

  complete_task-IsSaved :
      (id : ℕ) (r : String) (s : TaskLedger) → IsSaved s → IsSaved (complete_task e id r s).0
  unfolding complete_task
  complete_task-IsSaved id r s saved = elim (Option-cases (lookup id s.tasks)) [
    | inl gone ↦ rw (gone, complete_task) saved
    | inr (t, there) ↦
        let u = finished e r t in
        let told = gossip_task e 0 u (persist e (record s { tasks = insert id u s.tasks })) in
        elim (Bool-cases (not (is_some_eq t.leased_by s.our_key))) [
          | inl refused ↦ rw (there, complete_task, refused) saved
          | inr held ↦
              rw (there, complete_task, held)
                (Same-IsSaved told (notify_submitter e u told) (notify_submitter-Same e u told)
                  (stored-IsSaved 0 u (record s { tasks = insert id u s.tasks })))
        ]
  ]

  release_lease-IsSaved : (id : ℕ) (s : TaskLedger) → IsSaved s → IsSaved (release_lease e id s).0
  unfolding release_lease
  release_lease-IsSaved id s saved = elim (Option-cases (lookup id s.tasks)) [
    | inl gone ↦ rw (gone, release_lease) saved
    | inr (t, there) ↦ elim (Bool-cases (not (is_some_eq t.leased_by s.our_key))) [
      | inl refused ↦ rw (there, release_lease, refused) saved
      | inr held ↦
          rw (there, release_lease, held)
            (stored-IsSaved 0 (freed t) (record s { tasks = insert id (freed t) s.tasks }))
    ]
  ]

sweep-unchanged :
    (p : Task → Bool) (f : Task → Task) (d : Dict Task)
    → length (sweep p f d).1 ≡ 0
    → (sweep p f d).0 ≡ d
unfolding sweep
sweep-unchanged p f [] h = refl
sweep-unchanged p f ((k, t) ∷ d) h = ground (arith, sweep-unchanged p f d)

finish_sweep-IsSaved :
    (e : Env) (works : e.write ≡ written) (s : TaskLedger) (r : Dict Task × List Task)
    → (length r.1 ≡ 0 → r.0 ≡ s.tasks)
    → IsSaved s
    → IsSaved (finish_sweep e s r).0
unfolding finish_sweep
finish_sweep-IsSaved e works s (tasks, out) same saved =
    let s' = record s { tasks = tasks } in
    elim (Bool-cases (ltb 0 (length out))) [
      | inl some_ ↦ rw some_ (
          Same-IsSaved (persist e s') (gossip_all e 0 out (persist e s'))
            (gossip_all-Same e 0 out (persist e s')) (persist-IsSaved e works s'))
      | inr none_ ↦ rw none_ (
          Same-IsSaved s' (gossip_all e 0 out s') (gossip_all-Same e 0 out s')
            (saved ∙ sym (same (ground arith))))
    ]

merge_body-IsSaved :
    (e : Env) (works : e.write ≡ written) (msg : Update) (body : Option Task) (s : TaskLedger)
    → IsSaved s
    → IsSaved (merge_body e msg body s)
unfolding merge_body merge_update
merge_body-IsSaved e works msg none s saved = saved
merge_body-IsSaved e works msg (some t) s saved =
    let s' = record s { tasks = insert t.task_id t s.tasks } in
    elim (Bool-cases (accepts t (lookup t.task_id s.tasks))) [
      | inl new ↦ rw new (
          Same-IsSaved (persist e s') (forward e msg (persist e s'))
            (forward-Same e msg (persist e s')) (persist-IsSaved e works s'))
      | inr old ↦ rw old saved
    ]

handle_ledger_update-IsSaved :
    (e : Env) (works : e.write ≡ written) (msg : Update) (s : TaskLedger)
    → IsSaved s
    → IsSaved (handle_ledger_update e msg s)
unfolding handle_ledger_update
handle_ledger_update-IsSaved e works msg s saved =
    let s' = record s { seen_ids = remember msg.msg_id s.seen_ids } in
    elim (Bool-cases (not (truthy msg.msg_id) || contains msg.msg_id s.seen_ids)) [
      | inl skip ↦ rw skip saved
      | inr fresh ↦ elim (Bool-cases (verify e.ed25519 msg)) [
        | inl good ↦ rw (fresh, good) (merge_body-IsSaved e works msg msg.task s' saved)
        | inr forged ↦ rw (fresh, forged) saved
      ]
    ]

-- While the file can be written, every method leaves in the file what it leaves in memory.
perform-IsSaved :
    (e : Env) (c : Call) (s : TaskLedger) → e.write ≡ written → IsSaved s → IsSaved (perform e c s)
unfolding perform recover_identity release_all_leases submit_task
perform-IsSaved e (submit c id payload shard key) s works saved =
    let u = submitted e id (sealed c shard payload) shard key in
    stored-IsSaved e works 0 u (record s { tasks = insert id u s.tasks })
perform-IsSaved e (claim id) s works saved = claim_task-IsSaved e works id s saved
perform-IsSaved e (renew id) s works saved = renew_lease-IsSaved e works id s saved
perform-IsSaved e (release id) s works saved = release_lease-IsSaved e works id s saved
perform-IsSaved e (complete id r) s works saved = complete_task-IsSaved e works id r s saved
perform-IsSaved e recover s works saved =
    let held = held_by s.our_key in
    finish_sweep-IsSaved e works s (sweep held (renewed e s) s.tasks)
      (sweep-unchanged held (renewed e s) s.tasks) saved
perform-IsSaved e release_all s works saved =
    let held = held_by s.our_key in
    finish_sweep-IsSaved e works s (sweep held freed s.tasks) (sweep-unchanged held freed s.tasks)
      saved
perform-IsSaved e (receive msg) s works saved = handle_ledger_update-IsSaved e works msg s saved

-- Every call of a run can write the file.
abbrev AllWritten : List (Env × Call) → Type 0
AllWritten [] = Unit
AllWritten ((e, c) ∷ rest) = (e.write ≡ written) × AllWritten rest

run-IsSaved :
    (calls : List (Env × Call)) (s : TaskLedger)
    → AllWritten calls
    → IsSaved s
    → IsSaved (run calls s)
unfolding run
run-IsSaved [] s works saved = saved
run-IsSaved ((e, c) ∷ rest) s works saved =
    run-IsSaved rest (perform e c s) works.1 (perform-IsSaved e c s works.0 saved)

-- A node that starts from a file, makes any calls each of whose writes of the file is complete, and starts
-- again from the file, finds the tasks that it had, where the file reads back as what was written.
restart-run :
    (calls : List (Env × Call)) (key duration threshold : ℕ) (signer : Option ℕ) (disk : Disk)
    → AllWritten calls
    → let s = run calls (init key duration threshold signer disk) in
      (init key duration threshold signer s.disk).tasks ≡ s.tasks
unfolding init
restart-run calls key duration threshold signer disk works =
    run-IsSaved calls (init key duration threshold signer disk) works refl
