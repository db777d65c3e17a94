-- ===== src/Ledger/Sweep.antt =====
-- The walks over all tasks (whisper/ledger.py): startup recovery and the release at shutdown.
use whisper_network.Common.{
  ℕ, ◌≡◌, refl, ◌∙◌, Option, none, some, Bool, false, List, [], ◌∷◌, arith, if◌then◌else◌,
}
use whisper_network.Common.Lists.{length, keep}
use whisper_network.Common.Dict.{Dict, lookup, values}
use whisper_network.Wire.{Task}
use whisper_network.Ledger.State.{Env, TaskLedger, persist}
use whisper_network.Ledger.Frame.{gossip_all-Same}
use whisper_network.Ledger.Ops.{renewed, freed}
use whisper_network.Ledger.Bulk.{held_by, sweep, finish_sweep, recover_identity, release_all_leases}
use whisper_network.Ledger.Queries.{get_my_active_tasks}

-- What a sweep does to one entry.
abbrev pub swept : (Task → Bool) → (Task → Task) → Task → Task
swept p f t = if p t then f t else t

abbrev pub change : (Task → Task) → Option Task → Option Task
change g none = none
change g (some t) = some (g t)

module _ (p : Task → Bool) (f : Task → Task) where
  pub lookup-sweep :
      (j : ℕ) (d : Dict Task) → lookup j (sweep p f d).0 ≡ change (swept p f) (lookup j d)
  unfolding sweep
  lookup-sweep j [] = refl
  lookup-sweep j ((k, task) ∷ d) = ground (arith, lookup-sweep j d)

  length-sweep : (d : Dict Task) → length (sweep p f d).1 ≡ length (keep p (values d))
  unfolding sweep
  length-sweep [] = refl
  length-sweep ((k, task) ∷ d) = ground (arith, length-sweep d)

  keep-sweep :
      ((t : Task) → p (f t) ≡ false) → (d : Dict Task) → keep p (values (sweep p f d).0) ≡ []
  unfolding sweep
  keep-sweep ends [] = refl
  keep-sweep ends ((k, task) ∷ d) = ground (arith, keep-sweep ends d, ends task)

pub finish_sweep-tasks :
    (e : Env) (s : TaskLedger) (r : Dict Task × List Task)
    → ((finish_sweep e s r).0.tasks ≡ r.0)
      × ((finish_sweep e s r).1 ≡ length r.1)
      × ((finish_sweep e s r).0.our_key ≡ s.our_key)
unfolding finish_sweep
finish_sweep-tasks e s (tasks, out) =
    let s' = record s { tasks = tasks } in
    let unsaved = gossip_all-Same e 0 out s' in
    let saved = gossip_all-Same e 0 out (persist e s') in
    (ground (arith, unsaved, saved), refl, ground (arith, unsaved, saved))

-- Recovery after a restart: exactly the tasks that this node holds in progress get a new lease and
-- version, every other entry stays, and the result counts the former.
pub recover_identity_lem :
    (e : Env) (s : TaskLedger)
    → ((j : ℕ)
        → lookup j (recover_identity e s).0.tasks
          ≡ change (swept (held_by s.our_key) (renewed e s)) (lookup j s.tasks))
      × ((recover_identity e s).1 ≡ length (get_my_active_tasks s))
unfolding recover_identity get_my_active_tasks
recover_identity_lem e s =
    let held = held_by s.our_key in
    let r = sweep held (renewed e s) s.tasks in
    (
      λ j. rw ((finish_sweep-tasks e s r).0) (lookup-sweep held (renewed e s) j s.tasks),
      (finish_sweep-tasks e s r).1 ∙ length-sweep held (renewed e s) s.tasks,
    )

freed-not-held : (k : ℕ) (t : Task) → held_by k (freed t) ≡ false
unfolding freed
freed-not-held k t = refl

-- Graceful shutdown: exactly the tasks that this node holds in progress are freed, every other entry
-- stays, none is held by this node afterwards, and the result counts the freed ones.
pub release_all_leases_lem :
    (e : Env) (s : TaskLedger)
    → ((j : ℕ)
        → lookup j (release_all_leases e s).0.tasks
          ≡ change (swept (held_by s.our_key) freed) (lookup j s.tasks))
      × (get_my_active_tasks (release_all_leases e s).0 ≡ [])
      × ((release_all_leases e s).1 ≡ length (get_my_active_tasks s))
unfolding release_all_leases get_my_active_tasks
release_all_leases_lem e s =
    let held = held_by s.our_key in
    let r = sweep held freed s.tasks in
    let done = finish_sweep-tasks e s r in
    (
      λ j. rw (done.0) (lookup-sweep held freed j s.tasks),
      rw (done.0, done.2) (keep-sweep held freed (freed-not-held s.our_key) s.tasks),
      done.1 ∙ length-sweep held freed s.tasks,
    )
