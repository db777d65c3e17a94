-- ===== src/Ledger/Moves.antt =====
-- Every local method of whisper/ledger.py makes steps of the state machine, and what follows.
use whisper_network.Common.{
  ℕ, ◌≤◌, ◌≡◌, ◌≢◌, inl, inr, refl, ◌∙◌, ap, Option, none, some, arith, Option-cases, String,
}
use whisper_network.Common.Dict.{lookup, insert, lookup-insert_ne}
use whisper_network.Wire.{in_progress, Task}
use whisper_network.Ledger.State.{Env, TaskLedger, persist}
use whisper_network.Ledger.Frame.{gossip_task-Same}
use whisper_network.Ledger.Submit.{Ciphers, submitted, sealed, submit_task}
use whisper_network.Ledger.Ops.{
  leased, renewed, finished, freed, claim_task, renew_lease, complete_task, release_lease,
}
use whisper_network.Ledger.Bulk.{held_by, recover_identity, release_all_leases}
use whisper_network.Ledger.Leases.{
  claim_task_known, renew_lease_known, complete_task_known, release_lease_known,
}
use whisper_network.Ledger.Sweep.{swept, recover_identity_lem, release_all_leases_lem}
use whisper_network.Ledger.Calls.{Call, perform}
use whisper_network.Ledger.Machine.{
  LeaseStep, takes, extends, completes, frees, IsLocal, Moves, After, leased-Moves, renewed-Moves,
  finished-Moves, freed-Moves, swept-Moves, written, unmoved,
}

module _ (e : Env) (s : TaskLedger) where
  known-After :
      (id j : ℕ) (s' : TaskLedger) {t : Task}
      → lookup j s.tasks ≡ some t
      → (lookup id s.tasks ≡ none → s' ≡ s)
      → ((w : Task) → lookup id s.tasks ≡ some w → After e s s' j t)
      → After e s s' j t
  known-After id j s' at_j absent present = elim (Option-cases (lookup id s.tasks)) [
    | inl gone ↦ unmoved e s j s' (absent gone) at_j
    | inr (w, there) ↦ present w there
  ]

  claim_task-After :
      (id j : ℕ) {t : Task} → lookup j s.tasks ≡ some t → After e s (claim_task e id s).0 j t
  claim_task-After id j at_j =
      known-After id j (claim_task e id s).0 at_j (λ gone. unfold claim_task in (ground arith))
        (λ w there. elim (claim_task_known e id s there) [
          | inl (free, won, writes, count) ↦
              written e s id j (leased e s id w) (claim_task e id s).0 writes there at_j
                (leased-Moves e s id w free)
          | inr (taken, same) ↦ unmoved e s j (claim_task e id s).0 (ap (λ r. r.0) same) at_j
        ])

  renew_lease-After :
      (id j : ℕ) {t : Task} → lookup j s.tasks ≡ some t → After e s (renew_lease e id s).0 j t
  renew_lease-After id j at_j =
      known-After id j (renew_lease e id s).0 at_j (λ gone. unfold renew_lease in (ground arith))
        (λ w there. elim (renew_lease_known e id s there) [
          | inl (o, b, won, writes) ↦
              written e s id j (renewed e s w) (renew_lease e id s).0 writes there at_j
                (renewed-Moves e s w o b)
          | inr (refused, same) ↦ unmoved e s j (renew_lease e id s).0 (ap (λ r. r.0) same) at_j
        ])

  complete_task-After :
      (id j : ℕ) (result : String) {t : Task}
      → lookup j s.tasks ≡ some t
      → After e s (complete_task e id result s).0 j t
  complete_task-After id j result at_j =
      known-After id j (complete_task e id result s).0 at_j
        (λ gone. unfold complete_task in (ground arith))
        (λ w there. elim (complete_task_known e id s there result) [
          | inl (o, won, writes) ↦
              written e s id j (finished e result w) (complete_task e id result s).0 writes there
                at_j (finished-Moves e s result w o)
          | inr (refused, same) ↦
              unmoved e s j (complete_task e id result s).0 (ap (λ r. r.0) same) at_j
        ])

  release_lease-After :
      (id j : ℕ) {t : Task} → lookup j s.tasks ≡ some t → After e s (release_lease e id s).0 j t
  release_lease-After id j at_j =
      known-After id j (release_lease e id s).0 at_j
        (λ gone. unfold release_lease in (ground arith))
        (λ w there. elim (release_lease_known e id s there) [
          | inl (o, won, writes) ↦
              written e s id j (freed w) (release_lease e id s).0 writes there at_j
                (freed-Moves e s w o)
          | inr (refused, same) ↦ unmoved e s j (release_lease e id s).0 (ap (λ r. r.0) same) at_j
        ])

  recover_identity-After :
      (j : ℕ) {t : Task} → lookup j s.tasks ≡ some t → After e s (recover_identity e s).0 j t
  recover_identity-After j {t} at_j = (
    swept (held_by s.our_key) (renewed e s) t,
    (recover_identity_lem e s).0 j ∙ rw at_j,
    swept-Moves e s (renewed e s) (λ w h. renewed-Moves e s w (ground arith) (ground arith)) t,
  )

  release_all_leases-After :
      (j : ℕ) {t : Task} → lookup j s.tasks ≡ some t → After e s (release_all_leases e s).0 j t
  release_all_leases-After j {t} at_j = (
    swept (held_by s.our_key) freed t,
    (release_all_leases_lem e s).0 j ∙ rw at_j,
    swept-Moves e s freed (λ w h. freed-Moves e s w (ground arith)) t,
  )

  submit_task-After :
      (c : Ciphers) (id : ℕ) (payload : String) (shard : ℕ) (key : Option ℕ) (j : ℕ) {t : Task}
      → j ≢ id
      → lookup j s.tasks ≡ some t
      → After e s (submit_task e c id payload shard key s).0 j t
  unfolding submit_task
  submit_task-After c id payload shard key j {t} other at_j =
      let task = submitted e id (sealed c shard payload) shard key in
      let s' = persist e (record s { tasks = insert id task s.tasks }) in
      (
        t,
        rw ((gossip_task-Same e 0 task s').tasks) (lookup-insert_ne j id task s.tasks other ∙ at_j),
        inl refl,
      )

-- Refinement: each call of a method other than a received message and a submission under the id of the
-- task leaves a known task as it is, or moves it by one step of the state machine, raises its version by
-- one, and keeps its id, payload, shard and submitter.
pub perform-Moves :
    (e : Env) (c : Call) (s : TaskLedger) (j : ℕ) {t : Task}
    → IsLocal j c
    → lookup j s.tasks ≡ some t
    → (u : Task) × (lookup j (perform e c s).tasks ≡ some u) × Moves e s t u
unfolding perform
perform-Moves e (Call.submit c id payload shard key) s j local at_j =
    submit_task-After e s c id payload shard key j local at_j
perform-Moves e (Call.receive msg) s j local at_j = absurd local
perform-Moves e (Call.claim id) s j local at_j = claim_task-After e s id j at_j
perform-Moves e (Call.renew id) s j local at_j = renew_lease-After e s id j at_j
perform-Moves e (Call.release id) s j local at_j = release_lease-After e s id j at_j
perform-Moves e (Call.complete id result) s j local at_j = complete_task-After e s id j result at_j
perform-Moves e Call.recover s j local at_j = recover_identity-After e s j at_j
perform-Moves e Call.release_all s j local at_j = release_all_leases-After e s j at_j

-- No step of a node touches a task that another node holds under a lease that has not run out.
foreign-still :
    {us now dur k : ℕ} {t u : Task}
    → t.status ≡ in_progress
    → t.leased_by ≡ some k
    → k ≢ us
    → now ≤ t.lease_expires
    → ¬ LeaseStep us now dur t u
foreign-still running by other valid (takes free a b c) = grind arith
foreign-still running by other valid (extends o a b c d) = ground arith
foreign-still running by other valid (completes o a) = ground arith
foreign-still running by other valid (frees o a b) = ground arith

-- Exclusion on one replica: while another node's lease on a task has not run out, no call of a method
-- changes the task, other than a received message and a submission under the id of the task.
pub foreign_lease_kept :
    (e : Env) (c : Call) (s : TaskLedger) (j : ℕ) {t : Task} {k : ℕ}
    → IsLocal j c
    → lookup j s.tasks ≡ some t
    → t.status ≡ in_progress
    → t.leased_by ≡ some k
    → k ≢ s.our_key
    → e.now ≤ t.lease_expires
    → lookup j (perform e c s).tasks ≡ some t
foreign_lease_kept e c s j {t} local known running by other valid =
    let (u, after, moves) = perform-Moves e c s j local known in
    elim moves [
      | inl same ↦ after ∙ ap some same
      | inr steps ↦ absurd (foreign-still running by other valid steps.0)
    ]
