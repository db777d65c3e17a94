-- ===== src/Ledger/Effects.antt =====
-- What the methods of whisper/ledger.py write into the entry of one task, field by field.
use whisper_network.Common.{
  ℕ, ◌+◌, ◌<◌, ◌≤◌, ap, ◌≡◌, ◌≢◌, ◌⊎◌, inl, inr, refl, ◌∙◌, Option, none, some, true, false, arith,
  String, is_some_eq, ==_refl,
}
use whisper_network.Common.Dict.{lookup}
use whisper_network.Wire.{Status, pending, in_progress, completed, Task, is_in_progress}
use whisper_network.Ledger.State.{Env, TaskLedger}
use whisper_network.Ledger.Ops.{
  leased, renewed, finished, freed, claim_task, renew_lease, complete_task, release_lease,
}
use whisper_network.Ledger.Leases.{
  Writes, claim_task_known, renew_lease_known, complete_task_known, release_lease_known,
}

-- What no method changes in an entry, and the version that goes up by one.
pub record IsSuccessor (t u : Task) : Type 0 where
  pub task_id : u.task_id ≡ t.task_id
  pub payload : u.payload ≡ t.payload
  pub shard_id : u.shard_id ≡ t.shard_id
  pub created_at : u.created_at ≡ t.created_at
  pub submitter_key : u.submitter_key ≡ t.submitter_key
  pub encrypted : u.encrypted ≡ t.encrypted
  pub threshold_t : u.threshold_t ≡ t.threshold_t
  pub version : u.version ≡ t.version + 1

-- The answer fields stay.
pub record KeepsAnswer (t u : Task) : Type 0 where
  pub result : u.result ≡ t.result
  pub completed_at : u.completed_at ≡ t.completed_at
  pub result_hash : u.result_hash ≡ t.result_hash

-- The time and the commitment of the claim stay.
pub record KeepsClaim (t u : Task) : Type 0 where
  pub claimed_at : u.claimed_at ≡ t.claimed_at
  pub commitment : u.commitment ≡ t.commitment

-- `u` is `t` under a lease of the node `us` from now on, with the claim noted.
pub record IsClaimed (e : Env) (us dur id : ℕ) (t u : Task) : Type 0 where
  pub base : IsSuccessor t u
  pub answer : KeepsAnswer t u
  pub status : u.status ≡ in_progress
  pub leased_by : u.leased_by ≡ some us
  pub lease_expires : u.lease_expires ≡ e.now + dur
  pub claimed_at : u.claimed_at ≡ some e.now
  pub commitment : u.commitment ≡ some (e.commit_hash us id e.now)

-- `u` is `t` with its lease running from now again.
pub record IsRenewed (e : Env) (dur : ℕ) (t u : Task) : Type 0 where
  pub base : IsSuccessor t u
  pub answer : KeepsAnswer t u
  pub claim : KeepsClaim t u
  pub status : u.status ≡ t.status
  pub leased_by : u.leased_by ≡ t.leased_by
  pub lease_expires : u.lease_expires ≡ e.now + dur

-- `u` is `t` completed with the result, the lease left as it was.
pub record IsFinished (e : Env) (answer : String) (t u : Task) : Type 0 where
  pub base : IsSuccessor t u
  pub claim : KeepsClaim t u
  pub status : u.status ≡ completed
  pub leased_by : u.leased_by ≡ t.leased_by
  pub lease_expires : u.lease_expires ≡ t.lease_expires
  pub result : u.result ≡ some answer
  pub completed_at : u.completed_at ≡ some e.now
  pub result_hash : u.result_hash ≡ some (e.result_digest answer)

-- `u` is `t` pending, without a lease.
pub record IsFreed (t u : Task) : Type 0 where
  pub base : IsSuccessor t u
  pub answer : KeepsAnswer t u
  pub claim : KeepsClaim t u
  pub status : u.status ≡ pending
  pub leased_by : u.leased_by ≡ none
  pub lease_expires : u.lease_expires ≡ 0

-- `id` has an entry `u` of which `P` holds afterwards, and every other entry is as before.
abbrev pub Becomes : (Task → Type 0) → ℕ → TaskLedger → TaskLedger → Type 0
Becomes P id s s' =
    (u : Task) × P u
    × (lookup id s'.tasks ≡ some u)
    × ((j : ℕ) → j ≢ id → lookup j s'.tasks ≡ lookup j s.tasks)

pub Writes-Becomes :
    (P : Task → Type 0) (id : ℕ) (u : Task) (s s' : TaskLedger)
    → P u
    → Writes id u s s'
    → Becomes P id s s'
Writes-Becomes P id u s s' good writes =
    (u, good, writes id ∙ rw (==_refl id) refl, λ j other. ground (arith, writes j))

pub leased-IsClaimed :
    (e : Env) (s : TaskLedger) (id : ℕ) (t : Task)
    → IsClaimed e s.our_key s.lease_duration id t (leased e s id t)
unfolding leased
leased-IsClaimed e s id t = ground arith

pub renewed-IsRenewed :
    (e : Env) (s : TaskLedger) (t : Task) → IsRenewed e s.lease_duration t (renewed e s t)
unfolding renewed
renewed-IsRenewed e s t = ground arith

pub finished-IsFinished :
    (e : Env) (answer : String) (t : Task) → IsFinished e answer t (finished e answer t)
unfolding finished
finished-IsFinished e answer t = ground arith

pub freed-IsFreed : (t : Task) → IsFreed t (freed t)
unfolding freed
freed-IsFreed t = ground arith

pub holder : (o : Option ℕ) (k : ℕ) → is_some_eq o k ≡ true → o ≡ some k
holder none k h = cc
holder (some m) k h = ground arith

pub not_holder : (o : Option ℕ) (k : ℕ) → is_some_eq o k ≡ false → o ≢ some k
not_holder none k h same = cc
not_holder (some m) k h same = ground arith

Status-cases : (x : Status) → (x ≡ pending) ⊎ ((x ≡ in_progress) ⊎ (x ≡ completed))
Status-cases pending = inl refl
Status-cases in_progress = inr (inl refl)
Status-cases completed = inr (inr refl)

pub running : (x : Status) → is_in_progress x ≡ true → x ≡ in_progress
running pending h = cc
running in_progress h = refl
running completed h = cc

pub idle : (x : Status) → is_in_progress x ≡ false → x ≢ in_progress
idle pending h same = cc
idle in_progress h same = cc
idle completed h same = cc

-- Whether a task was orphaned when it was taken, and the count of rescues before and after.
abbrev pub Rescued : ℕ → Task → ℕ → ℕ → Type 0
Rescued now t before after =
    ((t.status ≡ pending) × (after ≡ before))
    ⊎ ((t.status ≡ in_progress) × (t.lease_expires < now) × (after ≡ before + 1))

-- `claim_task` on a known task: if it is pending, or its lease has run out, the call succeeds, and the
-- entry becomes the same task in progress, held by this node until the lease duration from now, with
-- the time and the commitment of the claim, a version higher by one, and all other fields as before;
-- every other entry stays, and the count of rescues goes up by one exactly if a lease had run out. If it
-- is completed or its lease has not run out, the call fails and the state is as before.
pub claim_task-IsClaimed :
    (e : Env) (id : ℕ) (s : TaskLedger) {t : Task}
    → lookup id s.tasks ≡ some t
    → let (s', ok) = claim_task e id s in
      (Rescued e.now t s.tasks_rescued s'.tasks_rescued
        × (ok ≡ true)
        × Becomes (IsClaimed e s.our_key s.lease_duration id t) id s s')
      ⊎ (((t.status ≡ completed) ⊎ ((t.status ≡ in_progress) × (e.now ≤ t.lease_expires)))
          × (s' ≡ s)
          × (ok ≡ false))
claim_task-IsClaimed e id s {t} known = elim (claim_task_known e id s known) [
  | inl (free, won, writes, count) ↦ inl (
    elim free [
      | inl still ↦ inl (still, ground (arith, count))
      | inr (busy, late) ↦ inr (busy, late, ground (arith, count))
    ],
    won,
    Writes-Becomes (IsClaimed e s.our_key s.lease_duration id t) id (leased e s id t) s
        (claim_task e id s).0 (leased-IsClaimed e s id t) writes,
  )
  | inr (taken, same) ↦ inr (
    elim (Status-cases t.status) [
      | inl still ↦ absurd (taken (inl still))
      | inr (inl busy) ↦ inr (busy, grind arith)
      | inr (inr done) ↦ inl done
    ],
    ap (λ r. r.0) same,
    ap (λ r. r.1) same,
  )
]

-- `renew_lease` on a known task: if it is in progress and held by this node, the call succeeds, and the
-- entry becomes the same task with a lease that runs for the lease duration from now, a version higher by
-- one, and all other fields as before; every other entry stays. Otherwise the call fails and the state is
-- as before.
pub renew_lease-IsRenewed :
    (e : Env) (id : ℕ) (s : TaskLedger) {t : Task}
    → lookup id s.tasks ≡ some t
    → let (s', ok) = renew_lease e id s in
      ((t.leased_by ≡ some s.our_key)
        × (t.status ≡ in_progress)
        × (ok ≡ true)
        × Becomes (IsRenewed e s.lease_duration t) id s s')
      ⊎ (((t.leased_by ≢ some s.our_key) ⊎ (t.status ≢ in_progress)) × (s' ≡ s) × (ok ≡ false))
renew_lease-IsRenewed e id s {t} known = elim (renew_lease_known e id s known) [
  | inl (ours, busy, won, writes) ↦ inl (
    holder t.leased_by s.our_key ours,
    running t.status busy,
    won,
    Writes-Becomes (IsRenewed e s.lease_duration t) id (renewed e s t) s (renew_lease e id s).0
        (renewed-IsRenewed e s t) writes,
  )
  | inr (refused, same) ↦ inr (
    elim refused [
      | inl other ↦ inl (not_holder t.leased_by s.our_key other)
      | inr still ↦ inr (idle t.status still)
    ],
    ap (λ r. r.0) same,
    ap (λ r. r.1) same,
  )
]

-- `complete_task` on a known task, whatever its status: if it names this node as its holder, the call
-- succeeds, and the entry becomes the same task completed, with the result, the digest of the result, the
-- time, a version higher by one, and all other fields, holder and lease included, as before; every other
-- entry stays. Otherwise the call fails and the state is as before.
pub complete_task-IsFinished :
    (e : Env) (id : ℕ) (answer : String) (s : TaskLedger) {t : Task}
    → lookup id s.tasks ≡ some t
    → let (s', ok) = complete_task e id answer s in
      ((t.leased_by ≡ some s.our_key) × (ok ≡ true) × Becomes (IsFinished e answer t) id s s')
      ⊎ ((t.leased_by ≢ some s.our_key) × (s' ≡ s) × (ok ≡ false))
complete_task-IsFinished e id answer s {t} known = elim (complete_task_known e id s known answer) [
  | inl (ours, won, writes) ↦ inl (
    holder t.leased_by s.our_key ours,
    won,
    Writes-Becomes (IsFinished e answer t) id (finished e answer t) s
        (complete_task e id answer s).0 (finished-IsFinished e answer t) writes,
  )
  | inr (refused, same) ↦
      inr (not_holder t.leased_by s.our_key refused, ap (λ r. r.0) same, ap (λ r. r.1) same)
]

-- `release_lease` on a known task, whatever its status: if it names this node as its holder, the call
-- succeeds, and the entry becomes the same task pending, with no holder, the lease time 0, a version
-- higher by one, and all other fields, an earlier result included, as before; every other entry stays.
-- Otherwise the call fails and the state is as before.
pub release_lease-IsFreed :
    (e : Env) (id : ℕ) (s : TaskLedger) {t : Task}
    → lookup id s.tasks ≡ some t
    → let (s', ok) = release_lease e id s in
      ((t.leased_by ≡ some s.our_key) × (ok ≡ true) × Becomes (IsFreed t) id s s')
      ⊎ ((t.leased_by ≢ some s.our_key) × (s' ≡ s) × (ok ≡ false))
release_lease-IsFreed e id s {t} known = elim (release_lease_known e id s known) [
  | inl (ours, won, writes) ↦ inl (
    holder t.leased_by s.our_key ours,
    won,
    Writes-Becomes (IsFreed t) id (freed t) s (release_lease e id s).0 (freed-IsFreed t) writes,
  )
  | inr (refused, same) ↦
      inr (not_holder t.leased_by s.our_key refused, ap (λ r. r.0) same, ap (λ r. r.1) same)
]
