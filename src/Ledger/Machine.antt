-- ===== src/Ledger/Machine.antt =====
-- The life of one task on one node as a state machine, and the methods of whisper/ledger.py as its
-- steps.
use whisper_network.Common.{
  ℕ, ◌+◌, ◌≡◌, ◌≢◌, ◌⊎◌, inl, inr, refl, ◌∙◌, Option, none, some, true, arith, Bool-cases, ◌==◌,
  String, is_some_eq,
}
use whisper_network.Common.Dict.{lookup}
use whisper_network.Wire.{Status, pending, in_progress, completed, Task, is_in_progress}
use whisper_network.Ledger.State.{Env, TaskLedger}
use whisper_network.Ledger.Ops.{leased, renewed, finished, freed}
use whisper_network.Ledger.Bulk.{held_by}
use whisper_network.Ledger.Leases.{IsFree, Writes}
use whisper_network.Ledger.Sweep.{swept}
use whisper_network.Ledger.Calls.{Call}

-- A step of the node `us` at time `now`, with leases of length `dur`, from `t` to `u`.
pub data LeaseStep (us now dur : ℕ) (t u : Task) : Type 0 where
  takes :
      IsFree now t
      → u.status ≡ in_progress
      → u.leased_by ≡ some us
      → u.lease_expires ≡ now + dur
      → LeaseStep us now dur t u
  extends :
      t.leased_by ≡ some us
      → t.status ≡ in_progress
      → u.status ≡ in_progress
      → u.leased_by ≡ some us
      → u.lease_expires ≡ now + dur
      → LeaseStep us now dur t u
  completes : t.leased_by ≡ some us → u.status ≡ completed → LeaseStep us now dur t u
  frees : t.leased_by ≡ some us → u.status ≡ pending → u.leased_by ≡ none → LeaseStep us now dur t u

-- The calls that do not bring the task `j` in: those but `receive`, and `submit` under the same id.
abbrev pub IsLocal : ℕ → Call → Type 0
IsLocal j (Call.submit c id payload shard key) = j ≢ id
IsLocal j (Call.receive msg) = ⊥
IsLocal j _ = Unit

-- An entry is left alone, or makes one step and its version goes up by one; what was submitted
-- stays.
abbrev pub Moves : Env → TaskLedger → Task → Task → Type 0
Moves e s t u =
    (u ≡ t)
    ⊎ (LeaseStep s.our_key e.now s.lease_duration t u
        × (u.version ≡ t.version + 1)
        × (u.task_id ≡ t.task_id)
        × (u.payload ≡ t.payload)
        × (u.shard_id ≡ t.shard_id)
        × (u.submitter_key ≡ t.submitter_key))

abbrev pub After : Env → TaskLedger → TaskLedger → ℕ → Task → Type 0
After e s s' j t = (u : Task) × (lookup j s'.tasks ≡ some u) × Moves e s t u

ours : (o : Option ℕ) (k : ℕ) → is_some_eq o k ≡ true → o ≡ some k
ours none k h = cc
ours (some m) k h = ground arith

busy : (x : Status) → is_in_progress x ≡ true → x ≡ in_progress
busy pending h = cc
busy in_progress h = refl
busy completed h = cc

module _ (e : Env) (s : TaskLedger) where
  pub leased-Moves : (id : ℕ) (t : Task) → IsFree e.now t → Moves e s t (leased e s id t)
  unfolding leased
  leased-Moves id t free = inr (takes free refl refl refl, refl, refl, refl, refl, refl)

  pub renewed-Moves :
      (t : Task)
      → is_some_eq t.leased_by s.our_key ≡ true
      → is_in_progress t.status ≡ true
      → Moves e s t (renewed e s t)
  unfolding renewed
  renewed-Moves t o b = inr (
    extends (ours t.leased_by s.our_key o) (busy t.status b) (busy t.status b)
        (ours t.leased_by s.our_key o) refl,
    refl,
    refl,
    refl,
    refl,
    refl,
  )

  pub finished-Moves :
      (result : String) (t : Task)
      → is_some_eq t.leased_by s.our_key ≡ true
      → Moves e s t (finished e result t)
  unfolding finished
  finished-Moves result t o =
      inr (completes (ours t.leased_by s.our_key o) refl, refl, refl, refl, refl, refl)

  pub freed-Moves : (t : Task) → is_some_eq t.leased_by s.our_key ≡ true → Moves e s t (freed t)
  unfolding freed
  freed-Moves t o =
      inr (frees (ours t.leased_by s.our_key o) refl refl, refl, refl, refl, refl, refl)

  pub swept-Moves :
      (f : Task → Task)
      → ((t : Task) → held_by s.our_key t ≡ true → Moves e s t (f t))
      → (t : Task) → Moves e s t (swept (held_by s.our_key) f t)
  swept-Moves f h t = elim (Bool-cases (held_by s.our_key t)) [
    | inl held ↦ rw held (h t held)
    | inr free ↦ rw free (inl refl)
  ]

  pub written :
      (id j : ℕ) (u : Task) (s' : TaskLedger) {t w : Task}
      → Writes id u s s'
      → lookup id s.tasks ≡ some w
      → lookup j s.tasks ≡ some t
      → Moves e s w u
      → After e s s' j t
  written id j u s' {t} {w} writes at_id at_j moves = elim (Bool-cases (j == id)) [
    | inl same ↦ let tw : t ≡ w = ground arith in (u, writes j ∙ rw same, rw tw moves)
    | inr other ↦ (t, writes j ∙ rw other at_j, inl refl)
  ]

  pub unmoved :
      (j : ℕ) (s' : TaskLedger) {t : Task} → s' ≡ s → lookup j s.tasks ≡ some t → After e s s' j t
  unmoved j s' {t} same at_j = (t, rw same at_j, inl refl)
