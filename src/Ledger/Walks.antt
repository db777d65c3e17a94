-- ===== src/Ledger/Walks.antt =====
-- The walks of whisper/ledger.py over all tasks, entry by entry: `recover_identity` and
-- `release_all_leases`.
use whisper_network.Common.{
  ℕ, suc, ◌≡◌, ◌⊎◌, inl, inr, refl, ◌∙◌, sym, subst, Option, none, some, true, false, List, [], ◌∷◌,
  arith, Bool-cases, is_some_eq,
}
use whisper_network.Common.Dict.{lookup, values}
use whisper_network.Common.Lists.{All, length, keep}
use whisper_network.Wire.{Task, in_progress, is_in_progress}
use whisper_network.Ledger.State.{Env, TaskLedger}
use whisper_network.Ledger.Ops.{renewed, freed}
use whisper_network.Ledger.Bulk.{held_by, sweep, recover_identity, release_all_leases}
use whisper_network.Ledger.Queries.{get_my_active_tasks}
use whisper_network.Ledger.Sweep.{
  swept, change, finish_sweep-tasks, recover_identity_lem, release_all_leases_lem,
}
use whisper_network.Ledger.Effects.{
  IsRenewed, IsFreed, renewed-IsRenewed, freed-IsFreed, holder, not_holder, running, idle,
}

-- The node `us` holds the task in progress.
abbrev pub IsHeld : ℕ → Task → Type 0
IsHeld us t = (t.leased_by ≡ some us) × (t.status ≡ in_progress)

-- `n` of the tasks satisfy `P`.
pub data Counts (P : Task → Type 0) : List Task → ℕ → Type 0 where
  nobody : Counts P [] 0
  counted : {t : Task} {ts : List Task} {n : ℕ} → P t → Counts P ts n → Counts P (t ∷ ts) (suc n)
  passed : {t : Task} {ts : List Task} {n : ℕ} → ¬ P t → Counts P ts n → Counts P (t ∷ ts) n

-- An entry before and after a walk: a task of which `P` holds became one to which it is related by `R`,
-- any other is as it was, and what is missing is missing.
abbrev pub Walked : (Task → Type 0) → (Task → Task → Type 0) → Option Task → Option Task → Type 0
Walked P R none after = after ≡ none
Walked P R (some t) after =
    (P t × ((u : Task) × R t u × (after ≡ some u))) ⊎ ((¬ P t) × (after ≡ some t))

held_by-cases :
    (us : ℕ) (t : Task)
    → ((held_by us t ≡ true) × IsHeld us t) ⊎ ((held_by us t ≡ false) × (¬ IsHeld us t))
held_by-cases us t = elim (Bool-cases (is_some_eq t.leased_by us)) [
  | inl ours ↦ elim (Bool-cases (is_in_progress t.status)) [
    | inl busy ↦ inl (ground arith, (holder t.leased_by us ours, running t.status busy))
    | inr still ↦ inr (ground arith, λ h. idle t.status still h.1)
  ]
  | inr other ↦ inr (ground arith, λ h. not_holder t.leased_by us other h.0)
]

swept-Walked :
    (us : ℕ) (R : Task → Task → Type 0) (f : Task → Task)
    → ((t : Task) → R t (f t))
    → (before after : Option Task) → after ≡ change (swept (held_by us) f) before
    → Walked (IsHeld us) R before after
swept-Walked us R f related none after e = e
swept-Walked us R f related (some t) after e = elim (held_by-cases us t) [
  | inl (h, held) ↦ inl (held, (f t, related t, e ∙ rw h refl))
  | inr (h, other) ↦ inr (other, e ∙ rw h refl)
]

keep-Counts : (us : ℕ) (ts : List Task) → Counts (IsHeld us) ts (length (keep (held_by us) ts))
keep-Counts us [] = nobody
keep-Counts us (t ∷ ts) = elim (held_by-cases us t) [
  | inl (h, held) ↦ rw h (counted held (keep-Counts us ts))
  | inr (h, other) ↦ rw h (passed other (keep-Counts us ts))
]

none-IsHeld : (us : ℕ) (ts : List Task) → keep (held_by us) ts ≡ [] → All (λ t. ¬ IsHeld us t) ts
none-IsHeld us [] e = tt
none-IsHeld us (t ∷ ts) e = elim (held_by-cases us t) [
  | inl (h, held) ↦ absurd (ground arith)
  | inr (h, other) ↦ (other, none-IsHeld us ts (rw h at e))
]

-- Recovery after a restart: each task that names this node as its holder and is in progress becomes the
-- same task with a lease that runs for the lease duration from now, a version higher by one, and all other
-- fields as before; every other entry stays, none is added, and the result is the number of the former.
pub recover_identity-Walked :
    (e : Env) (s : TaskLedger)
    → let (s', n) = recover_identity e s in
      ((j : ℕ)
        → Walked
            (IsHeld s.our_key)
            (IsRenewed e s.lease_duration)
            (lookup j s.tasks)
            (lookup j s'.tasks))
      × Counts (IsHeld s.our_key) (values s.tasks) n
recover_identity-Walked e s =
    let done = recover_identity_lem e s in
    (
      λ j.
          swept-Walked s.our_key (IsRenewed e s.lease_duration) (renewed e s)
            (renewed-IsRenewed e s) (lookup j s.tasks) (lookup j (recover_identity e s).0.tasks)
            (done.0 j),
      subst (Counts (IsHeld s.our_key) (values s.tasks)) (sym done.1)
          (unfold get_my_active_tasks in (keep-Counts s.our_key (values s.tasks))),
    )

active-keep :
    (s : TaskLedger) → get_my_active_tasks s ≡ [] → keep (held_by s.our_key) (values s.tasks) ≡ []
unfolding get_my_active_tasks
active-keep s h = h

released_key : (e : Env) (s : TaskLedger) → (release_all_leases e s).0.our_key ≡ s.our_key
unfolding release_all_leases
released_key e s = (finish_sweep-tasks e s (sweep (held_by s.our_key) freed s.tasks)).2

-- Graceful shutdown: each task that names this node as its holder and is in progress becomes the same
-- task pending, with no holder, the lease time 0, a version higher by one, and all other fields as before;
-- every other entry, a completed task of this node included, stays, none is added; no task is held by this
-- node in progress afterwards; and the result is the number of the freed ones.
pub release_all_leases-Walked :
    (e : Env) (s : TaskLedger)
    → let (s', n) = release_all_leases e s in
      ((j : ℕ) → Walked (IsHeld s.our_key) IsFreed (lookup j s.tasks) (lookup j s'.tasks))
      × All (λ t. ¬ IsHeld s.our_key t) (values s'.tasks)
      × Counts (IsHeld s.our_key) (values s.tasks) n
release_all_leases-Walked e s =
    let done = release_all_leases_lem e s in
    let us = s.our_key in
    let after = (release_all_leases e s).0 in
    (
      λ j.
          swept-Walked us IsFreed freed freed-IsFreed (lookup j s.tasks) (lookup j after.tasks)
            (done.0 j),
      none-IsHeld us (values after.tasks) (
          subst (λ k. keep (held_by k) (values after.tasks) ≡ []) (released_key e s)
            (active-keep after (done.1))),
      subst (Counts (IsHeld us) (values s.tasks)) (sym (done.2))
          (unfold get_my_active_tasks in (keep-Counts us (values s.tasks))),
    )
