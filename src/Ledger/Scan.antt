-- ===== src/Ledger/Scan.antt =====
-- The queries of whisper/ledger.py against its methods.
use whisper_network.Common.{
  ℕ, ◌+◌, ◌≡◌, inl, inr, refl, sym, none, some, true, [], ◌∷◌, arith, Bool-cases, ◌==◌, ==_iff,
  ==_refl, subst,
}
use whisper_network.Common.Lists.{length, keep, count_if, All}
use whisper_network.Common.Dict.{Dict, lookup, values}
use whisper_network.Wire.{Task, is_in_progress, is_pending}
use whisper_network.Ledger.State.{Env, TaskLedger}
use whisper_network.Ledger.Ops.{claim_task}
use whisper_network.Ledger.Leases.{IsFree, claim_free}
use whisper_network.Ledger.Queries.{claimable, get_claimable_tasks, get_metrics, has_completed}
use whisper_network.Ledger.Valid.{IsValid}

claimable-IsFree : (now k : ℕ) (t : Task) → claimable now k t ≡ true → IsFree now t
unfolding claimable
claimable-IsFree now k t h = grind arith

lookup-later :
    (j k : ℕ) (t u : Task) (d : Dict Task)
    → lookup k d ≡ none
    → lookup j d ≡ some u
    → lookup j ((k, t) ∷ d) ≡ some u
lookup-later j k t u d fresh h = elim (Bool-cases (j == k)) [
  | inl same ↦
      absurd (ground (arith, subst (λ x. lookup x d ≡ none) (sym ((==_iff j k).0 same)) fresh))
  | inr other ↦ rw other h
]

claims_succeed :
    (e : Env) (s : TaskLedger) (d : Dict Task)
    → IsValid d
    → ((j : ℕ) (t : Task) → lookup j d ≡ some t → lookup j s.tasks ≡ some t)
    → All (λ t. (claim_task e t.task_id s).1 ≡ true) (keep (claimable e.now s.our_key) (values d))
claims_succeed e s [] valid sub = tt
claims_succeed e s ((k, t) ∷ d) valid sub =
    let rest = claims_succeed e s d valid.3 (λ j u h. sub j u (lookup-later j k t u d valid.0 h)) in
    elim (Bool-cases (claimable e.now s.our_key t)) [
      | inl listed ↦
          let known : lookup k s.tasks ≡ some t = sub k t (rw (==_refl k)) in
          let won : (claim_task e k s).1 ≡ true =
            rw (claim_free e k s known (claimable-IsFree e.now s.our_key t listed)) in
          rw listed (subst (λ i. (claim_task e i s).1 ≡ true) valid.1 won, rest)
      | inr unlisted ↦ rw unlisted rest
    ]

-- Every task that `get_claimable_tasks` lists for a well-formed ledger can be claimed: at the same time,
-- `claim_task` succeeds on it.
pub get_claimable_tasks-claim_task :
    (e : Env) (s : TaskLedger)
    → IsValid s.tasks
    → All (λ t. (claim_task e t.task_id s).1 ≡ true) (get_claimable_tasks e.now s)
unfolding get_claimable_tasks
get_claimable_tasks-claim_task e s valid = claims_succeed e s s.tasks valid (λ j t h. h)

counts_add_up :
    (d : Dict Task)
    → IsValid d
    → length (keep has_completed (values d))
        + count_if (λ t. is_in_progress t.status) (values d)
        + count_if (λ t. is_pending t.status) (values d)
      ≡ length (values d)
counts_add_up [] valid = refl
counts_add_up ((k, t) ∷ d) valid = ground (arith, counts_add_up d valid.3, valid.2.stamped)

-- The counts of `get_metrics` add up on a well-formed ledger: each task is counted as pending, in
-- progress or completed.
pub get_metrics_add_up :
    (s : TaskLedger)
    → IsValid s.tasks
    → let m = get_metrics s in m.completed + m.in_progress + m.pending ≡ m.total
unfolding get_metrics
get_metrics_add_up s valid = counts_add_up s.tasks valid
