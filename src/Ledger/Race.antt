-- ===== src/Ledger/Race.antt =====
-- Two nodes that claim one task at the same time, and how the exchange of their claims ends
-- (whisper/ledger.py, `claim_task` and `handle_ledger_update`).
use whisper_network.Common.{ℕ, ◌≡◌, refl, ◌∙◌, some, false, arith, ==_refl}
use whisper_network.Common.Dict.{lookup}
use whisper_network.Wire.{Task, Update, is_completed}
use whisper_network.Ledger.State.{Env, TaskLedger}
use whisper_network.Ledger.Ops.{leased, claim_task}
use whisper_network.Ledger.Update.{replaces, accepts, handle_ledger_update}
use whisper_network.Ledger.Merge.{lookup-handle_ledger_update}
use whisper_network.Ledger.Leases.{IsFree, claim_free, stored, rescues}

-- Two open tasks of one version never replace one another, whatever their leases.
pub tie :
    (t u : Task)
    → t.version ≡ u.version
    → is_completed t.status ≡ false
    → is_completed u.status ≡ false
    → replaces t u ≡ false
unfolding replaces
tie t u same open_t open_u = ground arith

-- An open task of the same version leaves an open entry as it is.
tie_received :
    (f : Env) (m : Update) (s : TaskLedger) (id : ℕ) {mine other : Task}
    → lookup id s.tasks ≡ some mine
    → m.task ≡ some other
    → other.version ≡ mine.version
    → is_completed other.status ≡ false
    → is_completed mine.status ≡ false
    → lookup id (handle_ledger_update f m s).tasks ≡ some mine
unfolding accepts
tie_received f m s id {mine} {other} known carried same open_other open_mine =
    lookup-handle_ledger_update f m s id ∙ ground (arith, tie other mine same open_other open_mine)

claimed_entry :
    (e : Env) (s : TaskLedger) (id : ℕ) {t : Task}
    → lookup id s.tasks ≡ some t
    → IsFree e.now t
    → lookup id (claim_task e id s).0.tasks ≡ some (leased e s id t)
claimed_entry e s id {t} known free =
    rw (claim_free e id s known free)
      (stored e 0 id (leased e s id t) s (rescues t s) id ∙ rw (==_refl id))

module _ (e e' : Env) (s s' : TaskLedger) (id : ℕ) {t : Task} (known : lookup id s.tasks ≡ some t)
    (known' : lookup id s'.tasks ≡ some t) (free : IsFree e.now t) (free' : IsFree e'.now t) where
  -- Two replicas that agree on a free task and both claim it: whatever message about the other's
  -- claim each of them receives next, each still holds its own claim. The lease times play no part.
  pub racing_claims_stay :
      (m m' : Update) (f f' : Env)
      → m.task ≡ some (leased e' s' id t)
      → m'.task ≡ some (leased e s id t)
      → (lookup id (handle_ledger_update f m (claim_task e id s).0).tasks ≡ some (leased e s id t))
        × (lookup id (handle_ledger_update f' m' (claim_task e' id s').0).tasks
            ≡ some (leased e' s' id t))
  unfolding leased
  racing_claims_stay m m' f f' carried carried' = (
    tie_received f m (claim_task e id s).0 id (claimed_entry e s id known free) carried refl refl
        refl,
    tie_received f' m' (claim_task e' id s').0 id (claimed_entry e' s' id known' free') carried'
        refl refl refl,
  )
