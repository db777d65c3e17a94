-- ===== src/Ledger/Valid.antt =====
-- The well-formedness of a ledger (whisper/ledger.py), which every method keeps.
use whisper_network.Common.{
  ℕ, ◌<◌, ◌≡◌, inl, inr, refl, sym, Option, none, some, Bool, true, false, [], ◌∷◌, arith,
  Bool-cases, ==_iff, subst, ◌==◌, String,
}
use whisper_network.Common.Dict.{Dict, lookup, insert, lookup-insert}
use whisper_network.Wire.{Task, is_completed, is_in_progress, is_pending}
use whisper_network.Ledger.State.{Env, TaskLedger, persist, gossip_task}
use whisper_network.Ledger.Frame.{gossip_task-Same}
use whisper_network.Ledger.Ops.{leased, renewed, finished, freed}
use whisper_network.Ledger.Queries.{was_stamped}

abbrev pub is_known : Option ℕ → Bool
is_known none = false
is_known (some k) = true

abbrev pub has_text : Option String → Bool
has_text none = false
has_text (some r) = true

-- A pending task has no holder; one in progress has a holder; a completed one has a result and the
-- time of its completion.
pub record IsWellFormed (t : Task) : Type 0 where
  pub free : is_pending t.status ≡ true → t.leased_by ≡ none
  pub held : is_in_progress t.status ≡ true → is_known t.leased_by ≡ true
  pub answered : is_completed t.status ≡ true → has_text t.result ≡ true
  pub stamped : is_completed t.status ≡ true → was_stamped t.completed_at ≡ true

-- Each key stands once, names the task that it leads to, and the task is well formed.
abbrev pub IsValid : Dict Task → Type 0
IsValid [] = Unit
IsValid ((k, t) ∷ d) = (lookup k d ≡ none) × (k ≡ t.task_id) × IsWellFormed t × IsValid d

pub lookup-IsValid :
    (k : ℕ) (d : Dict Task) {t : Task}
    → IsValid d
    → lookup k d ≡ some t
    → (k ≡ t.task_id) × IsWellFormed t
lookup-IsValid k [] valid h = cc
lookup-IsValid k ((j, u) ∷ d) {t} valid h = elim (Bool-cases (k == j)) [
  | inl same ↦ let tu : u ≡ t = ground arith in (ground arith, subst IsWellFormed tu valid.2)
  | inr other ↦ lookup-IsValid k d valid.3 (ground arith)
]

pub insert-IsValid :
    (k : ℕ) (t : Task) (d : Dict Task)
    → IsValid d
    → k ≡ t.task_id
    → IsWellFormed t
    → IsValid (insert k t d)
insert-IsValid k t [] valid e w = (refl, e, w, tt)
insert-IsValid k t ((j, u) ∷ d) valid e w = elim (Bool-cases (k == j)) [
  | inl same ↦
      rw same (subst (λ x. lookup x d ≡ none) (sym ((==_iff k j).0 same)) valid.0, e, w, valid.3)
  | inr other ↦
      rw other
        (ground (arith, lookup-insert j k t d), valid.1, valid.2, insert-IsValid k t d valid.3 e w)
]

pub leased-IsWellFormed :
    (e : Env) (s : TaskLedger) (id : ℕ) (t : Task) → IsWellFormed t → IsWellFormed (leased e s id t)
unfolding leased
leased-IsWellFormed e s id t w = ground arith

pub renewed-IsWellFormed :
    (e : Env) (s : TaskLedger) (t : Task) → IsWellFormed t → IsWellFormed (renewed e s t)
unfolding renewed
renewed-IsWellFormed e s t w = record {
  free = w.free;
  held = w.held;
  answered = w.answered;
  stamped = w.stamped;
}

pub finished-IsWellFormed :
    (e : Env) (r : String) (t : Task) → 0 < e.now → IsWellFormed (finished e r t)
unfolding finished
finished-IsWellFormed e r t later = ground arith

pub freed-IsWellFormed : (t : Task) → IsWellFormed (freed t)
unfolding freed
freed-IsWellFormed t = ground arith

pub stored-IsValid :
    (e : Env) (i id : ℕ) (u : Task) (s : TaskLedger) (r : ℕ)
    → IsValid s.tasks
    → id ≡ u.task_id
    → IsWellFormed u
    → IsValid
        (gossip_task e i u
          (persist e (record s { tasks_rescued = r; tasks = insert id u s.tasks }))).tasks
stored-IsValid e i id u s r valid same w =
    rw
      ((gossip_task-Same e i u
        (persist e (record s { tasks_rescued = r; tasks = insert id u s.tasks }))).tasks)
      (insert-IsValid id u s.tasks valid same w)
