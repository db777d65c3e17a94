-- ===== src/Ledger/Converge.antt =====
-- Replicas that receive the same updates (whisper/ledger.py, `handle_ledger_update`), in any order.
use whisper_network.Common.{
  ℕ, ◌≡◌, ◌⊎◌, inl, inr, refl, sym, ◌∙◌, Option, none, some, true, false, List, [], ◌∷◌, arith,
  Bool-cases, ◌==◌, if◌then◌else◌,
}
use whisper_network.Common.Lists.{All}
use whisper_network.Common.Dict.{lookup}
use whisper_network.Wire.{Task, Update}
use whisper_network.Ledger.State.{Env, TaskLedger}
use whisper_network.Ledger.Update.{replaces, accepts, handle_ledger_update}
use whisper_network.Ledger.Merge.{join, effect, passes, lookup-handle_ledger_update}

-- `m` is an update that wins against `t`, or is `t`.
abbrev pub Dominates : Task → Task → Type 0
Dominates m t = (t ≡ m) ⊎ (replaces m t ≡ true)

-- One of the updates is `m`.
abbrev pub Arrives : Task → List Task → Type 0
Arrives m [] = ⊥
Arrives m (t ∷ ts) = (t ≡ m) ⊎ Arrives m ts

pub replaces_irrefl : (t : Task) → replaces t t ≡ false
unfolding replaces
replaces_irrefl t = ground arith

pub replaces_asymm : (t u : Task) → replaces t u ≡ true → replaces u t ≡ false
unfolding replaces
replaces_asymm t u h = ground arith

-- The fold of `join` over the updates of one task, in the order of their arrival.
pub deliver : Option Task → List Task → Option Task
deliver entry [] = entry
deliver entry (t ∷ ts) = deliver (join entry t) ts

deliver_settled : (m : Task) (ts : List Task) → All (Dominates m) ts → deliver (some m) ts ≡ some m
unfolding deliver accepts
deliver_settled m [] h = refl
deliver_settled m (t ∷ ts) h =
    ground (arith, replaces_irrefl m, replaces_asymm m t, deliver_settled m ts h.1)

deliver_open :
    (m a : Task) (ts : List Task)
    → replaces m a ≡ true
    → Arrives m ts
    → All (Dominates m) ts
    → deliver (some a) ts ≡ some m
unfolding deliver accepts
deliver_open m a [] h arrives dom = absurd arrives
deliver_open m a (t ∷ ts) h (inl here) dom = rw (here, h) (deliver_settled m ts dom.1)
deliver_open m a (t ∷ ts) h (inr later) dom = elim dom.0 [
  | inl same ↦ rw (same, h) (deliver_settled m ts dom.1)
  | inr beaten ↦ elim (Bool-cases (replaces t a)) [
    | inl wins ↦ rw wins (deliver_open m t ts beaten later dom.1)
    | inr loses ↦ rw loses (deliver_open m a ts h later dom.1)
  ]
]

-- Convergence of one entry: if one of the updates wins against each of the others, it is what every
-- replica ends with, in whatever order and how often they arrive.
deliver-winner :
    (m : Task) (ts : List Task) → Arrives m ts → All (Dominates m) ts → deliver none ts ≡ some m
unfolding deliver accepts
deliver-winner m [] arrives dom = absurd arrives
deliver-winner m (t ∷ ts) (inl here) dom = rw here (deliver_settled m ts dom.1)
deliver-winner m (t ∷ ts) (inr later) dom = elim dom.0 [
  | inl same ↦ rw same (deliver_settled m ts dom.1)
  | inr beaten ↦ deliver_open m t ts beaten later dom.1
]

-- A node that handles a list of messages, each in its own surroundings.
pub handle_all : List (Env × Update) → TaskLedger → TaskLedger
handle_all [] s = s
handle_all ((e, msg) ∷ rest) s = handle_all rest (handle_ledger_update e msg s)

-- Every message is looked at when it comes.
abbrev pub AllPass : List (Env × Update) → TaskLedger → Type 0
AllPass [] s = Unit
AllPass ((e, msg) ∷ rest) s = (passes e msg s ≡ true) × AllPass rest (handle_ledger_update e msg s)

-- The tasks about `id` that the messages carry.
abbrev about : ℕ → Option Task → List Task → List Task
about id none ts = ts
about id (some t) ts = if id == t.task_id then t ∷ ts else ts

abbrev pub updates_of : ℕ → List (Env × Update) → List Task
updates_of id [] = []
updates_of id ((e, msg) ∷ rest) = about id msg.task (updates_of id rest)

deliver-effect :
    (id : ℕ) (entry body : Option Task) (ts : List Task)
    → deliver entry (about id body ts) ≡ deliver (effect id entry body) ts
unfolding deliver
deliver-effect id entry none ts = refl
deliver-effect id entry (some t) ts = elim (Bool-cases (id == t.task_id)) [
  | inl same ↦ rw same
  | inr other ↦ rw other
]

handle_all-deliver :
    (id : ℕ) (msgs : List (Env × Update)) (s : TaskLedger)
    → AllPass msgs s
    → lookup id (handle_all msgs s).tasks ≡ deliver (lookup id s.tasks) (updates_of id msgs)
unfolding handle_all deliver
handle_all-deliver id [] s h = refl
handle_all-deliver id ((e, msg) ∷ rest) s h =
    handle_all-deliver id rest (handle_ledger_update e msg s) h.1
    ∙ rw (lookup-handle_ledger_update e msg s id, h.0)
        (sym (deliver-effect id (lookup id s.tasks) msg.task (updates_of id rest)))

-- Eventual agreement: two nodes that know nothing of a task, and look at messages about it that may
-- differ in number and order, end with the same entry, if both receive an update that wins against
-- all others that either receives.
pub replicas_converge :
    (id : ℕ) (m : Task) (left right : List (Env × Update)) (s s' : TaskLedger)
    → lookup id s.tasks ≡ none
    → lookup id s'.tasks ≡ none
    → AllPass left s
    → AllPass right s'
    → Arrives m (updates_of id left)
    → Arrives m (updates_of id right)
    → All (Dominates m) (updates_of id left)
    → All (Dominates m) (updates_of id right)
    → (lookup id (handle_all left s).tasks ≡ some m)
      × (lookup id (handle_all right s').tasks ≡ some m)
replicas_converge id m left right s s' new new' passed passed' here here' dom dom' = (
  handle_all-deliver id left s passed ∙ rw new (deliver-winner m (updates_of id left) here dom),
  handle_all-deliver id right s' passed'
      ∙ rw new' (deliver-winner m (updates_of id right) here' dom'),
)
