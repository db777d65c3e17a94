-- ===== src/Ledger/Merge.antt =====
-- What `handle_ledger_update` (whisper/ledger.py) does to each entry of the ledger.
use whisper_network.Common.{
  ℕ, ◌<◌, ◌≡◌, ◌⊎◌, inl, inr, refl, ◌∙◌, Option, none, some, Bool, true, false, arith, Option-cases,
  Bool-cases, truthy, ◌==◌, if◌then◌else◌, not, ◌||◌, ◌&&◌,
}
use whisper_network.Common.Lists.{contains}
use whisper_network.Common.Deque.{remember, contains-remember}
use whisper_network.Common.Dict.{lookup, insert, lookup-insert}
use whisper_network.Wire.{Task, Update, is_completed}
use whisper_network.Crypto.Signer.{verify}
use whisper_network.Ledger.State.{Env, TaskLedger, persist}
use whisper_network.Ledger.Frame.{forward-Same}
use whisper_network.Ledger.Update.{
  replaces, accepts, merge_update, merge_body, handle_ledger_update,
}

-- The abstract replica: what an entry becomes when a task arrives.
abbrev pub join : Option Task → Task → Option Task
join entry incoming = if accepts incoming entry then some incoming else entry

-- A message is looked at if its id is new and its signature does not fail.
abbrev pub passes : Env → Update → TaskLedger → Bool
passes e msg s = truthy msg.msg_id && not (contains msg.msg_id s.seen_ids) && verify e.ed25519 msg

-- What the message means for the entry `id`.
abbrev pub effect : ℕ → Option Task → Option Task → Option Task
effect id entry none = entry
effect id entry (some incoming) = if id == incoming.task_id then join entry incoming else entry

merge_update-effect :
    (e : Env) (msg : Update) (incoming : Task) (s : TaskLedger) (id : ℕ)
    → lookup id (merge_update e msg incoming s).tasks
      ≡ effect id (lookup id s.tasks) (some incoming)
unfolding merge_update
merge_update-effect e msg incoming s id = ground (
  arith,
  lookup-insert id incoming.task_id incoming s.tasks,
  forward-Same e msg (persist e (record s { tasks = insert incoming.task_id incoming s.tasks })),
)

-- The refinement of the handler by the abstract replica: every entry is left as it is, or joined
-- with the incoming task, and the latter exactly if the message passes and is about that entry.
pub lookup-handle_ledger_update :
    (e : Env) (msg : Update) (s : TaskLedger) (id : ℕ)
    → lookup id (handle_ledger_update e msg s).tasks
      ≡ (if passes e msg s then effect id (lookup id s.tasks) msg.task else lookup id s.tasks)
unfolding handle_ledger_update merge_body
lookup-handle_ledger_update e msg s id = elim (Option-cases msg.task) [
  | inl absent ↦ ground arith
  | inr (incoming, present) ↦ ground (
    arith,
    merge_update-effect e msg incoming (record s { seen_ids = remember msg.msg_id s.seen_ids }) id,
  )
]

-- Completed tasks are sticky under gossip: no `ledger_update` message, in no surroundings, changes the
-- entry of a completed task. Messages of other kinds are not covered.
pub completed_sticky :
    (e : Env) (msg : Update) (s : TaskLedger) (id : ℕ) {t : Task}
    → lookup id s.tasks ≡ some t
    → is_completed t.status ≡ true
    → lookup id (handle_ledger_update e msg s).tasks ≡ some t
unfolding accepts replaces
completed_sticky e msg s id {t} known done = elim (Option-cases msg.task) [
  | inl absent ↦ ground (arith, lookup-handle_ledger_update e msg s id)
  | inr (incoming, present) ↦ ground (arith, lookup-handle_ledger_update e msg s id)
]

-- `u` may stand where `t` stood: it is `t`, or `t` was open and `u` is completed or newer.
abbrev pub Succeeds : Task → Task → Type 0
Succeeds t u =
    (u ≡ t)
    ⊎ ((is_completed t.status ≡ false) × ((t.version < u.version) ⊎ (is_completed u.status ≡ true)))

join-Succeeds : (t incoming : Task) → (u : Task) × (join (some t) incoming ≡ some u) × Succeeds t u
unfolding accepts replaces
join-Succeeds t incoming = elim (Bool-cases (replaces incoming t)) [
  | inl wins ↦ (incoming, ground arith, ground arith)
  | inr loses ↦ (t, ground arith, inl refl)
]

effect-Succeeds :
    (id : ℕ) (t : Task) (body : Option Task)
    → (u : Task) × (effect id (some t) body ≡ some u) × Succeeds t u
effect-Succeeds id t none = (t, refl, inl refl)
effect-Succeeds id t (some incoming) = elim (Bool-cases (id == incoming.task_id)) [
  | inl same ↦ let (u, e, h) = join-Succeeds t incoming in (u, ground arith, h)
  | inr other ↦ (t, ground arith, inl refl)
]

-- An entry never disappears, and what replaces an entry that was not completed is completed or of a
-- higher version.
pub handle_ledger_update-Succeeds :
    (e : Env) (msg : Update) (s : TaskLedger) (id : ℕ) {t : Task}
    → lookup id s.tasks ≡ some t
    → (u : Task) × (lookup id (handle_ledger_update e msg s).tasks ≡ some u) × Succeeds t u
handle_ledger_update-Succeeds e msg s id {t} known = elim (Bool-cases (passes e msg s)) [
  | inl good ↦
      let (u, eq, h) = effect-Succeeds id t msg.task in
      (u, lookup-handle_ledger_update e msg s id ∙ rw (good, known) eq, h)
  | inr bad ↦ (t, lookup-handle_ledger_update e msg s id ∙ rw bad known, inl refl)
]

merge_body-seen :
    (e : Env) (msg : Update) (body : Option Task) (s : TaskLedger)
    → (merge_body e msg body s).seen_ids ≡ s.seen_ids
unfolding merge_body merge_update
merge_body-seen e msg none s = refl
merge_body-seen e msg (some incoming) s = ground (
  arith,
  forward-Same e msg (persist e (record s { tasks = insert incoming.task_id incoming s.tasks })),
)

-- `if not msg_id or msg_id in self._seen_ids: return`
abbrev ignored : Update → TaskLedger → Bool
ignored msg s = not (truthy msg.msg_id) || contains msg.msg_id s.seen_ids

handle_ignored :
    (e : Env) (msg : Update) (s : TaskLedger)
    → ignored msg s ≡ true
    → handle_ledger_update e msg s ≡ s
unfolding handle_ledger_update
handle_ignored e msg s h = rw h

handle_ledger_update-ignored :
    (e : Env) (msg : Update) (s : TaskLedger) → ignored msg (handle_ledger_update e msg s) ≡ true
unfolding handle_ledger_update
handle_ledger_update-ignored e msg s = ground (
  arith,
  merge_body-seen e msg msg.task (record s { seen_ids = remember msg.msg_id s.seen_ids }),
  contains-remember msg.msg_id s.seen_ids,
)

-- Redelivery: a message that arrives a second time, right after the first, changes nothing at all,
-- whatever the surroundings of the second call.
pub handle_ledger_update_twice :
    (e e' : Env) (msg : Update) (s : TaskLedger)
    → handle_ledger_update e' msg (handle_ledger_update e msg s) ≡ handle_ledger_update e msg s
handle_ledger_update_twice e e' msg s =
    handle_ignored e' msg (handle_ledger_update e msg s) (handle_ledger_update-ignored e msg s)
