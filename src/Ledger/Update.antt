-- ===== src/Ledger/Update.antt =====
-- `TaskLedger.handle_ledger_update` (whisper/ledger.py): how gossip about a task is merged.
use whisper_network.Common.{
  ◌-◌, Option, none, some, Bool, true, false, if◌then◌else◌, truthy, not, ◌&&◌, ◌||◌, ltb,
}
use whisper_network.Common.Lists.{contains}
use whisper_network.Common.Deque.{remember}
use whisper_network.Common.Dict.{lookup, insert}
use whisper_network.Wire.{Task, Update, is_completed}
use whisper_network.Crypto.Signer.{verify}
use whisper_network.Ledger.State.{Env, TaskLedger, persist, fanout_raw}

-- Whether an incoming task replaces the one that is known.
unfoldable pub replaces : Task → Task → Bool
replaces incoming existing =
    if is_completed existing.status
    then false
    else (if ltb existing.version incoming.version
        then true
        else is_completed incoming.status && not (is_completed existing.status))

unfoldable pub accepts : Task → Option Task → Bool
accepts incoming none = true
accepts incoming (some existing) = replaces incoming existing

-- The re-gossip, if the local state has changed and hops are left.
unfoldable pub forward : Env → Update → TaskLedger → TaskLedger
forward e msg s =
    if ltb 1 msg.hops then fanout_raw e 0 (record msg { hops = msg.hops - 1 }) s else s

-- The part under the lock, and the re-gossip.
unfoldable pub merge_update : Env → Update → Task → TaskLedger → TaskLedger
merge_update e msg incoming s =
    if accepts incoming (lookup incoming.task_id s.tasks)
    then forward e msg (persist e (record s { tasks = insert incoming.task_id incoming s.tasks }))
    else s

unfoldable pub merge_body : Env → Update → Option Task → TaskLedger → TaskLedger
merge_body e msg none s = s
merge_body e msg (some incoming) s = merge_update e msg incoming s

unfoldable pub handle_ledger_update : Env → Update → TaskLedger → TaskLedger
handle_ledger_update e msg s =
    if not (truthy msg.msg_id) || contains msg.msg_id s.seen_ids
    then s
    else (let s' = record s { seen_ids = remember msg.msg_id s.seen_ids } in
        if verify e.ed25519 msg then merge_body e msg msg.task s' else s')
