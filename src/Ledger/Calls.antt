-- ===== src/Ledger/Calls.antt =====
-- The methods of `TaskLedger` (whisper/ledger.py) that change its state, as one step function.
use whisper_network.Common.{ℕ, Option, String, List, [], ◌∷◌}
use whisper_network.Wire.{Update}
use whisper_network.Ledger.State.{Env, TaskLedger}
use whisper_network.Ledger.Ops.{claim_task, renew_lease, complete_task, release_lease}
use whisper_network.Ledger.Submit.{Ciphers, submit_task}
use whisper_network.Ledger.Bulk.{recover_identity, release_all_leases}
use whisper_network.Ledger.Update.{handle_ledger_update}

pub data Call : Type 0 where
  submit : Ciphers → ℕ → String → ℕ → Option ℕ → Call
  claim renew release : ℕ → Call
  complete : ℕ → String → Call
  recover release_all : Call
  receive : Update → Call

unfoldable pub perform : Env → Call → TaskLedger → TaskLedger
perform e (submit c id payload shard key) s = (submit_task e c id payload shard key s).0
perform e (claim id) s = (claim_task e id s).0
perform e (renew id) s = (renew_lease e id s).0
perform e (release id) s = (release_lease e id s).0
perform e (complete id result) s = (complete_task e id result s).0
perform e recover s = (recover_identity e s).0
perform e release_all s = (release_all_leases e s).0
perform e (receive msg) s = handle_ledger_update e msg s

-- A node's life: one call after the other, each in its own surroundings.
unfoldable pub run : List (Env × Call) → TaskLedger → TaskLedger
run [] s = s
run ((e, c) ∷ rest) s = run rest (perform e c s)
