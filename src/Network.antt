-- ===== src/Network.antt =====
-- Several nodes and the gossip between them (whisper/ledger.py over whisper/transport.py): the network
-- holds the sent messages in any order and hands each to its receiver, or loses it.
pub mod Flood
use whisper_network.Common.{ℕ, suc, Option, none, some, List, [], ◌∷◌, ◌++◌}
use whisper_network.Common.Dict.{Dict, lookup, insert}
use whisper_network.Wire.{Sent, Update, ledger_update}
use whisper_network.Ledger.State.{Env, TaskLedger}
use whisper_network.Ledger.Update.{handle_ledger_update}

-- The ledgers of the nodes, by their keys, and the messages on their way.
pub record Network : Type 0 where
  pub nodes : Dict TaskLedger
  pub in_flight : List Sent

-- The receiver's ledger after the message, with what it has sent on.
unfoldable pub handled : Env → Update → TaskLedger → TaskLedger
handled e msg s = handle_ledger_update e msg (record s { sent = [] })

-- A message to a node that is not there is lost.
unfoldable pub hand_over : Env → ℕ → Update → Dict TaskLedger → List Sent → Network
hand_over e to msg nodes others = elim (lookup to nodes) [
  | none ↦ record { nodes = nodes; in_flight = others }
  | some s ↦ record {
    nodes = insert to (handled e msg s) nodes;
    in_flight = others ++ (handled e msg s).sent;
  }
]

-- One step: any message on its way is handed over, in any surroundings, or is lost.
pub data Step : Network → Network → Type 0 where
  hand :
      (e : Env) (to : ℕ) (msg : Update) (nodes : Dict TaskLedger) (before after : List Sent)
      → Step
          (record { nodes = nodes; in_flight = before ++ (to, ledger_update msg) ∷ after })
          (hand_over e to msg nodes (before ++ after))
  lose :
      (sent : Sent) (nodes : Dict TaskLedger) (before after : List Sent)
      → Step
          (record { nodes = nodes; in_flight = before ++ sent ∷ after })
          (record { nodes = nodes; in_flight = before ++ after })

-- `n` messages are handed over or lost, one after the other.
pub data Steps : ℕ → Network → Network → Type 0 where
  none_left : (a : Network) → Steps 0 a a
  next : (n : ℕ) (a b c : Network) → Step a b → Steps n b c → Steps (suc n) a c
