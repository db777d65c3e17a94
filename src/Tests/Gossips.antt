-- ===== src/Tests/Gossips.antt =====
-- A flood of gossip at a concrete input.
use whisper_network.Common.{◌≤◌, ◌≡◌, refl, some, List, [], ◌∷◌}
use whisper_network.Common.Dict.{Dict}
use whisper_network.Wire.{Update, ledger_update, Sent}
use whisper_network.Crypto.Signer.{sign}
use whisper_network.Gossip.{fanout_targets}
use whisper_network.Ledger.State.{TaskLedger, fanout_raw, gossip_task}
use whisper_network.Network.{hand_over, hand, next, none_left}
use whisper_network.Network.Flood.{flood-ends}
use whisper_network.Tests.Data.{env_at, idle_task, mixed, ledger_of}

-- The third node knows nothing; the others are not there.
abbrev nodes : Dict TaskLedger
nodes = (3, ledger_of []) ∷ []

abbrev to_three : Update
to_three = sign (env_at 100).ed25519 (some 5) (record {
  msg_id = 1100;
  sender = 1;
  hops = 8;
  task = some (idle_task 7 1);
  signature = 0;
  signing_key = 0;
})

abbrev others : List Sent
others = (2, ledger_update to_three) ∷ (4, ledger_update to_three) ∷ []

gossip_sent :
    (gossip_task (env_at 100) 0 (idle_task 7 1) mixed).sent ≡ (3, ledger_update to_three) ∷ others
unfolding gossip_task fanout_raw fanout_targets sign
gossip_sent = refl

flood-ends_example : 1 ≤ 9840
unfolding gossip_task fanout_raw fanout_targets sign
flood-ends_example =
    flood-ends (env_at 100) 0 (idle_task 7 1) mixed nodes 1
      (hand_over (env_at 101) 3 to_three nodes others) refl
      (next 0 (record { nodes = nodes; in_flight = (3, ledger_update to_three) ∷ others })
        (hand_over (env_at 101) 3 to_three nodes others)
        (hand_over (env_at 101) 3 to_three nodes others)
        (hand (env_at 101) 3 to_three nodes [] others)
        (none_left (hand_over (env_at 101) 3 to_three nodes others)))
