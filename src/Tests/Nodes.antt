-- ===== src/Tests/Nodes.antt =====
-- The scan, the auction, the shares and the lease convergence at concrete inputs.
use whisper_network.Common.{ℕ, ◌+◌, ◌≡◌, refl, none, some, List, [], ◌∷◌, false, arith, ◌↔◌, String}
use whisper_network.Common.Dict.{Dict, lookup}
use whisper_network.Common.Lists.{contains, count}
use whisper_network.Ledger.Ops.{claim_task, claim_found}
use whisper_network.Ledger.Queries.{claimable, get_claimable_tasks, get_tasks_needing_renewal}
use whisper_network.Membership.State.{dead, PeerInfo, MembershipLayer, new_peer}
use whisper_network.Membership.Events.{init}
use whisper_network.Membership.Queries.{get_consensus_lease_duration}
use whisper_network.Runtime.Select.{
  Site, selected, replica_shard_for, is_mine, is_replica_orphan, is_general_orphan, quorum_of,
  home_dead,
}
use whisper_network.Runtime.Routing.{IsIn, MayClaim, selected-MayClaim}
use whisper_network.Runtime.Dispatch.{
  Runner, scan, begin_awarded, dispatch_each, dispatch_one, start_claimed, renew_each,
}
use whisper_network.Runtime.Started.{scan-once}
use whisper_network.Runtime.Execute.{Tools, outcome, complete_with, run_exec_thread, is_threshold}
use whisper_network.Runtime.Rescue.{rescue-completes}
use whisper_network.Ledger.Valid.{IsValid}
use whisper_network.Node.Auction.{Offer, winner_of}
use whisper_network.Wire.{Task, completed, suspicion, task_award}
use whisper_network.Membership.Deaths.{init-Backed}
use whisper_network.Node.Receive.{
  WhisperNode, Inbound, of_component, task_submit, Around, receive_all,
}
use whisper_network.Node.Sound.{IsSound, receive_all-IsSound}
use whisper_network.Node.Winner.{IsEarliestLeast, winner_of-IsEarliestLeast}
use whisper_network.Node.Convergence.{converge}
use whisper_network.Node.Agreement.{IsNear, converge_settles}
use whisper_network.Tests.Data.{env_at, idle_task, busy_task, ledger_of}

abbrev site : Site
site = record { shard_id = 1; num_shards = 3; capabilities = []; membership = none }

-- Node 2 of three; it holds its peer for shard 1 for dead, and node 3 for alive.
abbrev backup : Site
backup = record {
  shard_id = 2;
  num_shards = 3;
  capabilities = [];
  membership = some (record (init 2 2 3 100 0 60 [] 10) {
    peers =
        (1, record (new_peer 50 1) { status = dead; shard_id = some 1 })
        ∷ (3, record (new_peer 50 3) { shard_id = some 3 })
        ∷ [];
  });
}

abbrev orphans : List Task
orphans = idle_task 7 1 ∷ record (idle_task 5 1) { shard_id = 3 } ∷ []

selected-MayClaim_example :
    IsIn (idle_task 7 1) (selected backup orphans)
    ↔ (IsIn (idle_task 7 1) orphans × MayClaim backup (idle_task 7 1))
selected-MayClaim_example =
    selected-MayClaim backup orphans (idle_task 7 1) (omega arith) (omega arith)

abbrev idle_runner : Runner
idle_runner = record {
  ledger = ledger_of ((7, idle_task 7 1) ∷ []);
  executing = 8 ∷ [];
  started = [];
}

scan-once_example :
    let r' = scan 100 (λ i. env_at 100) 101 (λ i. env_at 101) site idle_runner in
    (count 7 r'.started ≡ 1) × (contains 7 (8 ∷ []) ≡ false) × (begin_awarded 7 r' ≡ (r', false))
unfolding scan selected renew_each get_tasks_needing_renewal get_claimable_tasks dispatch_each
    dispatch_one start_claimed claim_task claim_found is_mine is_replica_orphan replica_shard_for
    is_general_orphan
scan-once_example =
    scan-once 100 101 (λ i. env_at 100) (λ i. env_at 101) site idle_runner 7 refl refl

-- A task of shard 3, for which node 1 is the replica, with a lease that node 2 let run out.
abbrev orphan : Task
orphan = record (busy_task 5 2 50) { shard_id = 3 }

abbrev survivor : Runner
survivor = record {
  ledger = ledger_of ((7, idle_task 7 1) ∷ (5, orphan) ∷ []);
  executing = [];
  started = [];
}

survivor-IsValid : IsValid survivor.ledger.tasks
survivor-IsValid = (
  refl,
  refl,
  record {
    free = λ h. refl;
    held = λ h. ground arith;
    answered = λ h. ground arith;
    stamped = λ h. ground arith;
  },
  (
    refl,
    refl,
    record {
      free = λ h. ground arith;
      held = λ h. refl;
      answered = λ h. ground arith;
      stamped = λ h. ground arith;
    },
    tt,
  ),
)

abbrev tools : Tools
tools = record {
  collect_shares = none;
  reconstruct_and_decrypt = λ payload shares. none;
  error_text = λ payload shares. "";
  cipher_enabled = false;
  decrypt = λ payload. none;
  execute = λ payload shard_id. payload;
}

rescue-completes_example :
    let r' =
      run_exec_thread
        (env_at 103)
        tools
        5
        (scan 100 (λ i. env_at 100) 101 (λ i. env_at 102) site survivor) in
    (result : String) × (outcome tools orphan ≡ complete_with result)
    × ((u : Task) × (lookup 5 r'.ledger.tasks ≡ some u)
        × (u.status ≡ completed)
        × (u.result ≡ some result))
unfolding claimable is_mine is_replica_orphan is_general_orphan replica_shard_for quorum_of
    home_dead is_threshold
rescue-completes_example =
    rescue-completes 100 101 (λ i. env_at 100) (λ i. env_at 102) site survivor orphan (env_at 103)
      tools survivor-IsValid refl refl refl refl (λ i. omega arith) refl

abbrev offer : ℕ → ℕ → ℕ → Offer
offer bidder price shard = record {
  bidder = bidder;
  price_axl = price;
  capabilities = [];
  shard_id = shard;
}

winner_of-IsEarliestLeast_example :
    IsEarliestLeast 1
      (winner_of 1 (offer 2 8 2 ∷ offer 3 10 1 ∷ []) (offer 1 10 1))
      (offer 2 8 2 ∷ offer 3 10 1 ∷ offer 1 10 1 ∷ [])
winner_of-IsEarliestLeast_example =
    winner_of-IsEarliestLeast 1 (offer 2 8 2 ∷ offer 3 10 1 ∷ []) (offer 1 10 1)

abbrev keyed : ℕ → PeerInfo
keyed key = record (new_peer 50 key) { enc_pubkey = some (key + 40) }

abbrev others : Dict PeerInfo
others = (2, keyed 2) ∷ (3, keyed 3) ∷ (4, keyed 3) ∷ []

abbrev pubkeys : List ℕ
pubkeys = 41 ∷ 42 ∷ 43 ∷ []

abbrev lone : MembershipLayer
lone = init 1 1 3 100 0 60 [] 10

converge_settles_example :
    let after = converge 1 (ledger_of [], lone) in
    IsNear 1 (get_consensus_lease_duration after.1) (after.0).lease_duration
    × (converge 1 after ≡ after)
converge_settles_example = converge_settles 1 (ledger_of []) lone

-- A node that knows nothing.
abbrev fresh_node : WhisperNode
fresh_node = record {
  membership = init 1 1 3 100 0 60 [] 10;
  ledger = ledger_of [];
  shard_id = 1;
  bid_collections = [];
  share_collections = [];
  task_results = [];
  sent = [];
  awarded = [];
  share_replies = [];
  auctions = [];
  wakes = 0;
}

abbrev around : Around
around = record {
  members = record { now = 100; fresh_id = λ i. 5000 + i; shuffled = λ i xs. xs; tasks_held = [] };
  tasks = env_at 100;
  ciphers = record {
    threshold_enabled = false;
    threshold_params = none;
    threshold_encrypt = λ keys text t. none;
    cipher_enabled = false;
    enc_pubkey = λ shard. none;
    cipher_encrypt = λ key text. none;
  };
  own_share = λ payload. none;
}

-- A submission, an award of the task to this node, and a report about a node that is not known.
abbrev inbox : List (Around × ℕ × Inbound)
inbox =
    (around, 2, task_submit 7 "data" 1 2)
    ∷ (
      around,
      2,
      of_component (
          task_award (record {
            msg_id = 71;
            sender = 2;
            task_id = 7;
            winner = 1;
            price_axl = 10;
            shard_id = 1;
          })),
    )
    ∷ (
      around,
      3,
      of_component (
          suspicion
            (record { msg_id = 72; sender = some 3; suspect = 4; timestamp = 99; hops = 1 })),
    )
    ∷ []

receive_all-IsSound_example : IsSound (receive_all inbox fresh_node)
receive_all-IsSound_example =
    receive_all-IsSound inbox fresh_node (omega arith, tt, (omega arith, tt, (omega arith, tt, tt)))
      (record { tasks = tt; peers = init-Backed 1 1 3 100 0 60 [] 10 })
