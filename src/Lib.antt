-- ===== src/Lib.antt =====
-- Whisper Network: a peer-to-peer network in which nodes run tasks of a replicated ledger under leases,
-- gossip about them, and take over the tasks of nodes that fail.
--
-- Parts, and the files that model them (each with its proofs in the files beside them):
--   whisper/ledger.py      Ledger: `TaskLedger`, the replicated tasks. State is its fields, the file and
--                          what it sends; Ops holds claim_task, renew_lease, complete_task and
--                          release_lease, Submit submit_task, Bulk recover_identity and
--                          release_all_leases, Queries the read methods, Update handle_ledger_update.
--   whisper/membership.py  Membership: `MembershipLayer`. State is the peers, the reports and what it
--                          sends; Handlers holds handle_message and what it calls, Loops
--                          _detect_failures, axl_sync and add_peer, Queries has_quorum and the rest.
--   whisper/runtime.py     Runtime: `AgentRuntime`. Select holds the shard affinity of _scan, Dispatch
--                          the scan and the executing set, Execute _execute_one and the thread bodies,
--                          Shards the shard files.
--   whisper/node.py        Node: Auction (_run_auction and the auction messages), Shares (threshold
--                          parameters, share requests and responses), Convergence (lease durations).
--                          Receive is the receive loop over all components, and shutdown.
--   whisper/crypto.py      Crypto: Signer is `_canonical` and `class Signer`, Galois and Shamir the secret
--                          sharing over GF(256), ThresholdCipher the class of that name. Xor, Linear, Field
--                          and ByteField make the bytes a field, Interpolation is over any such field.
--                          PayloadCipher is its class.
--   whisper/inference.py   Inference: run and the keyword search.
--   whisper/transport.py   Transport: `AXLTransport`.
--   whisper/ens.py         Ens: the registration, the lookup and the discovery of peers.
--   pyens                  Pyens: EnsHash (ens_hash.py and the record of registry_tx.py), Labels (the
--                          lists of names in cli.py and subgraph.py), State (state.py), Commands
--                          (cmd_create_sub and cmd_create_nested of cli.py), Transaction (the fees and
--                          the key).
--   the fan-out of _fanout_raw and _fanout is Gossip, the messages are Wire, and Common holds lists,
--   dictionaries and the cache of seen message ids.
--   several ledgers with the gossip between them are Network.
-- The runtime calls the ledger (claims, renewals, results) and asks the membership layer for homes,
-- capabilities and quorum; the auction claims through the ledger; ledger and membership send through the
-- transport, whose calls are recorded in the field `sent` in their order.
--
-- How the code is read:
--   * A method runs in one step, its gossip included: the code holds the object's lock while it changes
--     the state. A run is a sequence of such steps in any order, each with its own surroundings (`Env`):
--     the clock, uuid4, the results of random.shuffle, the injected callbacks, the file system, hashes
--     and Ed25519. Contracts of these that a theorem needs are its hypotheses.
--   * Identifiers, keys, hashes and signatures are numbers; 0 is the empty string, and a missing field
--     where the code tests only the truth value. Times and durations are whole numbers of one small unit,
--     prices of 0.001 AXL, so that comparisons are exact; quotients are multiplied out.
--   * A dict is a list of pairs in insertion order, a set a list without repetition, the deque of seen
--     ids a list that is cut at 1000, newest first. The ledger file is what json.load reads back;
--     to_dict, from_dict and JSON are taken as inverse to each other; a write that fails leaves any file,
--     or none, and a node is not stopped inside a write.
--   * The receiver of a message sees the fields that a sender of this code base writes; a message that
--     makes the handler raise is not modelled. `Task.status` has the three values that the code writes.
--   * The executing set, the started threads and the calls of on_peer_dead are recorded as lists.
--   * X25519, HKDF, AES-GCM and the random numbers are parameters; submission and execution take the
--     answers of `PayloadCipher` as parameters too. JSON and base64 are left out together with their
--     inverses (base64 is a parameter of PayloadCipher). The exponent of `_gf_inv` has 8 binary digits, so
--     that 8 rounds of fuel are enough.
--   * The decimal digits of a shard number are made on fuel n + 1, which n has no more digits than.
--   * The naming service, the model service, the AXL bridge and the Ethereum node are parameters, with
--     their exceptions as absent answers; so are keccak, ens_normalize and address checks. Text in
--     inference.py, ens.py and pyens is ASCII, as a list of code points; the methods of `str` are in Text.
--   * In Network any message on its way may be handed over next, or be lost; other calls of the nodes do
--     not come in between there.
--
-- Not modelled: key files, `drain_results` and `get_state`, the event logs and logger texts, the time
-- statistics of `get_metrics`, thread start-up and sleeps, the debug HTTP server, the HTTP requests
-- themselves, the system prompts' texts, `_check_available` of ens.py, the subgraph query, the argument
-- parser and the printing of pyens, and demo.
pub mod Common
pub mod Text
pub mod Wire
pub mod Crypto
pub mod Gossip
pub mod Ledger
pub mod Membership
pub mod Runtime
pub mod Node
pub mod Network
pub mod Inference
pub mod Transport
pub mod Ens
pub mod Pyens
pub mod Tests
