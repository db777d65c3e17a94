-- ===== src/Node/Auction.antt =====
-- The price auction of `WhisperNode` (whisper/node.py): `_run_auction`, `_handle_task_bid_request`,
-- `_handle_task_bid` and `_handle_task_award`.
use whisper_network.Common.{
  ℕ, ◌+◌, Option, none, some, List, [], ◌∷◌, ◌++◌, Bool, true, false, not, truthy, ltb, leb, ◌==◌,
  ◌||◌, if◌then◌else◌,
}
use whisper_network.Common.Lists.{length}
use whisper_network.Common.Dict.{Dict, lookup, insert, erase}
use whisper_network.Wire.{
  BidRequest, Bid, Award, task_bid_request, task_bid, task_award, Sent, send_all,
}
use whisper_network.Ledger.State.{Env, TaskLedger}
use whisper_network.Ledger.Ops.{claim_task}

-- An entry of `col["bids"]`; prices are whole numbers of 0.001 AXL. The "from" of a bid may be missing.
pub record Offer : Type 0 where
  pub bidder : ℕ
  pub price_axl : ℕ
  pub capabilities : List ℕ
  pub shard_id : ℕ

-- An entry of `_bid_collections`: the event, and the bids.
pub record Collection : Type 0 where
  pub signalled : Bool
  pub bids : List Offer

-- What the auction reads and changes of a node. `started` lists the tasks for which a thread of
-- `execute_awarded_task` was started, newest first.
pub record Auctioneer : Type 0 where
  pub our_key : ℕ
  pub our_shard : ℕ
  pub our_price : ℕ
  pub our_capabilities : List ℕ
  pub collections : Dict Collection
  pub ledger : TaskLedger
  pub sent : List Sent
  pub started : List ℕ

abbrev pub enough_bids : ℕ
enough_bids = 3

-- `_run_auction` up to the wait: the collection is opened, and the request sent to the peers.
unfoldable pub open_auction : Env → ℕ → ℕ → Auctioneer → Auctioneer
open_auction e task_id shard_id a =
    let request : BidRequest = record {
      msg_id = e.fresh_id 0;
      sender = a.our_key;
      task_id = task_id;
      shard_id = shard_id;
    } in
    record a {
      collections = insert task_id (record { signalled = false; bids = [] }) a.collections;
      sent = a.sent ++ send_all e.peers (task_bid_request request);
    }

-- `_handle_task_bid`
unfoldable pub handle_task_bid : Bid → Auctioneer → Auctioneer
handle_task_bid msg a =
    if truthy msg.task_id
    then elim (lookup msg.task_id a.collections) [
      | none ↦ a
      | some col ↦
          let offer : Offer = record {
            bidder = msg.sender;
            price_axl = msg.price_axl;
            capabilities = msg.capabilities;
            shard_id = msg.shard_id;
          } in
          let bids' = col.bids ++ offer ∷ [] in
          record a {
            collections =
                insert msg.task_id
                  (record {
                    signalled = col.signalled || leb enough_bids (length bids');
                    bids = bids';
                  })
                  a.collections;
          }
    ]
    else a

-- `_handle_task_bid_request`
unfoldable pub handle_task_bid_request : Env → BidRequest → Auctioneer → Auctioneer
handle_task_bid_request e msg a =
    if not (truthy msg.task_id) || not (truthy msg.sender) || msg.sender == a.our_key
    then a
    else (let bid : Bid = record {
      msg_id = e.fresh_id 0;
      sender = a.our_key;
      task_id = msg.task_id;
      shard_id = a.our_shard;
      price_axl = a.our_price;
      capabilities = a.our_capabilities;
    } in
        record a { sent = a.sent ++ (msg.sender, task_bid bid) ∷ [] })

-- `_handle_task_award`; `e` is read by the claim.
unfoldable pub start_awarded : ℕ → Auctioneer → TaskLedger × Bool → Auctioneer
start_awarded task_id a (s, true) = record a { ledger = s; started = task_id ∷ a.started }
start_awarded task_id a (s, false) = record a { ledger = s }

unfoldable pub handle_task_award : Env → Award → Auctioneer → Auctioneer
handle_task_award e msg a =
    if not (truthy msg.task_id) || not (msg.winner == a.our_key)
    then a
    else start_awarded msg.task_id a (claim_task e msg.task_id a.ledger)

-- `_bid_key`: a bidder that is not the home of the shard pays a surcharge of 0.005 AXL.
unfoldable pub bid_key : ℕ → Offer → ℕ
bid_key shard_id b = b.price_axl + (if b.shard_id == shard_id then 0 else 5)

-- `bids.sort(key=_bid_key)` is stable: its first element is the earliest of the least bids.
unfoldable pub best_bid : ℕ → Offer → List Offer → Offer
best_bid shard_id best [] = best
best_bid shard_id best (b ∷ rest) =
    best_bid shard_id (if ltb (bid_key shard_id b) (bid_key shard_id best) then b else best) rest

-- `sorted(bids)[0]` of a list that is not empty; our own bid stands last.
unfoldable pub winner_of : ℕ → List Offer → Offer → Offer
winner_of shard_id [] own = own
winner_of shard_id (b ∷ bids) own = best_bid shard_id b (bids ++ own ∷ [])

unfoldable pub own_offer : Auctioneer → Offer
own_offer a = record {
  bidder = a.our_key;
  price_axl = a.our_price;
  capabilities = a.our_capabilities;
  shard_id = a.our_shard;
}

-- `col.get("bids", [])`
abbrev pub bids_of : Option Collection → List Offer
bids_of none = []
bids_of (some col) = col.bids

-- `_run_auction` after the wait: the collection is taken out, and the winner gets the task.
unfoldable pub award : Env → ℕ → ℕ → Offer → Auctioneer → Auctioneer
award e task_id shard_id winner a =
    let msg : Award = record {
      msg_id = e.fresh_id 1;
      sender = a.our_key;
      task_id = task_id;
      winner = winner.bidder;
      price_axl = winner.price_axl;
      shard_id = shard_id;
    } in
    if winner.bidder == a.our_key
    then handle_task_award e msg a
    else record a { sent = a.sent ++ (winner.bidder, task_award msg) ∷ [] }

unfoldable pub close_auction : Env → ℕ → ℕ → Auctioneer → Auctioneer
close_auction e task_id shard_id a =
    let winner = winner_of shard_id (bids_of (lookup task_id a.collections)) (own_offer a) in
    award e task_id shard_id winner (record a { collections = erase task_id a.collections })
