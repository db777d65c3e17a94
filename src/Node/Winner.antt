-- ===== src/Node/Winner.antt =====
-- The winner of an auction (whisper/node.py, `_run_auction`): the sort of the bids is stable.
use whisper_network.Common.{
  ℕ, ◌+◌, ◌≤◌, ◌<◌, ◌≡◌, ◌≢◌, ◌⊎◌, refl, subst, List, [], ◌∷◌, ◌++◌, ltb, inl, inr, Bool-cases,
  arith,
}
use whisper_network.Common.Lists.{All, All-append, All-map}
use mathlib.Core.List.{append_assoc}
use whisper_network.Node.Auction.{Offer, bid_key, best_bid, winner_of}

-- `w` is the earliest of the offers of least key.
abbrev IsFirstLeast : ℕ → Offer → List Offer → Type 0
IsFirstLeast shard_id w offers =
    (before : List Offer) × (after : List Offer) × (offers ≡ before ++ w ∷ after)
    × All (λ b. bid_key shard_id w < bid_key shard_id b) before
    × All (λ b. bid_key shard_id w ≤ bid_key shard_id b) after

best_bid_from :
    (shard_id : ℕ) (before : List Offer) (best : Offer) (after rest : List Offer)
    → All (λ b. bid_key shard_id best < bid_key shard_id b) before
    → All (λ b. bid_key shard_id best ≤ bid_key shard_id b) after
    → IsFirstLeast shard_id (best_bid shard_id best rest) (before ++ best ∷ (after ++ rest))
unfolding best_bid
best_bid_from shard_id before best after [] more least = (
  before,
  after ++ [],
  refl,
  more,
  All-append (λ b. bid_key shard_id best ≤ bid_key shard_id b) after [] least tt,
)
best_bid_from shard_id before best after (b ∷ rest) more least =
    elim (Bool-cases (ltb (bid_key shard_id b) (bid_key shard_id best))) [
      | inl cheaper ↦
          let less : bid_key shard_id b < bid_key shard_id best = ground arith in
          let regroup : (before ++ best ∷ after) ++ b ∷ rest
              ≡ before ++ best ∷ (after ++ b ∷ rest) =
            append_assoc before (best ∷ after) (b ∷ rest) in
          rw cheaper (
            subst (λ offers. IsFirstLeast shard_id (best_bid shard_id b rest) offers) regroup
              (best_bid_from shard_id (before ++ best ∷ after) b [] rest
                (All-append (λ x. bid_key shard_id b < bid_key shard_id x) before (best ∷ after)
                  (All-map (λ x. bid_key shard_id best < bid_key shard_id x)
                    (λ x. bid_key shard_id b < bid_key shard_id x) before (λ x h. omega arith) more)
                  (
                    less,
                    All-map (λ x. bid_key shard_id best ≤ bid_key shard_id x)
                        (λ x. bid_key shard_id b < bid_key shard_id x) after (λ x h. omega arith)
                        least,
                  ))
                tt))
      | inr dearer ↦
          let kept : bid_key shard_id best ≤ bid_key shard_id b = ground arith in
          let regroup : (after ++ b ∷ []) ++ rest ≡ after ++ b ∷ rest =
            append_assoc after (b ∷ []) rest in
          rw dearer (
            subst
              (λ tail. IsFirstLeast shard_id (best_bid shard_id best rest) (before ++ best ∷ tail))
              regroup
              (best_bid_from shard_id before best (after ++ b ∷ []) rest more (
                All-append (λ x. bid_key shard_id best ≤ bid_key shard_id x) after (b ∷ []) least
                  (kept, tt))))
    ]

winner_of-IsFirstLeast :
    (shard_id : ℕ) (bids : List Offer) (own : Offer)
    → IsFirstLeast shard_id (winner_of shard_id bids own) (bids ++ own ∷ [])
unfolding winner_of
winner_of-IsFirstLeast shard_id [] own = ([], [], refl, tt, tt)
winner_of-IsFirstLeast shard_id (b ∷ bids) own =
    best_bid_from shard_id [] b [] (bids ++ own ∷ []) tt tt

-- The offers `w` and `b` by price, where a bidder that is not the home of the shard is charged 0.005 AXL
-- more than one that is: `w` is ahead of `b`, or at least not behind it.
abbrev pub Beats : ℕ → Offer → Offer → Type 0
Beats shard_id w b =
    ((w.shard_id ≡ shard_id) × (b.shard_id ≡ shard_id) × (w.price_axl < b.price_axl))
    ⊎ ((w.shard_id ≡ shard_id) × (b.shard_id ≢ shard_id) × (w.price_axl < b.price_axl + 5))
    ⊎ ((w.shard_id ≢ shard_id) × (b.shard_id ≡ shard_id) × (w.price_axl + 5 < b.price_axl))
    ⊎ ((w.shard_id ≢ shard_id) × (b.shard_id ≢ shard_id) × (w.price_axl < b.price_axl))

-- `w` is the first of the offers that no other beats: it beats each before it, and none after it beats it.
abbrev pub IsEarliestLeast : ℕ → Offer → List Offer → Type 0
IsEarliestLeast shard_id w offers =
    (before : List Offer) × (after : List Offer) × (offers ≡ before ++ w ∷ after)
    × All (λ b. Beats shard_id w b) before
    × All (λ b. ¬ Beats shard_id b w) after

bid_key-Beats :
    (shard_id : ℕ) (w b : Offer) → bid_key shard_id w < bid_key shard_id b → Beats shard_id w b
unfolding bid_key
bid_key-Beats shard_id w b less = grind arith

not-Beats :
    (shard_id : ℕ) (w b : Offer) → bid_key shard_id w ≤ bid_key shard_id b → ¬ Beats shard_id b w
unfolding bid_key
not-Beats shard_id w b least = λ h. grind arith

-- The winner of an auction, of the bids in the order of their arrival with our own last: it beats every
-- bid before it and is beaten by none after it. Of two bids by homes of the shard, or two by others, the
-- lower price beats; a home beats another node that is cheaper by less than 0.005 AXL, and is beaten by
-- one that is cheaper by more.
pub winner_of-IsEarliestLeast :
    (shard_id : ℕ) (bids : List Offer) (own : Offer)
    → IsEarliestLeast shard_id (winner_of shard_id bids own) (bids ++ own ∷ [])
winner_of-IsEarliestLeast shard_id bids own =
    let w = winner_of shard_id bids own in
    let (before, after, whole, more, least) = winner_of-IsFirstLeast shard_id bids own in
    (
      before,
      after,
      whole,
      All-map (λ b. bid_key shard_id w < bid_key shard_id b) (Beats shard_id w) before
          (bid_key-Beats shard_id w) more,
      All-map (λ b. bid_key shard_id w ≤ bid_key shard_id b) (λ b. ¬ Beats shard_id b w) after
          (not-Beats shard_id w) least,
    )
