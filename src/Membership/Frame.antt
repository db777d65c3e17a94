-- ===== src/Membership/Frame.antt =====
-- The outgoing messages of whisper/membership.py leave the peers and the reports alone.
use whisper_network.Common.{ℕ, ◌+◌, ◌≡◌, refl, ◌∙◌, List, [], ◌∷◌, arith}
use whisper_network.Wire.{Heartbeat, Suspicion, NodeJoin, Message}
use whisper_network.Membership.State.{
  MembershipLayer, Env, fanout, send_join_to, gossip_suspicion, join_all, suspect_all,
}
use whisper_network.Membership.Handlers.{relay_join, relay_heartbeat, relay_suspicion}

-- What a call that only sends has in common with its start.
pub record Same (m m' : MembershipLayer) : Type 0 where
  pub peers : m'.peers ≡ m.peers
  pub suspicions : m'.suspicions ≡ m.suspicions
  pub our_key : m'.our_key ≡ m.our_key
  pub seen_ids : m'.seen_ids ≡ m.seen_ids

pub Same-refl : (m : MembershipLayer) → Same m m
Same-refl m = record { peers = refl; suspicions = refl; our_key = refl; seen_ids = refl }

pub Same-trans : (a b c : MembershipLayer) → Same a b → Same b c → Same a c
Same-trans a b c p q = record {
  peers = q.peers ∙ p.peers;
  suspicions = q.suspicions ∙ p.suspicions;
  our_key = q.our_key ∙ p.our_key;
  seen_ids = q.seen_ids ∙ p.seen_ids;
}

module _ (e : Env) where
  fanout-Same : (i : ℕ) (msg : Message) (m : MembershipLayer) → Same m (fanout e i msg m)
  unfolding fanout
  fanout-Same i msg m = record { peers = refl; suspicions = refl; our_key = refl; seen_ids = refl }

  pub join_all-Same : (i h : ℕ) (ks : List ℕ) (m : MembershipLayer) → Same m (join_all e i h ks m)
  unfolding join_all send_join_to
  join_all-Same i h [] m = Same-refl m
  join_all-Same i h (k ∷ ks) m =
      Same-trans m (send_join_to e i k h m) (join_all e (i + 1) h ks (send_join_to e i k h m))
        (record { peers = refl; suspicions = refl; our_key = refl; seen_ids = refl })
        (join_all-Same (i + 1) h ks (send_join_to e i k h m))

  pub suspect_all-Same : (i : ℕ) (ks : List ℕ) (m : MembershipLayer) → Same m (suspect_all e i ks m)
  unfolding suspect_all gossip_suspicion fanout
  suspect_all-Same i [] m = Same-refl m
  suspect_all-Same i (k ∷ ks) m =
      Same-trans m (gossip_suspicion e i k m) (suspect_all e (i + 1) ks (gossip_suspicion e i k m))
        (record { peers = refl; suspicions = refl; our_key = refl; seen_ids = refl })
        (suspect_all-Same (i + 1) ks (gossip_suspicion e i k m))

  pub relay_join-Same : (msg : NodeJoin) (m : MembershipLayer) → Same m (relay_join e msg m)
  unfolding relay_join fanout
  relay_join-Same msg m = record {
    peers = ground arith;
    suspicions = ground arith;
    our_key = ground arith;
    seen_ids = ground arith;
  }

  pub relay_heartbeat-Same :
      (msg : Heartbeat) (m : MembershipLayer) → Same m (relay_heartbeat e msg m)
  unfolding relay_heartbeat fanout
  relay_heartbeat-Same msg m = record {
    peers = ground arith;
    suspicions = ground arith;
    our_key = ground arith;
    seen_ids = ground arith;
  }

  pub relay_suspicion-Same :
      (msg : Suspicion) (m : MembershipLayer) → Same m (relay_suspicion e msg m)
  unfolding relay_suspicion fanout
  relay_suspicion-Same msg m = record {
    peers = ground arith;
    suspicions = ground arith;
    our_key = ground arith;
    seen_ids = ground arith;
  }
