-- ===== src/Membership/Events.antt =====
-- All that changes a `MembershipLayer` (whisper/membership.py), as one step function.
use whisper_network.Common.{ℕ, List, [], ◌∷◌}
use whisper_network.Wire.{Message}
use whisper_network.Membership.State.{MembershipLayer, Env, broadcast_heartbeat, broadcast_join}
use whisper_network.Membership.Handlers.{handle_message}
use whisper_network.Membership.Loops.{add_peer, detect_failures, axl_sync}

pub data Event : Type 0 where
  seed : ℕ → Event
  message : ℕ → Message → Event
  tick : Event
  sync : List ℕ → Event
  beat : Event
  announce : Event

unfoldable pub step : Env → Event → MembershipLayer → MembershipLayer
step e (seed key) m = add_peer e key m
step e (message from_peer msg) m = handle_message e from_peer msg m
step e tick m = detect_failures e m
step e (sync connected) m = axl_sync e connected m
step e beat m = broadcast_heartbeat e m
step e announce m = broadcast_join e m

unfoldable pub run : List (Env × Event) → MembershipLayer → MembershipLayer
run [] m = m
run ((e, event) ∷ rest) m = run rest (step e event m)

-- `__init__` with the fields that the node sets, before anything has happened.
unfoldable pub init : ℕ → ℕ → ℕ → ℕ → ℕ → ℕ → List ℕ → ℕ → MembershipLayer
init our_key shard cluster_size suspect_after enc_pubkey lease_duration capabilities price =
    record {
      our_key = our_key;
      our_shard_id = shard;
      cluster_size = cluster_size;
      suspect_after = suspect_after;
      peers = [];
      suspicions = [];
      seen_ids = [];
      axl_connected = [];
      prev_axl_connected = [];
      our_enc_pubkey = enc_pubkey;
      our_lease_duration = lease_duration;
      our_capabilities = capabilities;
      our_price_axl = price;
      sent = [];
      dead_calls = [];
    }
