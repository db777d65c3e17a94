-- ===== src/Transport/Keys.antt =====
-- The two lists of connected keys in whisper/transport.py.
use whisper_network.Common.{ℕ, ◌≡◌, ◌≤◌, refl, List, [], ◌∷◌, arith}
use whisper_network.Common.Lists.{contains, length}
use whisper_network.Transport.{TopologyPeer, known_peer_keys, axl_connected_keys, axl_mesh_stats}

-- The list and the set hold the same keys.
contains-axl_connected_keys :
    (k : ℕ) (ps : List TopologyPeer)
    → contains k (axl_connected_keys ps) ≡ contains k (known_peer_keys ps)
unfolding axl_connected_keys known_peer_keys
contains-axl_connected_keys k [] = refl
contains-axl_connected_keys k (p ∷ ps) = ground (arith, contains-axl_connected_keys k ps)

-- The set has no more keys than the mesh has peers that are up.
length-axl_connected_keys :
    (ps : List TopologyPeer) → length (axl_connected_keys ps) ≤ (axl_mesh_stats ps).up_peers
unfolding axl_connected_keys axl_mesh_stats
length-axl_connected_keys [] = omega arith
length-axl_connected_keys (p ∷ ps) = ground (arith, length-axl_connected_keys ps)
