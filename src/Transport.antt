-- ===== src/Transport.antt =====
-- The AXL bridge as whisper/transport.py sees it: `class AXLTransport`. The HTTP requests and the JSON
-- codings are parameters.
pub mod Keys
use whisper_network.Common.{
  ℕ, Bool, false, ◌&&◌, Option, none, some, List, [], ◌∷◌, ◌==◌, if◌then◌else◌, truthy,
}
use whisper_network.Common.Lists.{length, count_if, contains}

-- An entry of "peers"; a missing key is false or 0.
pub record TopologyPeer : Type 0 where
  pub up : Bool
  pub public_key : ℕ

-- `send`, from the status code of the request, `none` for an exception.
unfoldable pub send : Option ℕ → Bool
send none = false
send (some status_code) = status_code == 200

-- The answer to the /recv request: its status code, the sender's key from the header, and the message,
-- `none` for one that cannot be parsed.
pub record Response (M : Type 0) : Type 0 where
  pub status_code : ℕ
  pub from_peer : Option ℕ
  pub content : Option M

-- `recv`: the two results, `none` for an exception of the request.
unfoldable pub recv : {M : Type 0} → Option (Response M) → Option ℕ × Option M
recv none = (none, none)
recv (some resp) =
    if resp.status_code == 204
    then (none, none)
    else elim resp.content [ none ↦ (none, none) | some msg ↦ (resp.from_peer, some msg) ]

-- `known_peer_keys`
unfoldable pub known_peer_keys : List TopologyPeer → List ℕ
known_peer_keys [] = []
known_peer_keys (p ∷ ps) =
    let rest = known_peer_keys ps in
    if p.up && truthy p.public_key then p.public_key ∷ rest else rest

-- `axl_connected_keys`, a set.
unfoldable pub axl_connected_keys : List TopologyPeer → List ℕ
axl_connected_keys [] = []
axl_connected_keys (p ∷ ps) =
    let rest = axl_connected_keys ps in
    if p.up && truthy p.public_key
    then (if contains p.public_key rest then rest else p.public_key ∷ rest)
    else rest

pub record MeshStats : Type 0 where
  pub total_peers : ℕ
  pub up_peers : ℕ

-- `axl_mesh_stats`
unfoldable pub axl_mesh_stats : List TopologyPeer → MeshStats
axl_mesh_stats peers = record { total_peers = length peers; up_peers = count_if (λ p. p.up) peers }
