-- ===== src/Membership/Loops.antt =====
-- The timed work of `MembershipLayer` (whisper/membership.py): silence detection, the topology
-- sync, and the entry of a seed peer.
use whisper_network.Common.{
  ℕ, ◌+◌, ◌*◌, Option, none, some, List, [], ◌∷◌, Bool, false, not, ltb, ◌==◌, ◌||◌, ◌&&◌,
  if◌then◌else◌,
}
use whisper_network.Common.Lists.{contains, keep, length}
use whisper_network.Common.Dict.{Dict, lookup, insert, has_key}
use whisper_network.Membership.State.{
  suspected, is_alive, PeerInfo, new_peer, MembershipLayer, Env, join_all, suspect_all,
}

-- `add_peer`
unfoldable pub add_peer : Env → ℕ → MembershipLayer → MembershipLayer
add_peer e key m =
    if key == m.our_key || has_key key m.peers
    then m
    else record m { peers = insert key (new_peer e.now key) m.peers }

-- `now - peer.last_seen > suspect_after and peer.status == ALIVE`
unfoldable pub is_silent : ℕ → ℕ → PeerInfo → Bool
is_silent now limit peer = ltb (peer.last_seen + limit) now && is_alive peer.status

-- The loop of `_detect_failures` over the peers, with the keys that it suspects.
unfoldable pub detect : ℕ → ℕ → Dict PeerInfo → Dict PeerInfo × List ℕ
detect now limit [] = ([], [])
detect now limit ((k, peer) ∷ rest) =
    let (rest', out) = detect now limit rest in
    if is_silent now limit peer
    then ((k, record peer { status = suspected }) ∷ rest', k ∷ out)
    else ((k, peer) ∷ rest', out)

-- One round of `_detect_failures`
unfoldable pub detect_failures : Env → MembershipLayer → MembershipLayer
detect_failures e m =
    let (peers', suspects) = detect e.now m.suspect_after m.peers in
    suspect_all e 0 suspects (record m { peers = peers' })

-- `axl_sync`, first loop: the peers that are new in the mesh are entered.
unfoldable pub discover : ℕ → ℕ → List ℕ → Dict PeerInfo → Dict PeerInfo × List ℕ
discover now our_key [] peers = (peers, [])
discover now our_key (key ∷ rest) peers =
    let isnew = not (key == our_key) && not (has_key key peers) in
    let (peers', out) =
      discover now our_key rest (if isnew then insert key (new_peer now key) peers else peers) in
    (peers', if isnew then key ∷ out else out)

-- `now - peer.last_seen > suspect_after / 2` for an alive peer
unfoldable pub is_half_silent : ℕ → ℕ → Option PeerInfo → Bool
is_half_silent now limit none = false
is_half_silent now limit (some peer) =
    is_alive peer.status && ltb (2 * peer.last_seen + limit) (2 * now)

unfoldable pub suspect_peer : ℕ → Option PeerInfo → Dict PeerInfo → Dict PeerInfo
suspect_peer key none peers = peers
suspect_peer key (some peer) peers = insert key (record peer { status = suspected }) peers

-- `axl_sync`, second loop: the peers that have left the mesh and are silent are suspected.
unfoldable pub drop_silent : ℕ → ℕ → List ℕ → Dict PeerInfo → Dict PeerInfo × List ℕ
drop_silent now limit [] peers = (peers, [])
drop_silent now limit (key ∷ rest) peers =
    let entry = lookup key peers in
    let gone = is_half_silent now limit entry in
    let (peers', out) =
      drop_silent now limit rest (if gone then suspect_peer key entry peers else peers) in
    (peers', if gone then key ∷ out else out)

-- `axl_sync`; the sets come as lists, in the order in which Python walks them.
unfoldable pub axl_sync : Env → List ℕ → MembershipLayer → MembershipLayer
axl_sync e connected m =
    let (peers', discovered) = discover e.now m.our_key connected m.peers in
    let dropped = keep (λ k. not (contains k connected)) m.prev_axl_connected in
    let (peers'', suspects) = drop_silent e.now m.suspect_after dropped peers' in
    suspect_all e (length discovered) suspects (
      join_all e 0 1 discovered
        (record m { peers = peers''; axl_connected = connected; prev_axl_connected = connected }))
