-- ===== src/Runtime/Select.antt =====
-- Which tasks one scan of `AgentRuntime` claims (whisper/runtime.py, `_scan`).
use whisper_network.Common.{
  ℕ, ◌+◌, ◌-◌, ◌*◌, ◌%◌, Option, none, some, List, [], ◌∷◌, ◌++◌, Bool, true, false, not, ◌==◌,
  ◌||◌, ◌&&◌, if◌then◌else◌,
}
use whisper_network.Common.Lists.{contains, keep}
use whisper_network.Common.Dict.{values}
use whisper_network.Wire.{Task}
use whisper_network.Membership.State.{PeerInfo, MembershipLayer, is_alive}
use whisper_network.Membership.Queries.{has_quorum, get_peer_for_shard}

-- What a scan reads of the runtime; `membership` may be absent.
pub record Site : Type 0 where
  pub shard_id : ℕ
  pub num_shards : ℕ
  pub capabilities : List ℕ
  pub membership : Option MembershipLayer

-- `_replica_shard_for`: `(shard_id - 2) % num_shards + 1`, where Python's `%` is never negative.
unfoldable pub replica_shard_for : ℕ → ℕ → ℕ
replica_shard_for shard_id num_shards = (shard_id + 2 * num_shards - 2) % num_shards + 1

-- `xs.issubset(ys)`
unfoldable pub is_subset : List ℕ → List ℕ → Bool
is_subset [] ys = true
is_subset (x ∷ xs) ys = contains x ys && is_subset xs ys

unfoldable pub any_capable : List ℕ → List PeerInfo → Bool
any_capable required [] = false
any_capable required (p ∷ ps) =
    is_alive p.status && is_subset required p.capabilities || any_capable required ps

abbrev pub is_empty : List ℕ → Bool
is_empty [] = true
is_empty (x ∷ xs) = false

-- `_capable_peer_alive`
unfoldable pub capable_peer_alive : List ℕ → Option MembershipLayer → Bool
capable_peer_alive required none = false
capable_peer_alive required (some m) =
    if is_empty required then false else any_capable required (values m.peers)

-- `self.membership is None or self.membership.has_quorum()`
unfoldable pub quorum_of : Option MembershipLayer → Bool
quorum_of none = true
quorum_of (some m) = has_quorum m

abbrev pub is_none : Option ℕ → Bool
is_none none = true
is_none (some k) = false

-- `_home_dead`
unfoldable pub home_dead : Option MembershipLayer → ℕ → Bool
home_dead none shard_id = true
home_dead (some m) shard_id = is_none (get_peer_for_shard shard_id m)

-- `_no_capable_peer`
unfoldable pub no_capable_peer : Site → Bool
no_capable_peer site =
    if is_empty site.capabilities
    then true
    else not (capable_peer_alive site.capabilities site.membership)

-- The tests of the three lists.
unfoldable pub is_mine : Site → Task → Bool
is_mine site t = t.shard_id == site.shard_id

unfoldable pub is_replica_orphan : Site → Task → Bool
is_replica_orphan site t =
    t.shard_id == replica_shard_for site.shard_id site.num_shards
    && not (t.shard_id == site.shard_id)
    && quorum_of site.membership
    && home_dead site.membership t.shard_id

unfoldable pub is_general_orphan : Site → Task → Bool
is_general_orphan site t =
    not (t.shard_id == site.shard_id)
    && not (t.shard_id == replica_shard_for site.shard_id site.num_shards)
    && quorum_of site.membership
    && home_dead site.membership t.shard_id
    && no_capable_peer site

-- `mine + replica_orphaned + general_orphaned`
unfoldable pub selected : Site → List Task → List Task
selected site tasks =
    keep (is_mine site) tasks
    ++ (keep (is_replica_orphan site) tasks ++ keep (is_general_orphan site) tasks)
