-- ===== src/Node/Shares.antt =====
-- The threshold shares of `WhisperNode` (whisper/node.py): `_get_threshold_params`,
-- `_collect_threshold_shares`, `_handle_share_request` and `_handle_share_response`.
use text.Mathlib.Text.{starts_with}
use whisper_network.Common.{
  ℕ, ◌+◌, ◌/◌, Option, none, some, List, [], ◌∷◌, ◌++◌, Bool, false, not, truthy, ltb, leb, ◌==◌,
  ◌||◌, ◌&&◌, if◌then◌else◌, String,
}
use whisper_network.Common.Lists.{length, contains}
use whisper_network.Common.Dict.{Dict, lookup, insert, erase, values}
use whisper_network.Wire.{Task}
use whisper_network.Membership.State.{PeerInfo}
use whisper_network.Runtime.Execute.{Share, threshold_marker}

-- `dict.fromkeys(keys)`: the first of each key, in order.
unfoldable pub from_keys : List ℕ → List ℕ → List ℕ
from_keys seen [] = []
from_keys seen (k ∷ ks) =
    let rest = from_keys (if contains k seen then seen else k ∷ seen) ks in
    if contains k seen then rest else k ∷ rest

-- `[p.enc_pubkey for p in peers if p.enc_pubkey]`
unfoldable pub known_pubkeys : List PeerInfo → List ℕ
known_pubkeys [] = []
known_pubkeys (p ∷ ps) =
    let rest = known_pubkeys ps in
    elim p.enc_pubkey [ none ↦ rest | some k ↦ if truthy k then k ∷ rest else rest ]

abbrev pub least_nodes : ℕ
least_nodes = 3

-- `_get_threshold_params`
unfoldable pub get_threshold_params : Bool → ℕ → Dict PeerInfo → Option (ℕ × List ℕ)
get_threshold_params enabled own_pubkey peers =
    let all_pubkeys = from_keys [] (own_pubkey ∷ known_pubkeys (values peers)) in
    let n = length all_pubkeys in
    if not enabled
    then none
    else (if ltb n least_nodes then none else some ((n + 1) / 2, all_pubkeys))

-- An entry of `_share_collections`
pub record ShareSlot : Type 0 where
  pub signalled : Bool
  pub needed : ℕ
  pub shares : List Share

-- How `_collect_threshold_shares` begins: with an answer at once, or with an open slot.
pub data Opening : Type 0 where
  answer : List Share → Opening
  slot : ShareSlot → Opening

-- `task.threshold_t or 1`
abbrev pub or_one : ℕ → ℕ
or_one t = if truthy t then t else 1

-- `own_share` is the result of `decrypt_own_share`.
unfoldable pub open_collection : Option Share → Task → Opening
open_collection own_share task =
    if starts_with task.payload threshold_marker
    then elim own_share [
      | none ↦ answer []
      | some share ↦
          if leb (or_one task.threshold_t) 1
          then answer (share ∷ [])
          else slot
              (record { signalled = false; needed = or_one task.threshold_t; shares = share ∷ [] })
    ]
    else answer []

-- `any(s[0] == x for s in shares)`
unfoldable pub has_x : ℕ → List Share → Bool
has_x x [] = false
has_x x ((y, bytes) ∷ rest) = y == x || has_x x rest

-- `_handle_share_response`, for a message that decodes
unfoldable pub add_share : Share → ShareSlot → ShareSlot
add_share (x, bytes) col =
    if has_x x col.shares
    then col
    else (let shares' = col.shares ++ (x, bytes) ∷ [] in
        record col {
          shares = shares';
          signalled = col.signalled || leb col.needed (length shares');
        })

unfoldable pub handle_share_response : ℕ → Share → Dict ShareSlot → Dict ShareSlot
handle_share_response task_id share slots =
    if truthy task_id
    then elim (lookup task_id slots) [
      | none ↦ slots
      | some col ↦ insert task_id (add_share share col) slots
    ]
    else slots

-- `next((t for t in tasks if t.task_id == task_id), None)`
unfoldable pub find_task : ℕ → List Task → Option Task
find_task id [] = none
find_task id (t ∷ ts) = if t.task_id == id then some t else find_task id ts

-- `_handle_share_request`: the share that is sent back, if any; `own_share` decrypts ours from a
-- payload.
unfoldable pub handle_share_request : (String → Option Share) → ℕ → ℕ → List Task → Option Share
handle_share_request own_share task_id requester tasks =
    if truthy task_id && truthy requester
    then elim (find_task task_id tasks) [
      | none ↦ none
      | some t ↦ if starts_with t.payload threshold_marker then own_share t.payload else none
    ]
    else none

-- The end of `_collect_threshold_shares`, after its wait: the slot is taken out, with what has come.
unfoldable pub close_collection : Share → ℕ → Dict ShareSlot → List Share × Dict ShareSlot
close_collection own_share task_id slots = (
  elim (lookup task_id slots) [ none ↦ own_share ∷ [] | some col ↦ col.shares ],
  erase task_id slots,
)
