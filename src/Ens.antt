-- ===== src/Ens.antt =====
-- The self-registration of nodes under an ENS name (whisper/ens.py). The naming service is a parameter,
-- the HTTP calls with their exceptions included; the callback is called once, with the result.
pub mod Lookup
use whisper_network.Common.{
  ℕ, zero, suc, ◌+◌, ◌/◌, ◌%◌, Bool, true, false, ◌||◌, ◌&&◌, Option, none, some, List, [], ◌∷◌,
  ◌++◌, if◌then◌else◌, ltb,
}
use whisper_network.Common.Lists.{take}
use whisper_network.Text.{Text, strip, text_eq, is_blank, join}

-- The entries of a SubnameResponse that are read; a missing key is `none`.
pub record TextRecord : Type 0 where
  pub key : Option Text
  pub value : Option Text

pub record Subname : Type 0 where
  pub ens : Option Text
  pub texts : List TextRecord

-- `register` is the result of `_register`; `listed` what the list request returns, `none` for an
-- exception.
pub record Service : Type 0 where
  pub register : Text → List TextRecord → Bool
  pub listed : Option (List Subname)

-- "axl.peer_id", "capabilities", "price_axl", "shard_id", "notdocker.eth" and "node"
abbrev pub peer_id_key : Text
peer_id_key = 97 ∷ 120 ∷ 108 ∷ 46 ∷ 112 ∷ 101 ∷ 101 ∷ 114 ∷ 95 ∷ 105 ∷ 100 ∷ []

abbrev pub capabilities_key : Text
capabilities_key = 99 ∷ 97 ∷ 112 ∷ 97 ∷ 98 ∷ 105 ∷ 108 ∷ 105 ∷ 116 ∷ 105 ∷ 101 ∷ 115 ∷ []

abbrev pub price_axl_key : Text
price_axl_key = 112 ∷ 114 ∷ 105 ∷ 99 ∷ 101 ∷ 95 ∷ 97 ∷ 120 ∷ 108 ∷ []

abbrev pub shard_id_key : Text
shard_id_key = 115 ∷ 104 ∷ 97 ∷ 114 ∷ 100 ∷ 95 ∷ 105 ∷ 100 ∷ []

abbrev pub ens_domain : Text
ens_domain = 110 ∷ 111 ∷ 116 ∷ 100 ∷ 111 ∷ 99 ∷ 107 ∷ 101 ∷ 114 ∷ 46 ∷ 101 ∷ 116 ∷ 104 ∷ []

abbrev pub node_text : Text
node_text = 110 ∷ 111 ∷ 100 ∷ 101 ∷ []

abbrev pub or_blank : Option Text → Text
or_blank none = []
or_blank (some s) = s

-- `record.get("key") == "axl.peer_id"`
abbrev pub is_peer_id : TextRecord → Bool
is_peer_id r = elim r.key [ none ↦ false | some k ↦ text_eq k peer_id_key ]

-- `_list_subnames`
unfoldable pub list_subnames : Service → List Subname
list_subnames s = elim s.listed [ none ↦ [] | some subs ↦ subs ]

-- The inner loop of `_lookup_by_peer_id`: whether a record matches.
unfoldable pub has_peer_id : Text → List TextRecord → Bool
has_peer_id peer_id [] = false
has_peer_id peer_id (r ∷ rs) =
    is_peer_id r && text_eq (strip (or_blank r.value)) peer_id || has_peer_id peer_id rs

unfoldable pub first_name : Text → List Subname → Option Text
first_name peer_id [] = none
first_name peer_id (sub ∷ subs) =
    let rest = first_name peer_id subs in
    if has_peer_id peer_id sub.texts then some (or_blank sub.ens) else rest

unfoldable pub lookup_by_peer_id : Service → Text → Option Text
lookup_by_peer_id s peer_id = first_name peer_id (list_subnames s)

-- `str(n)`; the fuel `n + 1` is enough for `n`.
unfoldable pub decimal : ℕ → ℕ → Text
decimal zero n = []
decimal (suc fuel) n =
    let higher = decimal fuel (n / 10) ++ (48 + n % 10) ∷ [] in
    if ltb n 10 then (48 + n) ∷ [] else higher

-- The text records of a registration.
unfoldable pub records_of : ℕ → Text → List Text → Text → List TextRecord
records_of shard_id peer_id capabilities price_text =
    record { key = some peer_id_key; value = some peer_id }
    ∷ record { key = some capabilities_key; value = some (join 44 capabilities) }
    ∷ record { key = some price_axl_key; value = some price_text }
    ∷ record { key = some shard_id_key; value = some (decimal (shard_id + 1) shard_id) }
    ∷ []

-- `for username in [...]`: the first name that the service accepts.
unfoldable pub first_accepted : Service → List TextRecord → List Text → Option Text
first_accepted s records [] = none
first_accepted s records (username ∷ usernames) =
    let rest = first_accepted s records usernames in
    if s.register username records then some (username ++ 46 ∷ ens_domain) else rest

unfoldable pub usernames_of : ℕ → Text → List Text
usernames_of shard_id peer_id =
    let preferred = node_text ++ decimal (shard_id + 1) shard_id in
    preferred ∷ (preferred ++ 45 ∷ take 8 peer_id) ∷ []

-- `_run_registration`: what the callback is called with.
unfoldable pub run_registration : Service → ℕ → Text → List Text → Text → Option Text
run_registration s shard_id peer_id capabilities price_text =
    let records = records_of shard_id peer_id capabilities price_text in
    elim (first_accepted s records (usernames_of shard_id peer_id)) [
      | none ↦ lookup_by_peer_id s peer_id
      | some full_name ↦ some full_name
    ]

-- `start_registration`, up to the end of its thread.
unfoldable pub start_registration : Service → Text → ℕ → Text → List Text → Text → Option Text
start_registration s api_key shard_id peer_id capabilities price_text =
    if is_blank (strip api_key)
    then none
    else run_registration s shard_id peer_id capabilities price_text

abbrev pub not_blank : Text → Bool
not_blank [] = false
not_blank (c ∷ cs) = true

-- The peers in the records of one subname.
unfoldable pub peers_of : List TextRecord → List Text
peers_of [] = []
peers_of (r ∷ rs) =
    let rest = peers_of rs in
    let val = strip (or_blank r.value) in if is_peer_id r && not_blank val then val ∷ rest else rest

unfoldable pub all_peers : List Subname → List Text
all_peers [] = []
all_peers (sub ∷ subs) = peers_of sub.texts ++ all_peers subs

-- `discover_peers`
unfoldable pub discover_peers : Service → Text → List Text
discover_peers s api_key = if is_blank (strip api_key) then [] else all_peers (list_subnames s)
