-- ===== src/Pyens/EnsHash.antt =====
-- Name hashing and the record of a new subname (pyens/ens_hash.py and
-- `encode_set_subnode_record_calldata` of pyens/registry_tx.py).
use whisper_network.Common.{ℕ, Option, none, some, List, [], ◌∷◌, ◌++◌, if◌then◌else◌}
use whisper_network.Text.{Text, lower, strip, without_blanks, has_char, is_blank, split, join}

-- keccak and abi_encode of eth_utils and eth_abi, ens_normalize (`none` for an exception), and
-- to_checksum_address (`none` for a text that is no address).
pub record EthTools : Type 0 where
  pub keccak : List ℕ → List ℕ
  pub ens_normalize : Text → Option Text
  pub checksum : Text → Option Text

abbrev pub dot : ℕ
dot = 46

abbrev pub root_node : List ℕ
root_node =
    0 ∷ 0 ∷ 0 ∷ 0 ∷ 0 ∷ 0 ∷ 0 ∷ 0 ∷ 0 ∷ 0 ∷ 0 ∷ 0 ∷ 0 ∷ 0 ∷ 0 ∷ 0 ∷ 0 ∷ 0 ∷ 0 ∷ 0 ∷ 0 ∷ 0 ∷ 0 ∷ 0
    ∷ 0 ∷ 0 ∷ 0 ∷ 0 ∷ 0 ∷ 0 ∷ 0 ∷ 0 ∷ []

-- The arguments of `abi_encode`.
pub record SubnodeRecord : Type 0 where
  pub parent_node : List ℕ
  pub label_h : List ℕ
  pub owner_cs : Text
  pub resolver_cs : Text
  pub ttl : ℕ

module _ (k : EthTools) where
  unfoldable pub norm_name : Text → Text
  norm_name name =
      let n = without_blanks (lower (strip name)) in
      elim (k.ens_normalize n) [ none ↦ n | some normalized ↦ normalized ]

  -- `for label in reversed(labels): node = keccak(node + keccak(text=label))`
  unfoldable pub hash_labels : List Text → List ℕ
  hash_labels [] = root_node
  hash_labels (label ∷ labels) = k.keccak (hash_labels labels ++ k.keccak label)

  unfoldable pub namehash_bytes : Text → List ℕ
  namehash_bytes name =
      if is_blank name
      then root_node
      else (let normalized = norm_name name in
          if is_blank normalized then root_node else hash_labels (split dot normalized))

  -- `none` is the ValueError.
  unfoldable pub labelhash_bytes : Text → Option (List ℕ)
  labelhash_bytes label =
      let normalized = norm_name label in
      if has_char dot normalized then none else some (k.keccak normalized)

  unfoldable pub encode_parts : List Text → Text → Text → Option SubnodeRecord
  encode_parts [] owner resolver = none
  encode_parts (label ∷ []) owner resolver = none
  encode_parts (label ∷ next ∷ parts) owner resolver = elim (labelhash_bytes label) [
    | none ↦ none
    | some label_h ↦ elim (k.checksum resolver) [
      | none ↦ none
      | some resolver_cs ↦ elim (k.checksum owner) [
        | none ↦ none
        | some owner_cs ↦ some (record {
          parent_node = namehash_bytes (join dot (next ∷ parts));
          label_h = label_h;
          owner_cs = owner_cs;
          resolver_cs = resolver_cs;
          ttl = 0;
        })
      ]
    ]
  ]

  -- `encode_set_subnode_record_calldata`; `resolver` is the given one or the public resolver.
  unfoldable pub encode_set_subnode_record_calldata : Text → Text → Text → Option SubnodeRecord
  encode_set_subnode_record_calldata fqdn owner resolver =
      encode_parts (split dot (lower (strip fqdn))) owner resolver
