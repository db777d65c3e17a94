-- ===== src/Tests/Names.antt =====
-- Payloads, names and the keyword search at concrete inputs.
use whisper_network.Common.{
  ℕ, zero, suc, ◌+◌, ◌<◌, ◌≤◌, ◌≡◌, ◌⊎◌, refl, true, false, Option, none, some, List, [], ◌∷◌, ◌++◌,
  arith,
}
use whisper_network.Common.Lists.{length, All}
use whisper_network.Text.{Text, contains_text, join}
use whisper_network.Crypto.PayloadCipher.{PayloadTools, encrypt, decrypt}
use whisper_network.Crypto.PayloadCipher.RoundTrip.{AreSoundTools, decrypt-encrypt}
use whisper_network.Pyens.EnsHash.{
  EthTools, SubnodeRecord, dot, root_node, norm_name, hash_labels, namehash_bytes, labelhash_bytes,
  encode_parts, encode_set_subnode_record_calldata,
}
use whisper_network.Pyens.Namehash.{encode_set_subnode_record_calldata-namehash_bytes}
use whisper_network.Pyens.Labels.{parse_child_labels, collect_labels, segments, label_of, add_label}
use whisper_network.Pyens.Parsed.{parse_child_labels-join}
use whisper_network.Pyens.State.{StateFile, missing, load_state}
use whisper_network.Pyens.Commands.{Chain, Batch, names_of, create_nested, mint_nested, norm_owner}
use whisper_network.Pyens.Each.{Split}
use whisper_network.Pyens.Minted.{create_nested_lem}
use whisper_network.Ens.{Service, discover_peers, lookup_by_peer_id, peer_id_key}
use whisper_network.Ens.Lookup.{is_found, discover_peers-lookup_by_peer_id}
use whisper_network.Inference.{matched, no_matches, run, query_of, Prompt, UserMessage}
use whisper_network.Inference.Fallback.{matches_in, run-unreachable}

-- 32 times a number.
abbrev same_32 : ℕ → List ℕ
same_32 k =
    k ∷ k ∷ k ∷ k ∷ k ∷ k ∷ k ∷ k ∷ k ∷ k ∷ k ∷ k ∷ k ∷ k ∷ k ∷ k ∷ k ∷ k ∷ k ∷ k ∷ k ∷ k ∷ k ∷ k
    ∷ k ∷ k ∷ k ∷ k ∷ k ∷ k ∷ k ∷ k ∷ []

abbrev first_of : List ℕ → ℕ
first_of [] = 0
first_of (x ∷ xs) = x

-- Boxes that are left open, under keys that both sides can add up.
abbrev open_tools : PayloadTools
open_tools = record {
  public_bytes = same_32;
  exchange = λ a key. some ((a + first_of key) ∷ []);
  seal_box = λ key nonce text. text;
  open_box = λ key nonce text. some text;
  b64encode = λ raw. raw;
  b64decode = λ text. some text;
  encode = λ text. text;
  decode = λ bytes. some bytes;
}

open_tools-AreSoundTools : AreSoundTools open_tools
open_tools-AreSoundTools = record {
  agree = λ a b. ground arith;
  opens = λ key nonce text. refl;
  undoes = λ raw. refl;
  decodes = λ text. refl;
  key_size = λ a. refl;
}

abbrev nonce_12 : List ℕ
nonce_12 = 1 ∷ 2 ∷ 3 ∷ 4 ∷ 5 ∷ 6 ∷ 7 ∷ 8 ∷ 9 ∷ 10 ∷ 11 ∷ 12 ∷ []

abbrev payload : Text
payload = 69 ∷ 78 ∷ 67 ∷ 58 ∷ (same_32 5 ++ (nonce_12 ++ 104 ∷ 105 ∷ []))

decrypt-encrypt_example : decrypt open_tools 9 payload ≡ some (104 ∷ 105 ∷ [])
unfolding encrypt
decrypt-encrypt_example =
    decrypt-encrypt open_tools open_tools-AreSoundTools 5 9 nonce_12 (104 ∷ 105 ∷ []) payload refl
      refl

-- A hash that leaves its input, names that are left alone, and addresses that are all good.
abbrev eth : EthTools
eth = record {
  keccak = λ bytes. bytes;
  ens_normalize = λ name. some name;
  checksum = λ address. some address;
}

-- "goat" and "axl.eth"
abbrev goat : Text
goat = 103 ∷ 111 ∷ 97 ∷ 116 ∷ []

abbrev axl_eth : Text
axl_eth = 97 ∷ 120 ∷ 108 ∷ 46 ∷ 101 ∷ 116 ∷ 104 ∷ []

abbrev goat_record : SubnodeRecord
goat_record = record {
  parent_node = root_node ++ (101 ∷ 116 ∷ 104 ∷ 97 ∷ 120 ∷ 108 ∷ []);
  label_h = goat;
  owner_cs = 7 ∷ [];
  resolver_cs = 8 ∷ [];
  ttl = 0;
}

encode_set_subnode_record_calldata-namehash_bytes_example :
    namehash_bytes eth (goat ++ dot ∷ axl_eth) ≡ goat_record.parent_node ++ goat_record.label_h
unfolding encode_set_subnode_record_calldata encode_parts namehash_bytes labelhash_bytes hash_labels
    norm_name
encode_set_subnode_record_calldata-namehash_bytes_example =
    encode_set_subnode_record_calldata-namehash_bytes eth goat axl_eth (7 ∷ []) (8 ∷ []) goat_record
      (refl, (refl, (refl, (refl, tt)))) (refl, (refl, (refl, (refl, (refl, (refl, (refl, tt)))))))
      refl refl refl refl refl refl

parse_child_labels-join_example :
    parse_child_labels (join 44 (goat ∷ (104 ∷ 105 ∷ []) ∷ [])) axl_eth
    ≡ goat ∷ (104 ∷ 105 ∷ []) ∷ []
parse_child_labels-join_example =
    parse_child_labels-join goat ((104 ∷ 105 ∷ []) ∷ []) axl_eth
      (
        ((refl, (refl, (refl, (refl, tt)))), refl, refl, refl),
        (((refl, (refl, tt)), refl, refl, refl), tt),
      )
      (refl, (refl, tt))

abbrev second_fails : ℕ → Option Text
second_fails zero = some (120 ∷ [])
second_fails (suc i) = none

-- A node whose second transaction fails.
abbrev chain : Chain
chain = record {
  address = 7 ∷ [];
  owner_of = λ name. 7 ∷ [];
  create = λ i name owner. second_fails i;
  receipt_status = λ txh. some 1;
  checksum = λ address. some address;
}

abbrev no_batch : Batch × StateFile
no_batch = (record { successes = []; failures = []; tx_log = []; nested_map = [] }, missing)

abbrev or_nothing : Option (Batch × StateFile) → Batch × StateFile
or_nothing none = no_batch
or_nothing (some r) = r

abbrev made : Batch × StateFile
made = or_nothing (create_nested chain axl_eth axl_eth (103 ∷ 44 ∷ 104 ∷ []) none true missing)

create_nested_lem_example :
    let st' = load_state axl_eth made.1 in
    ((owner : Text) × (norm_owner chain none ≡ some owner)
      × Split chain true axl_eth owner 0
          (parse_child_labels (103 ∷ 44 ∷ 104 ∷ []) axl_eth)
          made.0.successes
          made.0.failures)
    × All (λ s. contains_text s.0 (names_of axl_eth st'.nested_subnames) ≡ true) made.0.successes
    × (length st'.tx_log ≡ length (load_state axl_eth missing).tx_log + length made.0.successes)
unfolding create_nested mint_nested parse_child_labels collect_labels segments label_of add_label
    norm_owner
create_nested_lem_example =
    create_nested_lem chain axl_eth axl_eth (103 ∷ 44 ∷ 104 ∷ []) none true missing made.1 made.0
      refl

abbrev service : Service
service = record {
  register = λ username records. false;
  listed = some (
      record {
        ens = some goat;
        texts = record { key = some peer_id_key; value = some (32 ∷ 107 ∷ []) } ∷ [];
      }
      ∷ []);
}

discover_peers-lookup_by_peer_id_example :
    contains_text (107 ∷ []) (discover_peers service (1 ∷ []))
    ≡ is_found (lookup_by_peer_id service (107 ∷ []))
discover_peers-lookup_by_peer_id_example =
    discover_peers-lookup_by_peer_id service (1 ∷ []) (107 ∷ []) refl refl

abbrev unreachable : Prompt → UserMessage → Option Text
unreachable prompt msg = none

run-unreachable_example :
    let lines = goat ∷ (104 ∷ 105 ∷ []) ∷ [] in
    let n = matches_in (query_of (79 ∷ 65 ∷ [])) lines in
    ((n ≡ 0) × (run unreachable (79 ∷ 65 ∷ []) lines [] 2 ≡ no_matches 2 (query_of (79 ∷ 65 ∷ []))))
    ⊎ ((preview : Text) × (length preview ≤ 120)
        × (0 < n)
        × (run unreachable (79 ∷ 65 ∷ []) lines [] 2 ≡ matched 2 n preview))
run-unreachable_example =
    run-unreachable unreachable (79 ∷ 65 ∷ []) (goat ∷ (104 ∷ 105 ∷ []) ∷ []) [] 2 refl
