-- ===== src/Pyens/Transaction.antt =====
-- The transaction that creates a name (pyens/registry_tx.py, `send_registry_create_subname`) and the key
-- that signs it (pyens/cli.py, `_load_pk`). The Ethereum node and the account are parameters.
use whisper_network.Common.{ℕ, ◌+◌, ◌*◌, Option, none, some, List, [], ◌∷◌, ◌++◌, if◌then◌else◌}
use whisper_network.Text.{Text, strip, starts_with, is_blank}
use whisper_network.Pyens.EnsHash.{EthTools, SubnodeRecord, encode_set_subnode_record_calldata}

pub record Fees : Type 0 where
  pub max_fee_per_gas : ℕ
  pub max_priority_fee_per_gas : ℕ

pub data Pricing : Type 0 where
  by_fees : Fees → Pricing
  by_gas_price : ℕ → Pricing

pub record Transaction : Type 0 where
  pub from_address : Text
  pub data_record : SubnodeRecord
  pub value : ℕ
  pub nonce : ℕ
  pub gas : ℕ
  pub pricing : Pricing

-- The calls of the node, `none` for an exception, and what the account makes of a transaction.
-- `buffered` is `int(gas * gas_buffer)`, and `one_gwei` is `to_wei(1, "gwei")`.
pub record EthNode : Type 0 where
  pub transaction_count : Text → Option ℕ
  pub estimate_gas : SubnodeRecord → Option ℕ
  pub buffered : ℕ → ℕ
  pub base_fee : Option (Option ℕ)
  pub max_priority_fee : Option ℕ
  pub one_gwei : ℕ
  pub gas_price : Option ℕ
  pub sign_and_send : Transaction → Option Text

-- `priority`: the node's proposal, or one gwei if the call fails.
unfoldable pub priority_of : EthNode → ℕ
priority_of n = elim n.max_priority_fee [ none ↦ n.one_gwei | some priority ↦ priority ]

-- The fees after the latest block's base fee, or the gas price of a chain without one.
unfoldable pub pricing_of : EthNode → Option Pricing
pricing_of n = elim n.base_fee [
  | none ↦ none
  | some missing_or_fee ↦ elim missing_or_fee [
    | none ↦ elim n.gas_price [ none ↦ none | some price ↦ some (by_gas_price price) ]
    | some fee ↦ some (
        by_fees (record {
          max_fee_per_gas = fee * 2 + priority_of n;
          max_priority_fee_per_gas = priority_of n;
        }))
  ]
]

-- From the encoded record to the hash of the transaction; `none` for any exception.
unfoldable pub send_record : EthNode → Text → SubnodeRecord → Option Text
send_record n signer r = elim (n.transaction_count signer) [
  | none ↦ none
  | some count ↦ elim (n.estimate_gas r) [
    | none ↦ none
    | some gas ↦ elim (pricing_of n) [
      | none ↦ none
      | some pricing ↦ n.sign_and_send (record {
        from_address = signer;
        data_record = r;
        value = 0;
        nonce = count;
        gas = n.buffered gas;
        pricing = pricing;
      })
    ]
  ]
]

-- `send_registry_create_subname`
unfoldable pub send_registry_create_subname :
    EthTools → EthNode → Text → Text → Text → Text → Option Text
send_registry_create_subname k n signer fqdn owner_address resolver =
    elim (encode_set_subnode_record_calldata k fqdn owner_address resolver) [
      | none ↦ none
      | some r ↦ send_record n signer r
    ]

-- "0x"
abbrev pub hex_prefix : Text
hex_prefix = 48 ∷ 120 ∷ []

-- `for k in PK_ENV_KEYS`: the first variable that is not blank.
unfoldable pub first_set : List (Option Text) → Option Text
first_set [] = none
first_set (none ∷ vs) = first_set vs
first_set (some v ∷ vs) =
    let rest = first_set vs in if is_blank (strip v) then rest else some (strip v)

unfoldable pub raw_key : Option Text → List (Option Text) → Option Text
raw_key none variables = first_set variables
raw_key (some explicit) variables = if is_blank explicit then first_set variables else some explicit

-- `_load_pk`, up to `Account.from_key`; `none` is the SystemExit.
unfoldable pub load_pk : Option Text → List (Option Text) → Option Text
load_pk explicit variables = elim (raw_key explicit variables) [
  | none ↦ none
  | some raw ↦ some (if starts_with hex_prefix raw then raw else hex_prefix ++ raw)
]
