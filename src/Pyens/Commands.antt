-- ===== src/Pyens/Commands.antt =====
-- The two commands of pyens/cli.py that create names: `cmd_create_sub` and `cmd_create_nested`. The
-- Ethereum node is a parameter; what is printed is left out.
use whisper_network.Common.{
  ℕ, suc, Bool, true, false, ◌||◌, ◌&&◌, not, Option, none, some, List, [], ◌∷◌, ◌++◌, ◌==◌,
  if◌then◌else◌,
}
use whisper_network.Text.{
  Text, lower, strip, without_blanks, has_char, is_blank, ends_with, text_eq, contains_text,
}
use whisper_network.Pyens.EnsHash.{dot}
use whisper_network.Pyens.Labels.{parse_child_labels}
use whisper_network.Pyens.State.{
  TxEntry, sub, nested, PyensState, StateFile, load_state, save_state,
}

-- The account and the calls of the node: the owner of a name, the transaction that creates a name (the
-- i-th call of a command; `none` for an exception), the status of its receipt, and the check of an
-- address (`none` for a bad one).
pub record Chain : Type 0 where
  pub address : Text
  pub owner_of : Text → Text
  pub create : ℕ → Text → Text → Option Text
  pub receipt_status : Text → Option ℕ
  pub checksum : Text → Option Text

-- `_norm_owner`; `none` is the SystemExit.
unfoldable pub norm_owner : Chain → Option Text → Option Text
norm_owner c none = c.checksum c.address
norm_owner c (some addr) =
    if is_blank (strip addr) then c.checksum c.address else c.checksum (strip addr)

-- One transaction with its receipt, if it is waited for; `none` for any failure.
unfoldable pub mint : Chain → Bool → ℕ → Text → Text → Option Text
mint c wait i full owner = elim (c.create i full owner) [
  | none ↦ none
  | some txh ↦
      if wait
      then (elim (c.receipt_status txh) [
        | none ↦ none
        | some status ↦ if status == 0 then none else some txh
      ])
      else some txh
]

unfoldable pub log_sub : Text → Text → PyensState → PyensState
log_sub full txh st = record st {
  subnames = if contains_text full st.subnames then st.subnames else full ∷ st.subnames;
  prefill_parent = full;
  tx_log = record { kind = sub; name = full; hash = txh } ∷ st.tx_log;
}

-- `cmd_create_sub`: the file afterwards, and whether the command went through.
unfoldable pub create_sub : Chain → Text → Text → Option Text → Bool → StateFile → StateFile × Bool
create_sub c root_name label owner_str wait file =
    let st = load_state root_name file in
    let label_clean = without_blanks (lower (strip label)) in
    let full = label_clean ++ dot ∷ root_name in
    if not (text_eq (lower (c.owner_of root_name)) (lower c.address))
    then (file, false)
    else (if is_blank label_clean || has_char dot label_clean
        then (file, false)
        else elim (norm_owner c owner_str) [
          | none ↦ (file, false)
          | some owner_cs ↦ elim (mint c wait 0 full owner_cs) [
            | none ↦ (file, false)
            | some txh ↦ (save_state root_name (log_sub full txh st), true)
          ]
        ])

-- `list(dict.fromkeys(xs))` on texts: of equal ones the first stays.
abbrev pub without : Text → List Text → List Text
without s [] = []
without s (t ∷ ts) = let rest = without s ts in if text_eq s t then rest else t ∷ rest

abbrev pub fromkeys : List Text → List Text
fromkeys [] = []
fromkeys (s ∷ ts) = s ∷ without s (fromkeys ts)

-- `nested_map.get(parent, [])` and `nested_map[parent] = names`
abbrev pub names_of : Text → List (Text × List Text) → List Text
names_of parent [] = []
names_of parent ((p, names) ∷ rest) = if text_eq parent p then names else names_of parent rest

abbrev pub set_names : Text → List Text → List (Text × List Text) → List (Text × List Text)
set_names parent names [] = (parent, names) ∷ []
set_names parent names (entry ∷ rest) =
    if text_eq parent entry.0 then (parent, names) ∷ rest else entry ∷ set_names parent names rest

-- The variables of the loop of `cmd_create_nested`.
pub record Batch : Type 0 where
  pub successes : List (Text × Text)
  pub failures : List Text
  pub tx_log : List TxEntry
  pub nested_map : List (Text × List Text)

-- One round, with the result of its transaction.
unfoldable pub note_result : Text → Text → Option Text → Batch → Batch
note_result parent lb none b = record b { failures = b.failures ++ lb ∷ [] }
note_result parent lb (some txh) b =
    let full = lb ++ dot ∷ parent in
    record b {
      successes = b.successes ++ (full, txh) ∷ [];
      tx_log = record { kind = nested; name = full; hash = txh } ∷ b.tx_log;
      nested_map = set_names parent (fromkeys (full ∷ names_of parent b.nested_map)) b.nested_map;
    }

unfoldable pub mint_each : Chain → Bool → Text → Text → ℕ → List Text → Batch → Batch
mint_each c wait parent owner i [] b = b
mint_each c wait parent owner i (lb ∷ labels) b =
    mint_each c wait parent owner (suc i) labels
      (note_result parent lb (mint c wait i (lb ++ dot ∷ parent) owner) b)

abbrev pub has_any : {A : Type 0} → List A → Bool
has_any [] = false
has_any (x ∷ xs) = true

-- The loop over the labels, and the file afterwards.
unfoldable pub mint_nested :
    Chain → Bool → Text → Text → List Text → StateFile → Text → Batch × StateFile
mint_nested c wait root_name parent_name labels file nested_owner =
    let st = load_state root_name file in
    let b = mint_each c wait parent_name nested_owner 0 labels (record {
      successes = [];
      failures = [];
      tx_log = st.tx_log;
      nested_map = st.nested_subnames;
    }) in
    (
      b,
      (if has_any b.successes
          then save_state root_name
              (record st { nested_subnames = b.nested_map; tx_log = b.tx_log })
          else file),
    )

-- `cmd_create_nested`: `none` is a SystemExit, before which nothing is sent or saved.
unfoldable pub create_nested :
    Chain → Text → Text → Text → Option Text → Bool → StateFile → Option (Batch × StateFile)
create_nested c root_name parent labels_raw owner_str wait file =
    let parent_name = without_blanks (lower (strip parent)) in
    let labels = parse_child_labels labels_raw parent_name in
    if is_blank parent_name
      || not (text_eq parent_name root_name) && not (ends_with (dot ∷ root_name) parent_name)
    then none
    else (if not (has_any labels)
        then none
        else (if not (text_eq (lower (c.owner_of parent_name)) (lower c.address))
            then none
            else elim (norm_owner c owner_str) [
              | none ↦ none
              | some nested_owner ↦
                  some (mint_nested c wait root_name parent_name labels file nested_owner)
            ]))
