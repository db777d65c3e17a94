-- ===== src/Pyens/State.antt =====
-- The saved state of the tool (pyens/state.py). The file is what json.load reads back; a key that is
-- missing is `none`.
use whisper_network.Common.{Bool, false, Option, none, some, List, [], if◌then◌else◌, not}
use whisper_network.Text.{Text, text_eq}

pub data Kind : Type 0 where
  sub nested : Kind

-- An entry of "txLog".
pub record TxEntry : Type 0 where
  pub kind : Kind
  pub name : Text
  pub hash : Text

pub record PyensState : Type 0 where
  pub name : Text
  pub last_owner : Option Text
  pub last_resolver : Option Text
  pub subnames : List Text
  pub nested_subnames : List (Text × List Text)
  pub prefill_parent : Text
  pub tx_log : List TxEntry

pub record Saved : Type 0 where
  pub name : Option Text
  pub last_owner : Option (Option Text)
  pub last_resolver : Option (Option Text)
  pub subnames : Option (List Text)
  pub nested_subnames : Option (List (Text × List Text))
  pub prefill_parent : Option Text
  pub tx_log : Option (List TxEntry)

pub data StateFile : Type 0 where
  missing unreadable : StateFile
  readable : Saved → StateFile

unfoldable pub default_state : Text → PyensState
default_state root_name = record {
  name = root_name;
  last_owner = none;
  last_resolver = none;
  subnames = [];
  nested_subnames = [];
  prefill_parent = [];
  tx_log = [];
}

-- `data.get(k, default)`
abbrev pub get_or : {A : Type 0} → A → Option A → A
get_or default none = default
get_or default (some x) = x

abbrev pub is_named : Text → Option Text → Bool
is_named root_name none = false
is_named root_name (some name) = text_eq name root_name

unfoldable pub load_state : Text → StateFile → PyensState
load_state root_name missing = default_state root_name
load_state root_name unreadable = default_state root_name
load_state root_name (readable d) =
    let out = default_state root_name in
    if not (is_named root_name d.name) then out else record {
      name = get_or out.name d.name;
      last_owner = get_or out.last_owner d.last_owner;
      last_resolver = get_or out.last_resolver d.last_resolver;
      subnames = get_or out.subnames d.subnames;
      nested_subnames = get_or out.nested_subnames d.nested_subnames;
      prefill_parent = get_or out.prefill_parent d.prefill_parent;
      tx_log = get_or out.tx_log d.tx_log;
    }

-- The file after the write; an OSError of the write is not modelled.
unfoldable pub save_state : Text → PyensState → StateFile
save_state root_name st = readable (record {
  name = some root_name;
  last_owner = some st.last_owner;
  last_resolver = some st.last_resolver;
  subnames = some st.subnames;
  nested_subnames = some st.nested_subnames;
  prefill_parent = some st.prefill_parent;
  tx_log = some st.tx_log;
})
