-- ===== src/Crypto/Signer.antt =====
-- `_canonical` and `class Signer` of whisper/crypto.py. Ed25519 itself is a parameter.
use whisper_network.Common.{
  ℕ, ◌≡◌, Bool, true, Option, none, some, truthy, if◌then◌else◌, not, ◌||◌,
}
use whisper_network.Wire.{Status, Task, Update}

-- The JSON object that is signed. `status` is `none` for a message with no task, whose status
-- reads as the empty string.
pub record Canonical : Type 0 where
  pub msg_id : ℕ
  pub task_id : ℕ
  pub status : Option Status
  pub leased_by : ℕ
  pub version : ℕ

-- Ed25519 keys and signatures, hexadecimal and base64 coding included. `ed_verify` is false for a
-- key or signature that cannot be decoded, and for an invalid one.
pub record Ed25519 : Type 0 where
  pub public_key : ℕ → ℕ
  pub ed_sign : ℕ → Canonical → ℕ
  pub ed_verify : ℕ → ℕ → Canonical → Bool

-- The library's contract for signatures that it made itself.
pub record IsCorrect (c : Ed25519) : Type 0 where
  pub key_text : (k : ℕ) → truthy (c.public_key k) ≡ true
  pub signature_text : (k : ℕ) (m : Canonical) → truthy (c.ed_sign k m) ≡ true
  pub verifies : (k : ℕ) (m : Canonical) → c.ed_verify (c.public_key k) (c.ed_sign k m) m ≡ true

-- `leased_by or ""`
abbrev pub or_empty : Option ℕ → ℕ
or_empty none = 0
or_empty (some k) = k

unfoldable pub canonical_of : ℕ → Option Task → Canonical
canonical_of msg_id none = record {
  msg_id = msg_id;
  task_id = 0;
  status = none;
  leased_by = 0;
  version = 0;
}
canonical_of msg_id (some t) = record {
  msg_id = msg_id;
  task_id = t.task_id;
  status = some t.status;
  leased_by = or_empty t.leased_by;
  version = t.version;
}

unfoldable pub canonical : Update → Canonical
canonical msg = canonical_of msg.msg_id msg.task

module _ (c : Ed25519) where
  -- `Signer.sign`; the private key is `none` where signing is disabled.
  unfoldable pub sign : Option ℕ → Update → Update
  sign none msg = msg
  sign (some key) msg = record msg {
    signature = c.ed_sign key (canonical msg);
    signing_key = c.public_key key;
  }

  -- `Signer.verify`
  unfoldable pub verify : Update → Bool
  verify msg =
      if not (truthy msg.signature) || not (truthy msg.signing_key)
      then true
      else c.ed_verify msg.signing_key msg.signature (canonical msg)
