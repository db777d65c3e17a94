-- ===== src/Crypto/Signing.antt =====
-- What the signatures of whisper/crypto.py protect, and what they leave open.
use whisper_network.Common.{ℕ, ◌≡◌, true, some, arith}
use whisper_network.Wire.{Task, Update}
use whisper_network.Crypto.Signer.{Ed25519, IsCorrect, canonical, canonical_of, sign, verify}

canonical_tampered :
    (msg : Update) (t u : Task) (h k : ℕ)
    → msg.task ≡ some t
    → u.task_id ≡ t.task_id
    → u.status ≡ t.status
    → u.leased_by ≡ t.leased_by
    → u.version ≡ t.version
    → canonical (record msg { task = some u; hops = h; sender = k }) ≡ canonical msg
unfolding canonical canonical_of
canonical_tampered msg t u h k carried id status holder version = ground arith

module _ (c : Ed25519) where
  -- If the library accepts the signatures that it makes, and keys and signatures are not empty: what a
  -- node with a key signs, every node accepts, whatever hops the message has left by then.
  pub verify-sign :
      IsCorrect c
      → (key : ℕ) (msg : Update) (h : ℕ)
      → verify c (record (sign c (some key) msg) { hops = h }) ≡ true
  unfolding verify sign canonical
  verify-sign ok key msg h = ground (
    arith,
    ok.key_text key,
    ok.signature_text key (canonical_of msg.msg_id msg.task),
    ok.verifies key (canonical_of msg.msg_id msg.task),
  )

  -- A relay can replace the task by any other with the same id, status, holder and version, and the
  -- sender and hops by any others: the answer of `verify` stays. So the result, the payload and the
  -- lease time are not protected.
  pub verify_tampered :
      (msg : Update) (t u : Task) (h k : ℕ)
      → msg.task ≡ some t
      → u.task_id ≡ t.task_id
      → u.status ≡ t.status
      → u.leased_by ≡ t.leased_by
      → u.version ≡ t.version
      → verify c (record msg { task = some u; hops = h; sender = k }) ≡ verify c msg
  unfolding verify
  verify_tampered msg t u h k carried id status holder version =
      rw (canonical_tampered msg t u h k carried id status holder version)
