-- ===== src/Crypto/ThresholdCipher.antt =====
-- `class ThresholdCipher` of whisper/crypto.py. X25519, HKDF, AES-GCM and the random numbers are
-- parameters; a JSON object is a record, and base64 and the concatenation of fixed-length parts are
-- left out with their inverses.
use whisper_network.Common.{
  ℕ, ◌≡◌, Option, none, some, List, [], ◌∷◌, if◌then◌else◌, ◌==◌, truthy, not,
}
use whisper_network.Common.Lists.{length}
use whisper_network.Crypto.Shamir.{Share, shamir_split, shamir_reconstruct}

-- Keys are numbers, with 0 for a missing one. `exchange` is the key that HKDF derives from the shared
-- secret, `none` for a public key that is refused; `open_box` is `none` for an InvalidTag.
pub record Primitives : Type 0 where
  pub public_of : ℕ → ℕ
  pub exchange : ℕ → ℕ → Option ℕ
  pub seal_box : ℕ → ℕ → List ℕ → List ℕ
  pub open_box : ℕ → ℕ → List ℕ → Option (List ℕ)

-- The libraries' contract: both sides of an exchange derive one key, and a box opens under its key and
-- nonce.
pub record AreSound (c : Primitives) : Type 0 where
  pub agree : (a b : ℕ) → c.exchange a (c.public_of b) ≡ c.exchange b (c.public_of a)
  pub opens :
      (key nonce : ℕ) (text : List ℕ) → c.open_box key nonce (c.seal_box key nonce text) ≡ some text

-- What one encryption draws: the AES key and nonce, the bytes of the polynomials, and for the share at
-- `x` the ephemeral private key and the nonce.
pub record Draws : Type 0 where
  pub aes_key : List ℕ
  pub key_of_bytes : List ℕ → ℕ
  pub nonce : ℕ
  pub polynomial : ℕ → ℕ → ℕ
  pub eph_priv : ℕ → ℕ
  pub share_nonce : ℕ → ℕ

-- An entry of "shares", and the blob.
pub record Entry : Type 0 where
  pub x : ℕ
  pub node_pubkey : ℕ
  pub eph_pub : ℕ
  pub share_nonce : ℕ
  pub enc_share : List ℕ

pub record Blob : Type 0 where
  pub t : ℕ
  pub n : ℕ
  pub nonce : ℕ
  pub ciphertext : List ℕ
  pub shares : List Entry

module _ (c : Primitives) where
  -- One round of the loop over the shares and the target keys.
  unfoldable pub seal_share : Draws → Share → ℕ → Option Entry
  seal_share d (x, bytes) pubkey = elim (c.exchange (d.eph_priv x) pubkey) [
    | none ↦ none
    | some key ↦ some (record {
      x = x;
      node_pubkey = pubkey;
      eph_pub = c.public_of (d.eph_priv x);
      share_nonce = d.share_nonce x;
      enc_share = c.seal_box key (d.share_nonce x) bytes;
    })
  ]

  -- `zip` stops with the shorter list.
  unfoldable pub seal_shares : Draws → List Share → List ℕ → Option (List Entry)
  seal_shares d [] targets = some []
  seal_shares d (share ∷ shares) [] = some []
  seal_shares d (share ∷ shares) (pubkey ∷ targets) = elim (seal_share d share pubkey) [
    | none ↦ none
    | some entry ↦ elim (seal_shares d shares targets) [
      | none ↦ none
      | some rest ↦ some (entry ∷ rest)
    ]
  ]

  -- `encrypt`
  unfoldable pub encrypt : Draws → List ℕ → List ℕ → ℕ → Option Blob
  encrypt d target_pubkeys plaintext t =
      let n = length target_pubkeys in
      elim (seal_shares d (shamir_split d.polynomial d.aes_key n t) target_pubkeys) [
        | none ↦ none
        | some enc_shares ↦ some (record {
          t = t;
          n = n;
          nonce = d.nonce;
          ciphertext = c.seal_box (d.key_of_bytes d.aes_key) d.nonce plaintext;
          shares = enc_shares;
        })
      ]

  -- The decryption of one entry.
  unfoldable pub open_entry : ℕ → Entry → Option Share
  open_entry priv entry = elim (c.exchange priv entry.eph_pub) [
    | none ↦ none
    | some key ↦ elim (c.open_box key entry.share_nonce entry.enc_share) [
      | none ↦ none
      | some bytes ↦ some (entry.x, bytes)
    ]
  ]

  -- The loop over "shares": it ends at the first entry with our key.
  unfoldable pub find_own : ℕ → List Entry → Option Share
  find_own priv [] = none
  find_own priv (entry ∷ entries) =
      let rest = find_own priv entries in
      if entry.node_pubkey == c.public_of priv then open_entry priv entry else rest

  -- `decrypt_own_share`; a payload that cannot be parsed is `none`, a missing private key too.
  unfoldable pub decrypt_own_share : Option ℕ → Option Blob → Option Share
  decrypt_own_share none payload = none
  decrypt_own_share (some priv) none = none
  decrypt_own_share (some priv) (some blob) =
      if not (truthy (c.public_of priv)) then none else find_own priv blob.shares

  -- `reconstruct_and_decrypt`
  unfoldable pub reconstruct_and_decrypt : (List ℕ → ℕ) → Blob → List Share → Option (List ℕ)
  reconstruct_and_decrypt key_of_bytes blob shares = elim (shamir_reconstruct shares) [
    | none ↦ none
    | some aes_key ↦ c.open_box (key_of_bytes aes_key) blob.nonce blob.ciphertext
  ]
