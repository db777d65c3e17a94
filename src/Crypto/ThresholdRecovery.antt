-- ===== src/Crypto/ThresholdRecovery.antt =====
-- `encrypt`, `decrypt_own_share` and `reconstruct_and_decrypt` of whisper/crypto.py, one after the other.
use whisper_network.Common.{
  ℕ, suc, ◌<◌, ◌≤◌, ◌≡◌, sym, ◌∙◌, some, List, [], ◌∷◌, ◌==◌, truthy, arith, Bool-cases,
  Option-cases, inl, inr,
}
use whisper_network.Common.Lists.{length, All, All-map}
use whisper_network.Crypto.Shamir.{Share, shamir_split, shamir_reconstruct}
use whisper_network.Crypto.Recover.{IsShareOf, AreNumberedApart, shamir_reconstruct-shamir_split}
use whisper_network.Crypto.ThresholdCipher.{
  Primitives, AreSound, Draws, Blob, seal_shares, encrypt, decrypt_own_share,
  reconstruct_and_decrypt,
}
use whisper_network.Crypto.OwnShare.{share_for, decrypt_own_share-encrypt}

share_for-IsShareOf :
    (pubkey : ℕ) (shares : List Share) (targets : List ℕ) (s : Share)
    → share_for pubkey shares targets ≡ some s
    → IsShareOf shares s
share_for-IsShareOf pubkey [] targets s found = absurd (ground arith)
share_for-IsShareOf pubkey (share ∷ shares) [] s found = absurd (ground arith)
share_for-IsShareOf pubkey (share ∷ shares) (target ∷ targets) s found =
    elim (Bool-cases (target == pubkey)) [
      | inl same ↦ (0, ground arith)
      | inr other ↦
          let later : share_for pubkey shares targets ≡ some s = ground arith in
          let (i, there) = share_for-IsShareOf pubkey shares targets s later in (suc i, there)
    ]

-- The holder of some private key got the share from the blob.
abbrev pub IsOpenedFrom : Primitives → Blob → Share → Type 0
IsOpenedFrom c blob s = (priv : ℕ) × (decrypt_own_share c (some priv) (some blob) ≡ some s)

module _ (c : Primitives) (sound : AreSound c) where
  opened-IsShareOf :
      (d : Draws) (targets plaintext : List ℕ) (t : ℕ) (blob : Blob) (s : Share)
      → encrypt c d targets plaintext t ≡ some blob
      → IsOpenedFrom c blob s
      → IsShareOf (shamir_split d.polynomial d.aes_key (length targets) t) s
  unfolding decrypt_own_share
  opened-IsShareOf d targets plaintext t blob s made (priv, opened) =
      elim (Bool-cases (truthy (c.public_of priv))) [
        | inr missing ↦ absurd (ground arith)
        | inl known ↦
            share_for-IsShareOf (c.public_of priv)
              (shamir_split d.polynomial d.aes_key (length targets) t) targets s
              (sym (
                  decrypt_own_share-encrypt c sound d targets plaintext t priv {blob = blob} made
                    known)
                ∙ opened)
      ]

  encrypt-ciphertext :
      (d : Draws) (targets plaintext : List ℕ) (t : ℕ) (blob : Blob)
      → encrypt c d targets plaintext t ≡ some blob
      → (blob.nonce ≡ d.nonce)
        × (blob.ciphertext ≡ c.seal_box (d.key_of_bytes d.aes_key) d.nonce plaintext)
  unfolding encrypt
  encrypt-ciphertext d targets plaintext t blob made =
      elim (Option-cases
        (seal_shares c d (shamir_split d.polynomial d.aes_key (length targets) t) targets)) [
          | inl refused ↦ absurd (ground arith)
          | inr (entries, done) ↦ (ground arith, ground arith)
        ]

  -- If both sides of an exchange derive one key and boxes open again, the AES key and the random
  -- numbers are bytes and the targets fewer than 256: once an encryption with a positive threshold
  -- has succeeded, any holders who opened as many differently numbered shares as the threshold asks
  -- for, or more, get the plaintext back from them.
  pub reconstruct_and_decrypt-encrypt :
      (d : Draws) (targets plaintext : List ℕ) (t : ℕ) (blob : Blob) (opened : List Share)
      → ((b i : ℕ) → d.polynomial b i < 256)
      → All (λ v. v < 256) d.aes_key
      → length targets < 256
      → 0 < t
      → encrypt c d targets plaintext t ≡ some blob
      → All (IsOpenedFrom c blob) opened
      → AreNumberedApart opened
      → t ≤ length opened
      → reconstruct_and_decrypt c d.key_of_bytes blob opened ≡ some plaintext
  unfolding reconstruct_and_decrypt
  reconstruct_and_decrypt-encrypt d targets plaintext t blob opened random_small small few positive
        made shares apart enough =
      let key : shamir_reconstruct opened ≡ some d.aes_key =
        shamir_reconstruct-shamir_split d.polynomial d.aes_key (length targets) t opened
          random_small small few positive
          (All-map (IsOpenedFrom c blob)
            (IsShareOf (shamir_split d.polynomial d.aes_key (length targets) t)) opened
            (λ s is_opened. opened-IsShareOf d targets plaintext t blob s made is_opened) shares)
          apart enough in
      let (nonce, box) = encrypt-ciphertext d targets plaintext t blob made in
      rw (reconstruct_and_decrypt, key, nonce, box)
        (sound.opens (d.key_of_bytes d.aes_key) d.nonce plaintext)
