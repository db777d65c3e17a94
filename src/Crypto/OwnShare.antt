-- ===== src/Crypto/OwnShare.antt =====
-- Each node can open its own share (whisper/crypto.py, `encrypt` and `decrypt_own_share`).
use whisper_network.Common.{
  ℕ, ◌≡◌, true, Option, none, some, List, [], ◌∷◌, if◌then◌else◌, ◌==◌, truthy, arith, Bool-cases,
  Option-cases, inl, inr, ==_iff, subst,
}
use whisper_network.Common.Lists.{length}
use whisper_network.Crypto.Shamir.{Share, shamir_split}
use whisper_network.Crypto.ThresholdCipher.{
  Primitives, AreSound, Draws, Entry, Blob, seal_share, seal_shares, encrypt, open_entry, find_own,
  decrypt_own_share,
}

-- The share that stands at the place of the first target with the key `pubkey`.
abbrev pub share_for : ℕ → List Share → List ℕ → Option Share
share_for pubkey [] targets = none
share_for pubkey (share ∷ shares) [] = none
share_for pubkey (share ∷ shares) (target ∷ targets) =
    if target == pubkey then some share else share_for pubkey shares targets

module _ (c : Primitives) (sound : AreSound c) where
  open_entry-seal_share :
      (d : Draws) (share : Share) (priv : ℕ) (entry : Entry)
      → seal_share c d share (c.public_of priv) ≡ some entry
      → open_entry c priv entry ≡ some share
  unfolding open_entry seal_share
  open_entry-seal_share d (x, bytes) priv entry made =
      elim (Option-cases (c.exchange (d.eph_priv x) (c.public_of priv))) [
        | inl refused ↦ absurd (ground arith)
        | inr (key, agreed) ↦
            ground (arith, sound.agree priv (d.eph_priv x), sound.opens key (d.share_nonce x) bytes)
      ]

  seal_share-pubkey :
      (d : Draws) (share : Share) (pubkey : ℕ) (entry : Entry)
      → seal_share c d share pubkey ≡ some entry
      → entry.node_pubkey ≡ pubkey
  unfolding seal_share
  seal_share-pubkey d (x, bytes) pubkey entry made =
      elim (Option-cases (c.exchange (d.eph_priv x) pubkey)) [
        | inl refused ↦ absurd (ground arith)
        | inr (key, agreed) ↦ ground arith
      ]

  find_own-seal_shares :
      (d : Draws) (shares : List Share) (targets : List ℕ) (priv : ℕ) (entries : List Entry)
      → seal_shares c d shares targets ≡ some entries
      → find_own c priv entries ≡ share_for (c.public_of priv) shares targets
  unfolding find_own seal_shares open_entry
  find_own-seal_shares d [] targets priv entries made = ground arith
  find_own-seal_shares d (share ∷ shares) [] priv entries made = ground arith
  find_own-seal_shares d (share ∷ shares) (target ∷ targets) priv entries made =
      elim (Option-cases (seal_share c d share target)) [
        | inl refused ↦ absurd (ground arith)
        | inr (e, first) ↦ elim (Option-cases (seal_shares c d shares targets)) [
          | inl refused ↦ absurd (ground arith)
          | inr (es, others) ↦
              let whole : e ∷ es ≡ entries = ground arith in
              let pubkey : e.node_pubkey ≡ target = seal_share-pubkey d share target e first in
              subst
                (λ l.
                  find_own c priv l
                  ≡ share_for (c.public_of priv) (share ∷ shares) (target ∷ targets))
                whole
                (elim (Bool-cases (target == c.public_of priv)) [
                  | inl same ↦
                      rw (pubkey, same)
                        (open_entry-seal_share d share priv e (
                          subst (λ k. seal_share c d share k ≡ some e)
                            ((==_iff target (c.public_of priv)).0 same) first))
                  | inr other ↦
                      rw (pubkey, other) (find_own-seal_shares d shares targets priv es others)
                ])
        ]
      ]

  -- If both sides of an exchange derive one key and boxes open again: whenever an encryption succeeds,
  -- the holder of a private key whose public key is not missing gets from the blob the Shamir share that
  -- stands at the first place of its public key among the targets, and nothing if it is no target.
  pub decrypt_own_share-encrypt :
      (d : Draws) (targets plaintext : List ℕ) (t priv : ℕ) {blob : Blob}
      → encrypt c d targets plaintext t ≡ some blob
      → truthy (c.public_of priv) ≡ true
      → decrypt_own_share c (some priv) (some blob)
        ≡ share_for
            (c.public_of priv)
            (shamir_split d.polynomial d.aes_key (length targets) t)
            targets
  unfolding decrypt_own_share encrypt
  decrypt_own_share-encrypt d targets plaintext t priv {blob} made known =
      let shares = shamir_split d.polynomial d.aes_key (length targets) t in
      elim (Option-cases (seal_shares c d shares targets)) [
        | inl refused ↦ absurd (ground arith)
        | inr (entries, done) ↦
            let held : blob.shares ≡ entries = ground arith in
            rw (known, held) (find_own-seal_shares d shares targets priv entries done)
      ]
