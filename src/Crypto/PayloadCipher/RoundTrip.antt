-- ===== src/Crypto/PayloadCipher/RoundTrip.antt =====
-- `PayloadCipher.encrypt` of whisper/crypto.py followed by `decrypt`.
use whisper_network.Common.{
  ℕ, zero, suc, ◌+◌, ◌≡◌, ◌∙◌, sym, refl, ap, some, List, [], ◌∷◌, ◌++◌, arith, Option-cases, inl,
  inr,
}
use whisper_network.Common.Lists.{take, length}
use whisper_network.Text.{Text}
use whisper_network.Crypto.PayloadCipher.{
  PayloadTools, marker, drop, encrypt, open_parts, open_raw, decrypt,
}

-- The libraries' contract: both sides derive one key, a box opens under its key and nonce, and the
-- codings can be undone; a public key has 32 bytes.
pub record AreSoundTools (c : PayloadTools) : Type 0 where
  pub agree : (a b : ℕ) → c.exchange a (c.public_bytes b) ≡ c.exchange b (c.public_bytes a)
  pub opens :
      (key nonce text : List ℕ) → c.open_box key nonce (c.seal_box key nonce text) ≡ some text
  pub undoes : (raw : List ℕ) → c.b64decode (c.b64encode raw) ≡ some raw
  pub decodes : (text : Text) → c.decode (c.encode text) ≡ some text
  pub key_size : (a : ℕ) → length (c.public_bytes a) ≡ 32

take-append_exact : (n : ℕ) (xs ys : List ℕ) → length xs ≡ n → take n (xs ++ ys) ≡ xs
take-append_exact zero [] ys size = refl
take-append_exact zero (x ∷ xs) ys size = absurd (omega (arith, size))
take-append_exact (suc n) [] ys size = absurd (omega (arith, size))
take-append_exact (suc n) (x ∷ xs) ys size =
    ap (λ zs. x ∷ zs) (take-append_exact n xs ys (omega (arith, size)))

drop-append_exact : (n m : ℕ) (xs ys : List ℕ) → length xs ≡ n → drop (n + m) (xs ++ ys) ≡ drop m ys
drop-append_exact n m [] ys size =
    ap (λ k. drop k ys) (let e : n + m ≡ m = omega (arith, size) in e)
drop-append_exact zero m (x ∷ xs) ys size = absurd (omega (arith, size))
drop-append_exact (suc n) m (x ∷ xs) ys size =
    ap (λ k. drop k (x ∷ (xs ++ ys))) (let e : suc n + m ≡ suc (n + m) = omega arith in e)
    ∙ drop-append_exact n m xs ys (omega (arith, size))

module _ (c : PayloadTools) (sound : AreSoundTools c) where
  open_raw-layout :
      (priv : ℕ) (eph nonce ct : List ℕ)
      → length eph ≡ 32
      → length nonce ≡ 12
      → open_raw c priv (eph ++ (nonce ++ ct)) ≡ open_parts c priv eph nonce ct
  unfolding open_raw
  open_raw-layout priv eph nonce ct size size' =
      let first : take 32 (eph ++ (nonce ++ ct)) ≡ eph =
        take-append_exact 32 eph (nonce ++ ct) size in
      let after : drop 32 (eph ++ (nonce ++ ct)) ≡ nonce ++ ct =
        drop-append_exact 32 0 eph (nonce ++ ct) size in
      let middle : take 12 (drop 32 (eph ++ (nonce ++ ct))) ≡ nonce =
        ap (take 12) after ∙ take-append_exact 12 nonce ct size' in
      let last : drop 44 (eph ++ (nonce ++ ct)) ≡ ct =
        drop-append_exact 32 12 eph (nonce ++ ct) size ∙ drop-append_exact 12 0 nonce ct size' in
      rw (open_raw, first, middle, last) refl

  -- If the libraries keep their contract and the nonce has 12 bytes: whenever an encryption for the
  -- holder of a private key succeeds, the holder decrypts the payload to the plaintext.
  pub decrypt-encrypt :
      (eph_priv priv : ℕ) (nonce : List ℕ) (plaintext payload : Text)
      → length nonce ≡ 12
      → encrypt c eph_priv nonce (c.public_bytes priv) plaintext ≡ some payload
      → decrypt c priv payload ≡ some plaintext
  unfolding encrypt decrypt open_parts
  decrypt-encrypt eph_priv priv nonce plaintext payload size made =
      elim (Option-cases (c.exchange eph_priv (c.public_bytes priv))) [
        | inl refused ↦ absurd (ground arith)
        | inr (key, agreed) ↦
            let box = c.seal_box key nonce (c.encode plaintext) in
            let raw = c.public_bytes eph_priv ++ (nonce ++ box) in
            let whole : marker ++ c.b64encode raw ≡ payload = ground arith in
            let ours : c.exchange priv (c.public_bytes eph_priv) ≡ some key =
              sound.agree priv eph_priv ∙ agreed in
            let inner : open_raw c priv raw ≡ some plaintext =
              open_raw-layout priv (c.public_bytes eph_priv) nonce box (sound.key_size eph_priv)
                size
              ∙ rw (open_parts, ours, sound.opens key nonce (c.encode plaintext))
                  (sound.decodes plaintext) in
            ap (decrypt c priv) (sym whole) ∙ rw (decrypt, sound.undoes raw) inner
      ]
