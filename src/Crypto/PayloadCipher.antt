-- ===== src/Crypto/PayloadCipher.antt =====
-- `class PayloadCipher` of whisper/crypto.py. X25519, HKDF, AES-GCM, base64 and UTF-8 are parameters; keys
-- and boxes are byte strings.
pub mod RoundTrip
use whisper_network.Common.{
  ℕ, zero, suc, Bool, Option, none, some, List, [], ◌∷◌, ◌++◌, not, if◌then◌else◌,
}
use whisper_network.Common.Lists.{take}
use whisper_network.Text.{Text, starts_with}

-- `public_bytes` is the raw public key of a private one; `exchange` the key that HKDF derives from the
-- shared secret, `none` for bytes that are no public key; `open_box` is `none` for an InvalidTag; the
-- decodings are `none` for an exception.
pub record PayloadTools : Type 0 where
  pub public_bytes : ℕ → List ℕ
  pub exchange : ℕ → List ℕ → Option (List ℕ)
  pub seal_box : List ℕ → List ℕ → List ℕ → List ℕ
  pub open_box : List ℕ → List ℕ → List ℕ → Option (List ℕ)
  pub b64encode : List ℕ → Text
  pub b64decode : Text → Option (List ℕ)
  pub encode : Text → List ℕ
  pub decode : List ℕ → Option Text

-- "ENC:"
abbrev pub marker : Text
marker = 69 ∷ 78 ∷ 67 ∷ 58 ∷ []

-- `xs[n:]`
abbrev pub drop : ℕ → List ℕ → List ℕ
drop zero xs = xs
drop (suc n) [] = []
drop (suc n) (x ∷ xs) = drop n xs

module _ (c : PayloadTools) where
  -- `encrypt`, from the ephemeral private key and the nonce that it draws.
  unfoldable pub encrypt : ℕ → List ℕ → List ℕ → Text → Option Text
  encrypt eph_priv nonce target_pubkey plaintext = elim (c.exchange eph_priv target_pubkey) [
    | none ↦ none
    | some key ↦ some (
        marker
        ++ c.b64encode
            (c.public_bytes eph_priv ++ (nonce ++ c.seal_box key nonce (c.encode plaintext))))
  ]

  -- The exchange and the box of `decrypt`.
  unfoldable pub open_parts : ℕ → List ℕ → List ℕ → List ℕ → Option Text
  open_parts priv eph_pub nonce ct = elim (c.exchange priv eph_pub) [
    | none ↦ none
    | some key ↦ elim (c.open_box key nonce ct) [ none ↦ none | some bytes ↦ c.decode bytes ]
  ]

  -- The part of `decrypt` after the base64 decoding.
  unfoldable pub open_raw : ℕ → List ℕ → Option Text
  open_raw priv raw = open_parts priv (take 32 raw) (take 12 (drop 32 raw)) (drop 44 raw)

  -- `decrypt`; `none` for any exception.
  unfoldable pub decrypt : ℕ → Text → Option Text
  decrypt priv payload =
      if not (starts_with marker payload)
      then none
      else elim (c.b64decode (drop 4 payload)) [ none ↦ none | some raw ↦ open_raw priv raw ]
