-- ===== src/Tests/Ciphers.antt =====
-- Secret sharing and the threshold cipher at concrete inputs.
use whisper_network.Common.{ℕ, suc, ◌+◌, ◌<◌, ◌≡◌, refl, Option, none, some, List, [], ◌∷◌, arith}
use whisper_network.Common.Lists.{length, take, All}
use whisper_network.Crypto.Galois.{gf_mul, gf_inv, gf_mul_loop, gf_pow_loop}
use whisper_network.Crypto.Shamir.{
  Share, shamir_split, shamir_reconstruct, shares_from, share_bytes, coefficients, random_bytes,
  horner, bytes_from, byte_sum, byte_at, basis, basis_factor,
}
use whisper_network.Crypto.ThresholdCipher.{
  Primitives, AreSound, Draws, Blob, encrypt, decrypt_own_share, reconstruct_and_decrypt,
  seal_share, seal_shares, find_own, open_entry,
}
use whisper_network.Crypto.Recover.{AreNumberedApart, shamir_reconstruct-shamir_split}
use whisper_network.Crypto.ThresholdRecovery.{reconstruct_and_decrypt-encrypt}

-- Boxes that are left open, with keys that both sides can add up.
abbrev plain : Primitives
plain = record {
  public_of = λ k. suc k;
  exchange = λ a b. some (a + b);
  seal_box = λ key nonce text. text;
  open_box = λ key nonce text. some text;
}

plain-AreSound : AreSound plain
plain-AreSound = record { agree = λ a b. ground arith; opens = λ key nonce text. refl }

abbrev draws : Draws
draws = record {
  aes_key = 200 ∷ 17 ∷ 255 ∷ [];
  key_of_bytes = λ bytes. length bytes;
  nonce = 3;
  polynomial = λ b k. 91;
  eph_priv = λ x. 60 + x;
  share_nonce = λ x. x;
}

-- Two of three shares give the key back.
split_and_reconstruct :
    shamir_reconstruct (take 2 (shamir_split draws.polynomial draws.aes_key 3 2))
    ≡ some (200 ∷ 17 ∷ 255 ∷ [])
unfolding shamir_reconstruct shamir_split shares_from share_bytes coefficients random_bytes horner
    bytes_from byte_sum byte_at basis basis_factor gf_inv gf_mul gf_mul_loop gf_pow_loop
split_and_reconstruct = refl

abbrev targets : List ℕ
targets = 41 ∷ 42 ∷ 43 ∷ []

abbrev or_empty_blob : Option Blob → Blob
or_empty_blob none = record { t = 0; n = 0; nonce = 0; ciphertext = []; shares = [] }
or_empty_blob (some blob) = blob

abbrev sealed_blob : Blob
sealed_blob = or_empty_blob (encrypt plain draws targets (1 ∷ 2 ∷ []) 2)

-- The shares of the third and of the first node.
abbrev third_and_first : List Share
third_and_first =
    (3, share_bytes draws.polynomial 2 3 0 draws.aes_key)
    ∷ (1, share_bytes draws.polynomial 2 1 0 draws.aes_key)
    ∷ []

third_and_first-AreNumberedApart : AreNumberedApart third_and_first
third_and_first-AreNumberedApart = (((λ same. absurd (omega (arith, same))), tt), (tt, tt))

aes_key_small : All (λ v. v < 256) draws.aes_key
aes_key_small = (omega arith, (omega arith, (omega arith, tt)))

draws_small : (b i : ℕ) → draws.polynomial b i < 256
draws_small b i = omega arith

shamir_reconstruct-shamir_split_example :
    shamir_reconstruct third_and_first ≡ some (200 ∷ 17 ∷ 255 ∷ [])
unfolding shamir_split shares_from
shamir_reconstruct-shamir_split_example =
    shamir_reconstruct-shamir_split draws.polynomial draws.aes_key 3 2 third_and_first draws_small
      aes_key_small (omega arith) (omega arith) ((2, refl), ((0, refl), tt))
      third_and_first-AreNumberedApart (omega arith)

third_opens :
    decrypt_own_share plain (some 42) (some sealed_blob)
    ≡ some (3, share_bytes draws.polynomial 2 3 0 draws.aes_key)
unfolding encrypt seal_shares seal_share shamir_split shares_from decrypt_own_share find_own
    open_entry
third_opens = refl

first_opens :
    decrypt_own_share plain (some 40) (some sealed_blob)
    ≡ some (1, share_bytes draws.polynomial 2 1 0 draws.aes_key)
unfolding encrypt seal_shares seal_share shamir_split shares_from decrypt_own_share find_own
    open_entry
first_opens = refl

reconstruct_and_decrypt-encrypt_example :
    reconstruct_and_decrypt plain draws.key_of_bytes sealed_blob third_and_first ≡ some (1 ∷ 2 ∷ [])
unfolding encrypt seal_shares seal_share shamir_split shares_from
reconstruct_and_decrypt-encrypt_example =
    reconstruct_and_decrypt-encrypt plain plain-AreSound draws targets (1 ∷ 2 ∷ []) 2 sealed_blob
      third_and_first draws_small aes_key_small (omega arith) (omega arith) refl
      ((42, third_opens), ((40, first_opens), tt)) third_and_first-AreNumberedApart (omega arith)
