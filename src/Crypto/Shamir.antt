-- ===== src/Crypto/Shamir.antt =====
-- Shamir's secret sharing over GF(256) in whisper/crypto.py: `shamir_split` and `shamir_reconstruct`.
use Prim.Native.Nat.{bit_xor}
use whisper_network.Common.{ℕ, zero, suc, ◌-◌, true, false, Option, none, some, List, [], ◌∷◌, ◌==◌}
use whisper_network.Common.Lists.{length}
use whisper_network.Crypto.Galois.{gf_mul, gf_inv}

-- A share: its x and its bytes.
abbrev pub Share : Type 0
Share = ℕ × List ℕ

-- `[_sec.randbelow(256) for _ in range(t - 1)]`; `random` gives the outcome of each call.
unfoldable pub random_bytes : (ℕ → ℕ) → ℕ → List ℕ
random_bytes random zero = []
random_bytes random (suc n) = random n ∷ random_bytes random n

unfoldable pub coefficients : (ℕ → ℕ) → ℕ → ℕ → List ℕ
coefficients random t byte_val = byte_val ∷ random_bytes random (t - 1)

-- Horner's method; the loop starts at the last coefficient.
unfoldable pub horner : ℕ → List ℕ → ℕ
horner x [] = 0
horner x (c ∷ cs) = bit_xor (gf_mul (horner x cs) x) c

-- The bytes of the share at `x`: row `x` of the transposed columns. `random b` serves the b-th byte.
unfoldable pub share_bytes : (ℕ → ℕ → ℕ) → ℕ → ℕ → ℕ → List ℕ → List ℕ
share_bytes random t x b [] = []
share_bytes random t x b (byte_val ∷ secret) =
    horner x (coefficients (random b) t byte_val) ∷ share_bytes random t x (suc b) secret

-- The shares from `x` on, `count` of them.
unfoldable pub shares_from : (ℕ → ℕ → ℕ) → ℕ → ℕ → ℕ → List ℕ → List Share
shares_from random t x zero secret = []
shares_from random t x (suc count) secret =
    (x, share_bytes random t x 0 secret) ∷ shares_from random t (suc x) count secret

unfoldable pub shamir_split : (ℕ → ℕ → ℕ) → List ℕ → ℕ → ℕ → List Share
shamir_split random secret n t = shares_from random t 1 n secret

-- `yi_bytes[b_idx]`; `none` is the IndexError.
unfoldable pub byte_at : ℕ → List ℕ → Option ℕ
byte_at i [] = none
byte_at zero (y ∷ ys) = some y
byte_at (suc i) (y ∷ ys) = byte_at i ys

-- `Li = _gf_mul(Li, _gf_mul(xj, _gf_inv(xi ^ xj)))`
unfoldable pub basis_factor : ℕ → ℕ → ℕ → Option ℕ
basis_factor li xi xj = elim (gf_inv (bit_xor xi xj)) [
  | none ↦ none
  | some inverse ↦ some (gf_mul li (gf_mul xj inverse))
]

-- The loop over `j`, from the value `li`; `i` is the position of `xi`.
unfoldable pub basis : ℕ → ℕ → ℕ → ℕ → List Share → Option ℕ
basis i xi j li [] = some li
basis i xi j li ((xj, bytes) ∷ rest) = elim (i == j) [
  | true ↦ basis i xi (suc j) li rest
  | false ↦ elim (basis_factor li xi xj) [ none ↦ none | some li' ↦ basis i xi (suc j) li' rest ]
]

-- The loop over `i`, from the sum `s`.
unfoldable pub byte_sum : ℕ → List Share → ℕ → ℕ → List Share → Option ℕ
byte_sum b_idx shares i s [] = some s
byte_sum b_idx shares i s ((xi, yi_bytes) ∷ rest) = elim (byte_at b_idx yi_bytes) [
  | none ↦ none
  | some yi ↦ elim (basis i xi 0 1 shares) [
    | none ↦ none
    | some li ↦ byte_sum b_idx shares (suc i) (bit_xor s (gf_mul yi li)) rest
  ]
]

-- `for b_idx in range(length)`
unfoldable pub bytes_from : List Share → ℕ → ℕ → Option (List ℕ)
bytes_from shares b_idx zero = some []
bytes_from shares b_idx (suc count) = elim (byte_sum b_idx shares 0 0 shares) [
  | none ↦ none
  | some s ↦ elim (bytes_from shares (suc b_idx) count) [
    | none ↦ none
    | some rest ↦ some (s ∷ rest)
  ]
]

unfoldable pub shamir_reconstruct : List Share → Option (List ℕ)
shamir_reconstruct [] = none
shamir_reconstruct ((x, bytes) ∷ rest) = bytes_from ((x, bytes) ∷ rest) 0 (length bytes)
