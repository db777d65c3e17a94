-- ===== src/Crypto/Reconstruct.antt =====
-- The reconstruction of a secret (whisper/crypto.py, `shamir_reconstruct`) meets no exception.
use Prim.Native.Nat.{bit_xor}
use whisper_network.Common.{
  ℕ, zero, suc, ◌+◌, ◌<◌, ◌≡◌, ◌≢◌, refl, ap, sym, subst, true, Option, none, some, List, [], ◌∷◌,
  ◌==◌, truthy, arith, Bool-cases, inl, inr,
}
use whisper_network.Common.Lists.{length}
use whisper_network.Crypto.Xor.{eq_of_xor_zero}
use whisper_network.Crypto.Galois.{gf_mul, gf_inv, gf_pow_loop}
use whisper_network.Crypto.Shamir.{
  Share, byte_at, basis_factor, basis, byte_sum, bytes_from, shamir_reconstruct,
}

bit_xor-truthy : (a b : ℕ) → a ≢ b → truthy (bit_xor a b) ≡ true
bit_xor-truthy a b differ =
    let nonzero : bit_xor a b ≢ 0 = λ same. differ (eq_of_xor_zero a b same) in
    ground (arith, nonzero)

-- The share at a position.
abbrev pub share_at : ℕ → List Share → Option Share
share_at i [] = none
share_at zero (s ∷ shares) = some s
share_at (suc i) (s ∷ shares) = share_at i shares

byte_at-some : (i : ℕ) (bytes : List ℕ) → i < length bytes → (y : ℕ) × (byte_at i bytes ≡ some y)
unfolding byte_at
byte_at-some i [] short = absurd (omega arith)
byte_at-some zero (y ∷ ys) short = (y, refl)
byte_at-some (suc i) (y ∷ ys) short = byte_at-some i ys (omega arith)

gf_inv-some : (a : ℕ) → truthy a ≡ true → (b : ℕ) × (gf_inv a ≡ some b)
unfolding gf_inv
gf_inv-some a nonzero = (gf_pow_loop 8 1 a 254, ground arith)

basis_factor-some :
    (li xi xj : ℕ) → xi < 256 → xj < 256 → xi ≢ xj → (li' : ℕ) × (basis_factor li xi xj ≡ some li')
unfolding basis_factor
basis_factor-some li xi xj small small' differ =
    let (b, inverse) = gf_inv-some (bit_xor xi xj) (bit_xor-truthy xi xj differ) in
    (gf_mul li (gf_mul xj b), rw (inverse, basis_factor) refl)

-- The shares are numbered apart by bytes, and each has `n` bytes.
pub record AreProper (n : ℕ) (shares : List Share) : Type 0 where
  pub apart :
      (i j : ℕ) (s s' : Share)
      → share_at i shares ≡ some s
      → share_at j shares ≡ some s'
      → s.0 ≡ s'.0
      → i ≡ j
  pub small : (i : ℕ) (s : Share) → share_at i shares ≡ some s → s.0 < 256
  pub long : (i : ℕ) (s : Share) → share_at i shares ≡ some s → length s.1 ≡ n

-- `rest` is what follows the first `j` shares.
abbrev IsTail : ℕ → List Share → List Share → Type 0
IsTail j rest shares = (k : ℕ) → share_at (j + k) shares ≡ share_at k rest

IsTail-next :
    (j : ℕ) (s : Share) (rest shares : List Share)
    → IsTail j (s ∷ rest) shares
    → IsTail (suc j) rest shares
IsTail-next j s rest shares tail = λ k.
    subst (λ m. share_at m shares ≡ share_at k rest)
      (let e : j + suc k ≡ suc j + k = omega arith in e) (tail (suc k))

IsTail-first :
    (j : ℕ) (s : Share) (rest shares : List Share)
    → IsTail j (s ∷ rest) shares
    → share_at j shares ≡ some s
IsTail-first j s rest shares tail =
    subst (λ m. share_at m shares ≡ some s) (let e : j + 0 ≡ j = omega arith in e) (tail 0)

module _ (n : ℕ) (shares : List Share) (proper : AreProper n shares) where
  basis-some :
      (i xi : ℕ) (bytes : List ℕ) (j li : ℕ) (rest : List Share)
      → share_at i shares ≡ some (xi, bytes)
      → IsTail j rest shares
      → (out : ℕ) × (basis i xi j li rest ≡ some out)
  unfolding basis
  basis-some i xi bytes j li [] at_i tail = (li, refl)
  basis-some i xi bytes j li ((xj, b) ∷ rest) at_i tail =
      let next = IsTail-next j (xj, b) rest shares tail in
      let at_j = IsTail-first j (xj, b) rest shares tail in
      elim (Bool-cases (i == j)) [
        | inl same ↦
            let (out, done) = basis-some i xi bytes (suc j) li rest at_i next in
            (out, rw (same, basis) done)
        | inr other ↦
            let apart : xi ≢ xj = λ same.
              absurd (ground (arith, proper.apart i j (xi, bytes) (xj, b) at_i at_j same)) in
            let (li', factor) =
              basis_factor-some li xi xj (proper.small i (xi, bytes) at_i)
                (proper.small j (xj, b) at_j) apart in
            let (out, done) = basis-some i xi bytes (suc j) li' rest at_i next in
            (out, rw (other, factor, basis) done)
      ]

  byte_sum-some :
      (b_idx i s : ℕ) (rest : List Share)
      → b_idx < n
      → IsTail i rest shares
      → (out : ℕ) × (byte_sum b_idx shares i s rest ≡ some out)
  unfolding byte_sum
  byte_sum-some b_idx i s [] short tail = (s, refl)
  byte_sum-some b_idx i s ((xi, bytes) ∷ rest) short tail =
      let at_i = IsTail-first i (xi, bytes) rest shares tail in
      let (y, read) = byte_at-some b_idx bytes (omega (arith, proper.long i (xi, bytes) at_i)) in
      let (li, base) =
        basis-some i xi bytes 0 1 shares at_i
          (λ k. ap (λ m. share_at m shares) (let e : 0 + k ≡ k = omega arith in e)) in
      let (out, done) =
        byte_sum-some b_idx (suc i) (bit_xor s (gf_mul y li)) rest short
          (IsTail-next i (xi, bytes) rest shares tail) in
      (out, rw (read, base, byte_sum) done)

  bytes_from-some :
      (b_idx count : ℕ)
      → b_idx + count ≡ n
      → (out : List ℕ) × (bytes_from shares b_idx count ≡ some out) × (length out ≡ count)
  unfolding bytes_from
  bytes_from-some b_idx zero total = ([], refl, refl)
  bytes_from-some b_idx (suc count) total =
      let (s, sum) =
        byte_sum-some b_idx 0 0 shares (omega arith)
          (λ k. ap (λ m. share_at m shares) (let e : 0 + k ≡ k = omega arith in e)) in
      let (out, done, size) = bytes_from-some (suc b_idx) count (omega arith) in
      (s ∷ out, rw (sum, done, bytes_from) refl, omega (arith, size))

-- If there is a share, and the shares have different numbers, all bytes, and `n` bytes each, the
-- reconstruction raises nothing and returns `n` bytes.
pub shamir_reconstruct-some :
    (n : ℕ) (first : Share) (rest : List Share)
    → AreProper n (first ∷ rest)
    → (secret : List ℕ) × (shamir_reconstruct (first ∷ rest) ≡ some secret) × (length secret ≡ n)
unfolding shamir_reconstruct
shamir_reconstruct-some n (x, bytes) rest proper =
    let size : length bytes ≡ n = proper.long 0 (x, bytes) refl in
    subst
      (λ m.
        (secret : List ℕ) × (bytes_from ((x, bytes) ∷ rest) 0 m ≡ some secret)
        × (length secret ≡ n))
      (sym size) (bytes_from-some n ((x, bytes) ∷ rest) proper 0 n (omega arith))
