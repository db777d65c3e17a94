-- ===== src/Crypto/Recover.antt =====
-- `shamir_split` of whisper/crypto.py followed by `shamir_reconstruct`.
use Prim.Native.Nat.{bit_xor}
use mathlib.Core.Option.{some-injective}
use whisper_network.Common.{
  ℕ, zero, suc, ◌+◌, ◌-◌, ◌<◌, ◌≤◌, ◌≡◌, ◌≢◌, refl, ap, sym, ◌∙◌, subst, some, List, [], ◌∷◌, map,
  arith,
}
use whisper_network.Common.Lists.{length, All}
use whisper_network.Crypto.Galois.{gf_mul}
use whisper_network.Crypto.Xor.{eq_of_xor_zero}
use whisper_network.Crypto.Shamir.{
  Share, random_bytes, coefficients, horner, share_bytes, shares_from, shamir_split, byte_at,
  byte_sum, bytes_from, shamir_reconstruct,
}
use whisper_network.Crypto.Reconstruct.{share_at}
use whisper_network.Crypto.ByteField.{Byte, bytes_field, zero_byte}
use whisper_network.Crypto.ByteSums.{shares_of, byte_sum-total}
use whisper_network.Crypto.Interpolation.TwoField.{zero_plus}
use whisper_network.Crypto.Interpolation.Sums.{total, value, Apart, AreApart}
use whisper_network.Crypto.Interpolation.Recovery.{interpolate}

numbers : List Byte → List ℕ
numbers = map (λ b. b.0)

horner-value : (p : Byte) (cs : List Byte) → horner p.0 (numbers cs) ≡ (value bytes_field p cs).0
unfolding horner value numbers
horner-value p [] = refl
horner-value p (c ∷ cs) = ap (λ h. bit_xor (gf_mul h p.0) c.0) (horner-value p cs)

byte_at-share_bytes :
    (random : ℕ → ℕ → ℕ) (t x b i : ℕ) (secret : List ℕ) (v : ℕ)
    → byte_at i secret ≡ some v
    → byte_at i (share_bytes random t x b secret)
      ≡ some (horner x (coefficients (random (b + i)) t v))
unfolding byte_at share_bytes
byte_at-share_bytes random t x b i [] v at_i = absurd (ground arith)
byte_at-share_bytes random t x b zero (y ∷ ys) v at_i =
    ap (λ u. some (horner x (coefficients (random b) t u))) (some-injective y v at_i)
    ∙ ap (λ m. some (horner x (coefficients (random m) t v))) (let e : b ≡ b + 0 = omega arith in e)
byte_at-share_bytes random t x b (suc i) (y ∷ ys) v at_i =
    byte_at-share_bytes random t x (suc b) i ys v at_i
    ∙ ap (λ m. some (horner x (coefficients (random m) t v)))
        (let e : suc b + i ≡ b + suc i = omega arith in e)

length-share_bytes :
    (random : ℕ → ℕ → ℕ) (t x b : ℕ) (secret : List ℕ)
    → length (share_bytes random t x b secret) ≡ length secret
unfolding share_bytes
length-share_bytes random t x b [] = refl
length-share_bytes random t x b (v ∷ secret) =
    omega (arith, length-share_bytes random t x (suc b) secret)

module _ (random : ℕ → ℕ → ℕ) (random_small : (b i : ℕ) → random b i < 256) where
  random_list : ℕ → ℕ → List Byte
  random_list b zero = []
  random_list b (suc n) = (random b n, random_small b n) ∷ random_list b n

  numbers-random_list : (b n : ℕ) → numbers (random_list b n) ≡ random_bytes (random b) n
  unfolding numbers random_list random_bytes
  numbers-random_list b zero = refl
  numbers-random_list b (suc n) = ap (λ rs. random b n ∷ rs) (numbers-random_list b n)

  length-random_list : (b n : ℕ) → length (random_list b n) ≡ n
  unfolding random_list
  length-random_list b zero = refl
  length-random_list b (suc n) = omega (arith, length-random_list b n)

  -- The value that the polynomial of a byte takes at a point.
  share_value :
      (t b : ℕ) (v p : Byte)
      → horner p.0 (coefficients (random b) t v.0)
        ≡ (value bytes_field p (v ∷ random_list b (t - 1))).0
  unfolding coefficients numbers
  share_value t b v p =
      ap (λ rs. horner p.0 (v.0 ∷ rs)) (sym (numbers-random_list b (t - 1)))
      ∙ horner-value p (v ∷ random_list b (t - 1))

  recover_byte :
      (t b : ℕ) (secret : List ℕ) (v p : Byte) (ps : List Byte)
      → byte_at b secret ≡ some v.0
      → AreApart bytes_field (p ∷ ps)
      → t - 1 ≤ length ps
      → (let shares = shares_of (λ x. share_bytes random t x 0 secret) (p ∷ ps) in
          byte_sum b shares 0 0 shares ≡ some v.0)
  recover_byte t b secret v p ps at_b apart enough =
      let f : Byte → Byte = λ q. value bytes_field q (v ∷ random_list b (t - 1)) in
      let read : (q : Byte) → byte_at b (share_bytes random t q.0 0 secret) ≡ some (f q).0 = λ q.
        byte_at-share_bytes random t q.0 0 b secret v.0 at_b
        ∙ ap some (
            ap (λ m. horner q.0 (coefficients (random m) t v.0))
              (let e : 0 + b ≡ b = omega arith in e)
            ∙ share_value t b v q) in
      let size : length (random_list b (t - 1)) ≤ length ps =
        omega (arith, enough, length-random_list b (t - 1)) in
      byte_sum-total (λ x. share_bytes random t x 0 secret) b 0 f zero_byte (p ∷ ps) [] (p ∷ ps)
        read apart refl refl
      ∙ ap (λ (u : Byte). some u.0)
          (zero_plus bytes_field (total bytes_field f [] (p ∷ ps))
            ∙ interpolate bytes_field v (random_list b (t - 1)) p ps apart size)

  recover_bytes :
      (t b : ℕ) (secret rest : List ℕ) (p : Byte) (ps : List Byte)
      → ((i : ℕ) → byte_at (b + i) secret ≡ byte_at i rest)
      → All (λ v. v < 256) rest
      → AreApart bytes_field (p ∷ ps)
      → t - 1 ≤ length ps
      → bytes_from (shares_of (λ x. share_bytes random t x 0 secret) (p ∷ ps)) b (length rest)
        ≡ some rest
  unfolding bytes_from byte_at
  recover_bytes t b secret [] p ps tail small apart enough = refl
  recover_bytes t b secret (v ∷ rest) p ps tail small apart enough =
      let at_b : byte_at b secret ≡ some v =
        ap (λ m. byte_at m secret) (let e : b ≡ b + 0 = omega arith in e) ∙ tail 0 in
      let first = recover_byte t b secret (v, small.0) p ps at_b apart enough in
      let others =
        recover_bytes t (suc b) secret rest p ps
          (λ i.
            ap (λ m. byte_at m secret) (let e : suc b + i ≡ b + suc i = omega arith in e)
            ∙ tail (suc i))
          small.1 apart enough in
      rw (bytes_from, first, others) refl

share_at-shares_from :
    (random : ℕ → ℕ → ℕ) (t x count i : ℕ) (secret : List ℕ) (s : Share)
    → share_at i (shares_from random t x count secret) ≡ some s
    → (i < count) × (s ≡ (x + i, share_bytes random t (x + i) 0 secret))
unfolding shares_from
share_at-shares_from random t x zero i secret s found = absurd (ground arith)
share_at-shares_from random t x (suc count) zero secret s found = (
  omega arith,
  sym (some-injective (x, share_bytes random t x 0 secret) s found)
      ∙ ap (λ m. (m, share_bytes random t m 0 secret)) (let e : x ≡ x + 0 = omega arith in e),
)
share_at-shares_from random t x (suc count) (suc i) secret s found =
    let (below, is_share) = share_at-shares_from random t (suc x) count i secret s found in
    (
      omega (arith, below),
      is_share
          ∙ ap (λ m. (m, share_bytes random t m 0 secret))
              (let e : suc x + i ≡ x + suc i = omega arith in e),
    )

-- One of the shares that a split returns.
abbrev pub IsShareOf : List Share → Share → Type 0
IsShareOf shares s = (i : ℕ) × (share_at i shares ≡ some s)

abbrev pub AreNumberedApart : List Share → Type 0
AreNumberedApart [] = Unit
AreNumberedApart (s ∷ rest) = All (λ s'. s'.0 ≢ s.0) rest × AreNumberedApart rest

module _ (random : ℕ → ℕ → ℕ) (secret : List ℕ) (n t : ℕ) (few : n < 256) where
  points_of :
      (chosen : List Share)
      → All (IsShareOf (shamir_split random secret n t)) chosen
      → (ps : List Byte) × (chosen ≡ shares_of (λ x. share_bytes random t x 0 secret) ps)
  unfolding shamir_split
  points_of [] shares = ([], refl)
  points_of (s ∷ rest) ((i, found), shares) =
      let (below, is_share) = share_at-shares_from random t 1 n i secret s found in
      let (ps, same) = points_of rest shares in
      (
        (1 + i, omega (arith, below, few)) ∷ ps,
        ap (λ s'. s' ∷ rest) is_share
            ∙ ap (λ ss. (1 + i, share_bytes random t (1 + i) 0 secret) ∷ ss) same,
      )

module _ (bytes : ℕ → List ℕ) where
  Apart-numbers :
      (p : Byte) (ps : List Byte)
      → All (λ s'. s'.0 ≢ p.0) (shares_of bytes ps)
      → Apart bytes_field p ps
  Apart-numbers p [] apart = tt
  Apart-numbers p (q ∷ ps) apart =
      (λ zero. apart.0 (eq_of_xor_zero q.0 p.0 (ap (λ b. b.0) zero)), Apart-numbers p ps apart.1)

  AreApart-numbers :
      (ps : List Byte) → AreNumberedApart (shares_of bytes ps) → AreApart bytes_field ps
  AreApart-numbers [] apart = tt
  AreApart-numbers (p ∷ ps) apart = (Apart-numbers p ps apart.0, AreApart-numbers ps apart.1)

  length-shares_of : (ps : List Byte) → length (shares_of bytes ps) ≡ length ps
  length-shares_of [] = refl
  length-shares_of (p ∷ ps) = omega (arith, length-shares_of ps)

recover_points :
    (random : ℕ → ℕ → ℕ) (secret : List ℕ) (t : ℕ) (ps : List Byte)
    → ((b i : ℕ) → random b i < 256)
    → All (λ v. v < 256) secret
    → 0 < t
    → t ≤ length ps
    → AreApart bytes_field ps
    → shamir_reconstruct (shares_of (λ x. share_bytes random t x 0 secret) ps) ≡ some secret
unfolding shamir_reconstruct
recover_points random secret t [] random_small small positive enough apart =
    absurd (omega (arith, positive, enough))
recover_points random secret t (p ∷ ps) random_small small positive enough apart =
    let bytes : ℕ → List ℕ = λ x. share_bytes random t x 0 secret in
    ap (bytes_from (shares_of bytes (p ∷ ps)) 0) (length-share_bytes random t p.0 0 secret)
    ∙ recover_bytes random random_small t 0 secret secret p ps
        (λ i. ap (λ m. byte_at m secret) (let e : 0 + i ≡ i = omega arith in e)) small apart
        (omega (arith, positive, enough))

-- If the secret and the random numbers are bytes, and there are fewer than 256 shares, then any `t` or
-- more of the shares, in any order, give the secret back, whatever the random bytes are.
pub shamir_reconstruct-shamir_split :
    (random : ℕ → ℕ → ℕ) (secret : List ℕ) (n t : ℕ) (chosen : List Share)
    → ((b i : ℕ) → random b i < 256)
    → All (λ v. v < 256) secret
    → n < 256
    → 0 < t
    → All (IsShareOf (shamir_split random secret n t)) chosen
    → AreNumberedApart chosen
    → t ≤ length chosen
    → shamir_reconstruct chosen ≡ some secret
shamir_reconstruct-shamir_split random secret n t chosen random_small small few positive shares
      apart enough =
    let (ps, same) = points_of random secret n t few chosen shares in
    let bytes : ℕ → List ℕ = λ x. share_bytes random t x 0 secret in
    ap shamir_reconstruct same
    ∙ recover_points random secret t ps random_small small positive
        (omega (arith, enough, ap length same, length-shares_of bytes ps))
        (AreApart-numbers bytes ps (subst AreNumberedApart same apart))
