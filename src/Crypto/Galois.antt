-- ===== src/Crypto/Galois.antt =====
-- The arithmetic of GF(256) in whisper/crypto.py: `_gf_mul` and `_gf_inv`.
use Prim.Native.Nat.{bit_xor, bit_and}
use whisper_network.Common.{
  ℕ, zero, suc, ◌*◌, ◌/◌, ◌%◌, ◌<◌, ◌≡◌, refl, Bool, true, false, ◌&&◌, Option, none, some,
  if◌then◌else◌, ◌==◌, truthy, ltb, arith,
}

-- The loop of `_gf_mul` over its rounds, from the state `a`, `b`, `p`.
unfoldable pub gf_mul_loop : ℕ → ℕ → ℕ → ℕ → ℕ
gf_mul_loop zero a b p = p
gf_mul_loop (suc rounds) a b p =
    let shifted = (a * 2) % 256 in
    gf_mul_loop rounds (if truthy (bit_and a 128) then bit_xor shifted 27 else shifted) (b / 2)
      (if b % 2 == 1 then bit_xor p a else p)

unfoldable pub gf_mul : ℕ → ℕ → ℕ
gf_mul a b = gf_mul_loop 8 a b 0

-- `while exp`; the exponent of `_gf_inv` is below 2 ^ 8, so that 8 rounds are enough.
unfoldable pub gf_pow_loop : ℕ → ℕ → ℕ → ℕ → ℕ
gf_pow_loop zero result base exp = result
gf_pow_loop (suc fuel) result base exp = elim (truthy exp) [
  | false ↦ result
  | true ↦
      gf_pow_loop fuel (if exp % 2 == 1 then gf_mul result base else result) (gf_mul base base)
        (exp / 2)
]

-- `_gf_inv`; `none` is the ValueError.
unfoldable pub gf_inv : ℕ → Option ℕ
gf_inv a = if a == 0 then none else some (gf_pow_loop 8 1 a 254)

-- Eight rounds are enough: any further fuel changes nothing.
gf_pow_loop-enough :
    (fuel base : ℕ)
    → gf_pow_loop (suc (suc (suc (suc (suc (suc (suc (suc fuel)))))))) 1 base 254
      ≡ gf_pow_loop 8 1 base 254
unfolding gf_pow_loop
gf_pow_loop-enough zero base = refl
gf_pow_loop-enough (suc fuel) base = refl

-- A test of every number below a bound.
unfoldable pub every : (ℕ → Bool) → ℕ → Bool
every test zero = true
every test (suc bound) = every test bound && test bound

pub every-holds :
    (test : ℕ → Bool) (bound a : ℕ) → a < bound → every test bound ≡ true → test a ≡ true
unfolding every
every-holds test zero a below all = absurd (omega arith)
every-holds test (suc bound) a below all = ground (arith, every-holds test bound a)

abbrev inverts : ℕ → Bool
inverts a =
    if a == 0
    then true
    else gf_mul a (gf_pow_loop 8 1 a 254) == 1
      && gf_mul (gf_pow_loop 8 1 a 254) a == 1
      && ltb (gf_pow_loop 8 1 a 254) 256

inverse_table : every inverts 256 ≡ true
unfolding every gf_mul gf_mul_loop gf_pow_loop
inverse_table = refl

-- `_gf_inv` gives each byte other than 0 a byte that is its inverse for `_gf_mul` on both sides.
pub gf_inv-gf_mul :
    (a : ℕ)
    → 0 < a
    → a < 256
    → (b : ℕ) × (gf_inv a ≡ some b) × (gf_mul a b ≡ 1) × (gf_mul b a ≡ 1) × (b < 256)
unfolding gf_inv
gf_inv-gf_mul a nonzero byte =
    let checked : inverts a ≡ true = every-holds inverts 256 a byte inverse_table in
    (gf_pow_loop 8 1 a 254, ground arith, ground arith, ground arith, ground arith)
