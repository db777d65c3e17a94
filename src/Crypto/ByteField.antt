-- ===== src/Crypto/ByteField.antt =====
-- The bytes of whisper/crypto.py as a field: `^` adds, `_gf_mul` multiplies, `_gf_inv` inverts.
use Prim.Native.Nat.{bit_xor}
use std.HLevel.{Σ_prop_path}
use native.Mathlib.Bridge.{le_prop}
use whisper_network.Common.{ℕ, ◌<◌, ◌≡◌, ◌≢◌, refl, Bool, true, arith, ltb}
use whisper_network.Crypto.Galois.{
  gf_mul, gf_mul_loop, gf_inv, gf_pow_loop, gf_inv-gf_mul, every, every-holds,
}
use whisper_network.Crypto.Xor.{xor_assoc, xor_comm, bit_xor-zero, xor_self, xor_byte}
use whisper_network.Crypto.Linear.{gf_mul_byte, gf_mul-second}
use whisper_network.Crypto.Field.{gf_mul_comm, gf_mul_assoc, gf_mul-one}
use whisper_network.Crypto.Interpolation.TwoField.{TwoField}

abbrev pub Byte : Type 0
Byte = (n : ℕ) × (n < 256)

pub eq_of_numbers : (a b : Byte) → a.0 ≡ b.0 → a ≡ b
eq_of_numbers a b same = Σ_prop_path (λ n. le_prop) same

abbrev stays_byte : ℕ → Bool
stays_byte a = ltb (gf_pow_loop 8 1 a 254) 256

inverse_sizes : every stays_byte 256 ≡ true
unfolding every gf_mul gf_mul_loop gf_pow_loop
inverse_sizes = refl

pub inverse_small : (a : ℕ) → a < 256 → gf_pow_loop 8 1 a 254 < 256
inverse_small a byte =
    let checked : stays_byte a ≡ true = every-holds stays_byte 256 a byte inverse_sizes in
    ground arith

pub zero_small : 0 < 256
zero_small = omega arith

pub one_small : 1 < 256
one_small = omega arith

pub gf_mul-inverse : (a : ℕ) → a < 256 → a ≢ 0 → gf_mul a (gf_pow_loop 8 1 a 254) ≡ 1
unfolding gf_inv
gf_mul-inverse a byte nonzero =
    let (b, is_inverse, product, other, small) = gf_inv-gf_mul a (omega arith) byte in ground arith

abbrev pub zero_byte : Byte
zero_byte = (0, zero_small)

abbrev pub one_byte : Byte
one_byte = (1, one_small)

abbrev pub bytes_field : TwoField
bytes_field = record {
  F = Byte;
  o = zero_byte;
  one = one_byte;
  plus = λ a b. (bit_xor a.0 b.0, xor_byte a.0 b.0 a.1 b.1);
  times = λ a b. (gf_mul a.0 b.0, gf_mul_byte a.0 b.0 a.1);
  inv = λ a. (gf_pow_loop 8 1 a.0 254, inverse_small a.0 a.1);
  plus_assoc = λ a b c. Σ_prop_path (λ n. le_prop) (xor_assoc a.0 b.0 c.0);
  plus_comm = λ a b. Σ_prop_path (λ n. le_prop) (xor_comm a.0 b.0);
  plus_zero = λ a. Σ_prop_path (λ n. le_prop) (bit_xor-zero a.0);
  plus_self = λ a. Σ_prop_path (λ n. le_prop) (xor_self a.0);
  times_assoc = λ a b c. Σ_prop_path (λ n. le_prop) (gf_mul_assoc a.0 b.0 c.0 a.1 b.1 c.1);
  times_comm = λ a b. Σ_prop_path (λ n. le_prop) (gf_mul_comm a.0 b.0 a.1 b.1);
  times_one = λ a. Σ_prop_path (λ n. le_prop) (gf_mul-one a.0 a.1);
  times-plus = λ a b c. Σ_prop_path (λ n. le_prop) (gf_mul-second a.0 b.0 c.0);
  times-inv = λ a nonzero.
      Σ_prop_path (λ n. le_prop)
        (gf_mul-inverse a.0 a.1 (λ zero. nonzero (Σ_prop_path (λ n. le_prop) zero)));
}
