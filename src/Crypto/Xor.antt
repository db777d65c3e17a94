-- ===== src/Crypto/Xor.antt =====
-- The exclusive or of whisper/crypto.py (`^`) as addition: its laws on all numbers, and on bytes.
use Prim.Native.Nat.{bit_xor, bit_xor-bitwise, digits}
use whisper_network.Common.{
  ℕ, zero, suc, ◌+◌, ◌*◌, ◌/◌, ◌%◌, ◌≤◌, ◌<◌, ◌≡◌, refl, arith, ◌∙◌, ap, sym,
}

-- One binary digit.
abbrev digit_xor : ℕ → ℕ → ℕ
digit_xor x y = (x + y) % 2

abbrev xor_digits : ℕ → ℕ → ℕ → ℕ
xor_digits n a b = digits (λ b. b) Prim.Native.Nat.differ n a b

differ_digits : (x y : ℕ) → x < 2 → y < 2 → Prim.Native.Nat.differ x y ≡ (x + y) % 2
differ_digits zero y p q = omega arith
differ_digits (suc zero) zero p q = refl
differ_digits (suc zero) (suc zero) p q = refl
differ_digits (suc zero) (suc (suc y)) p q = absurd (omega arith)
differ_digits (suc (suc x)) y p q = absurd (omega arith)

xor_digits_fuel : (n m a b : ℕ) → a ≤ n → a ≤ m → xor_digits n a b ≡ xor_digits m a b
xor_digits_fuel zero zero a b p q = refl
xor_digits_fuel zero (suc m) zero b p q = refl
xor_digits_fuel zero (suc m) (suc a) b p q = absurd (omega arith)
xor_digits_fuel (suc n) zero zero b p q = refl
xor_digits_fuel (suc n) zero (suc a) b p q = absurd (omega arith)
xor_digits_fuel (suc n) (suc m) zero b p q = refl
xor_digits_fuel (suc n) (suc m) (suc a) b p q =
    omega (arith, xor_digits_fuel n m (suc a / 2) (b / 2) (omega arith) (omega arith))

pub zero-bit_xor : (b : ℕ) → bit_xor 0 b ≡ b
zero-bit_xor b = bit_xor-bitwise 0 b

-- The exclusive or of the lowest digits, and of the rest.
pub bit_xor_step : (a b : ℕ) → bit_xor a b ≡ bit_xor (a / 2) (b / 2) * 2 + (a + b) % 2
bit_xor_step zero b = omega (arith, zero-bit_xor b, zero-bit_xor (b / 2))
bit_xor_step (suc a) b = omega (
  arith,
  bit_xor-bitwise (suc a) b,
  bit_xor-bitwise (suc a / 2) (b / 2),
  xor_digits_fuel a (suc a / 2) (suc a / 2) (b / 2) (omega arith) (omega arith),
  differ_digits (suc a % 2) (b % 2) (omega arith) (omega arith),
)

xor_comm_fuel : (n a b : ℕ) → a ≤ n → b ≤ n → bit_xor a b ≡ bit_xor b a
xor_comm_fuel zero zero zero p q = refl
xor_comm_fuel zero (suc a) b p q = absurd (omega arith)
xor_comm_fuel zero zero (suc b) p q = absurd (omega arith)
xor_comm_fuel (suc n) a b p q = omega (
  arith,
  bit_xor_step a b,
  bit_xor_step b a,
  xor_comm_fuel n (a / 2) (b / 2) (omega arith) (omega arith),
)

pub xor_comm : (a b : ℕ) → bit_xor a b ≡ bit_xor b a
xor_comm a b = xor_comm_fuel (a + b) a b (omega arith) (omega arith)

pub bit_xor-zero : (a : ℕ) → bit_xor a 0 ≡ a
bit_xor-zero a = xor_comm a 0 ∙ zero-bit_xor a

-- The halves and the lowest digits of an exclusive or.
pub bit_xor-half : (a b : ℕ) → bit_xor a b / 2 ≡ bit_xor (a / 2) (b / 2)
bit_xor-half a b = omega (arith, bit_xor_step a b)

pub bit_xor-odd : (a b : ℕ) → bit_xor a b % 2 ≡ (a + b) % 2
bit_xor-odd a b = omega (arith, bit_xor_step a b)

xor_assoc_fuel :
    (n a b c : ℕ) → a ≤ n → b ≤ n → c ≤ n → bit_xor (bit_xor a b) c ≡ bit_xor a (bit_xor b c)
xor_assoc_fuel zero zero zero zero p q r = refl
xor_assoc_fuel zero (suc a) b c p q r = absurd (omega arith)
xor_assoc_fuel zero zero (suc b) c p q r = absurd (omega arith)
xor_assoc_fuel zero zero zero (suc c) p q r = absurd (omega arith)
xor_assoc_fuel (suc n) a b c p q r =
    let rest = xor_assoc_fuel n (a / 2) (b / 2) (c / 2) (omega arith) (omega arith) (omega arith) in
    omega (
      arith,
      bit_xor_step (bit_xor a b) c,
      bit_xor_step a (bit_xor b c),
      ap (λ x. bit_xor x (c / 2)) (bit_xor-half a b),
      ap (bit_xor (a / 2)) (bit_xor-half b c),
      bit_xor-odd a b,
      bit_xor-odd b c,
      rest,
    )

pub xor_assoc : (a b c : ℕ) → bit_xor (bit_xor a b) c ≡ bit_xor a (bit_xor b c)
xor_assoc a b c = xor_assoc_fuel (a + b + c) a b c (omega arith) (omega arith) (omega arith)

xor_self_fuel : (n a : ℕ) → a ≤ n → bit_xor a a ≡ 0
xor_self_fuel zero zero p = refl
xor_self_fuel zero (suc a) p = absurd (omega arith)
xor_self_fuel (suc n) a p = omega (arith, bit_xor_step a a, xor_self_fuel n (a / 2) (omega arith))

pub xor_self : (a : ℕ) → bit_xor a a ≡ 0
xor_self a = xor_self_fuel a a (omega arith)

pub xor_left_comm : (a b c : ℕ) → bit_xor a (bit_xor b c) ≡ bit_xor b (bit_xor a c)
xor_left_comm a b c = sym (xor_assoc a b c) ∙ ap (λ x. bit_xor x c) (xor_comm a b) ∙ xor_assoc b a c

pub xor_self_left : (a b : ℕ) → bit_xor a (bit_xor a b) ≡ b
xor_self_left a b = sym (xor_assoc a a b) ∙ ap (λ x. bit_xor x b) (xor_self a) ∙ zero-bit_xor b

-- Equations between exclusive ors, by sorting both sides.
pub ruleset xor_laws =
    (xor_assoc, xor_comm, xor_left_comm, xor_self, xor_self_left, zero-bit_xor, bit_xor-zero)

-- Different numbers have an exclusive or that is not 0.
pub eq_of_xor_zero : (a b : ℕ) → bit_xor a b ≡ 0 → a ≡ b
eq_of_xor_zero a b h =
    sym (bit_xor-zero a)
    ∙ ap (bit_xor a) (sym (xor_self b))
    ∙ sym (xor_assoc a b b)
    ∙ ap (λ x. bit_xor x b) h
    ∙ zero-bit_xor b

abbrev two_to : ℕ → ℕ
two_to zero = 1
two_to (suc k) = two_to k * 2

-- The exclusive or has no more digits than its arguments.
xor-lt : (k a b : ℕ) → a < two_to k → b < two_to k → bit_xor a b < two_to k
xor-lt zero zero zero p q = omega arith
xor-lt zero (suc a) b p q = absurd (omega arith)
xor-lt zero zero (suc b) p q = absurd (omega arith)
xor-lt (suc k) a b p q =
    omega (arith, bit_xor_step a b, xor-lt k (a / 2) (b / 2) (omega arith) (omega arith))

pub xor_byte : (a b : ℕ) → a < 256 → b < 256 → bit_xor a b < 256
xor_byte a b p q = xor-lt 8 a b p q
