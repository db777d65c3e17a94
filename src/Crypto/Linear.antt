-- ===== src/Crypto/Linear.antt =====
-- `_gf_mul` of whisper/crypto.py is additive in each argument.
use Prim.Native.Nat.{bit_xor, bit_and}
use whisper_network.Common.{
  ℕ, zero, suc, ◌+◌, ◌*◌, ◌/◌, ◌%◌, ◌-◌, ◌≤◌, ◌<◌, ◌≡◌, refl, sym, ◌∙◌, ap, subst, Bool, true,
  false, inl, inr, Bool-cases, arith, if◌then◌else◌, ◌==◌, truthy, ==_iff, ltb,
}
use whisper_network.Crypto.Xor.{
  bit_xor-half, bit_xor-odd, xor_laws, xor_byte, xor_assoc, xor_self, bit_xor_step,
}
use whisper_network.Crypto.Galois.{gf_mul, gf_mul_loop, every, every-holds}

-- The step of the loop from `a` to `a * x`.
abbrev doubled : ℕ → ℕ
doubled a =
    let shifted = (a * 2) % 256 in if truthy (bit_and a 128) then bit_xor shifted 27 else shifted

-- What a round adds to `p`.
abbrev taken : ℕ → ℕ → ℕ → ℕ
taken a b p = if b % 2 == 1 then bit_xor p a else p

doubled_table :
    every (λ a. every (λ a'. doubled (bit_xor a a') == bit_xor (doubled a) (doubled a')) 256) 256
    ≡ true
unfolding every
doubled_table = refl

doubled-bit_xor :
    (a a' : ℕ) → a < 256 → a' < 256 → doubled (bit_xor a a') ≡ bit_xor (doubled a) (doubled a')
doubled-bit_xor a a' p q =
    let row : ℕ → ℕ → Bool = λ a a'. doubled (bit_xor a a') == bit_xor (doubled a) (doubled a') in
    (==_iff (doubled (bit_xor a a')) (bit_xor (doubled a) (doubled a'))).0
      (every-holds (row a) 256 a' q (every-holds (λ a. every (row a) 256) 256 a p doubled_table))

byte_table : every (λ a. ltb (doubled a) 256) 256 ≡ true
unfolding every
byte_table = refl

doubled_byte : (a : ℕ) → a < 256 → doubled a < 256
doubled_byte a p =
    let small : ltb (doubled a) 256 ≡ true =
      every-holds (λ a. ltb (doubled a) 256) 256 a p byte_table in
    ground arith

taken_byte : (a b p : ℕ) → a < 256 → p < 256 → taken a b p < 256
taken_byte a b p small small' = ground (arith, xor_byte p a)

taken-second :
    (a b b' p p' : ℕ)
    → taken a (bit_xor b b') (bit_xor p p') ≡ bit_xor (taken a b p) (taken a b' p')
taken-second a b b' p p' = elim (Bool-cases (b % 2 == 1)) [
  | inl odd ↦ elim (Bool-cases (b' % 2 == 1)) [
    | inl odd' ↦
        let even : (bit_xor b b' % 2 == 1) ≡ false = ground (arith, bit_xor-odd b b') in
        rw (odd, odd', even) (simp xor_laws)
    | inr even' ↦
        let sum : (bit_xor b b' % 2 == 1) ≡ true = ground (arith, bit_xor-odd b b') in
        rw (odd, even', sum) (simp xor_laws)
  ]
  | inr even ↦ elim (Bool-cases (b' % 2 == 1)) [
    | inl odd' ↦
        let sum : (bit_xor b b' % 2 == 1) ≡ true = ground (arith, bit_xor-odd b b') in
        rw (even, odd', sum) (xor_assoc p p' a)
    | inr even' ↦
        let sum : (bit_xor b b' % 2 == 1) ≡ false = ground (arith, bit_xor-odd b b') in
        rw (even, even', sum)
  ]
]

taken-first :
    (a a' b p p' : ℕ)
    → taken (bit_xor a a') b (bit_xor p p') ≡ bit_xor (taken a b p) (taken a' b p')
taken-first a a' b p p' = elim (Bool-cases (b % 2 == 1)) [
  | inl odd ↦ rw odd (simp xor_laws)
  | inr even ↦ rw even
]

loop-second :
    (n a b b' p p' : ℕ)
    → gf_mul_loop n a (bit_xor b b') (bit_xor p p')
      ≡ bit_xor (gf_mul_loop n a b p) (gf_mul_loop n a b' p')
unfolding gf_mul_loop
loop-second zero a b b' p p' = refl
loop-second (suc n) a b b' p p' =
    rw (bit_xor-half b b', taken-second a b b' p p')
      (loop-second n (doubled a) (b / 2) (b' / 2) (taken a b p) (taken a b' p'))

loop-first :
    (n a a' b p p' : ℕ)
    → a < 256
    → a' < 256
    → gf_mul_loop n (bit_xor a a') b (bit_xor p p')
      ≡ bit_xor (gf_mul_loop n a b p) (gf_mul_loop n a' b p')
unfolding gf_mul_loop
loop-first zero a a' b p p' small small' = refl
loop-first (suc n) a a' b p p' small small' =
    rw (doubled-bit_xor a a' small small', taken-first a a' b p p')
      (loop-first n (doubled a) (doubled a') (b / 2) (taken a b p) (taken a' b p')
        (doubled_byte a small) (doubled_byte a' small'))

loop_byte : (n a b p : ℕ) → a < 256 → p < 256 → gf_mul_loop n a b p < 256
unfolding gf_mul_loop
loop_byte zero a b p small small' = small'
loop_byte (suc n) a b p small small' =
    loop_byte n (doubled a) (b / 2) (taken a b p) (doubled_byte a small)
      (taken_byte a b p small small')

pub gf_mul_byte : (a b : ℕ) → a < 256 → gf_mul a b < 256
unfolding gf_mul
gf_mul_byte a b small = loop_byte 8 a b 0 small (omega arith)

pub gf_mul-second : (a b b' : ℕ) → gf_mul a (bit_xor b b') ≡ bit_xor (gf_mul a b) (gf_mul a b')
unfolding gf_mul
gf_mul-second a b b' = loop-second 8 a b b' 0 0

pub gf_mul-first :
    (a a' b : ℕ) → a < 256 → a' < 256 → gf_mul (bit_xor a a') b ≡ bit_xor (gf_mul a b) (gf_mul a' b)
unfolding gf_mul
gf_mul-first a a' b small small' = loop-first 8 a a' b 0 0 small small'

abbrev pub power : ℕ → ℕ
power zero = 1
power (suc k) = power k * 2

power-bit_xor : (k x : ℕ) → x < power k → bit_xor (power k) x ≡ power k + x
power-bit_xor zero zero below = refl
power-bit_xor zero (suc x) below = absurd (omega arith)
power-bit_xor (suc k) x below = omega (
  arith,
  bit_xor_step (power k * 2) x,
  power-bit_xor k (x / 2) (omega arith),
  ap (λ y. bit_xor y (x / 2)) (let e : power k * 2 / 2 ≡ power k = omega arith in e),
)

power_table : every (λ k. ltb (power k) 129) 8 ≡ true
unfolding every
power_table = refl

power_byte : (k : ℕ) → k < 8 → power k < 129
power_byte k below =
    let small : ltb (power k) 129 ≡ true =
      every-holds (λ k. ltb (power k) 129) 8 k below power_table in
    ground arith

-- Functions that are additive on bytes and agree at the powers of 2 agree on all bytes.
module _ (f g : ℕ → ℕ)
    (f_adds : (a b : ℕ) → a < 256 → b < 256 → f (bit_xor a b) ≡ bit_xor (f a) (f b))
    (g_adds : (a b : ℕ) → a < 256 → b < 256 → g (bit_xor a b) ≡ bit_xor (g a) (g b))
    (agree : (i : ℕ) → i < 8 → f (power i) ≡ g (power i)) where
  agree_below : (k : ℕ) → k ≤ 8 → (b : ℕ) → b < power k → f b ≡ g b
  agree_below zero most zero below =
      let zero_f : f 0 ≡ 0 = f_adds 0 0 (omega arith) (omega arith) ∙ xor_self (f 0) in
      let zero_g : g 0 ≡ 0 = g_adds 0 0 (omega arith) (omega arith) ∙ xor_self (g 0) in
      zero_f ∙ sym zero_g
  agree_below zero most (suc b) below = absurd (omega arith)
  agree_below (suc k) most b below = elim (Bool-cases (ltb b (power k))) [
    | inl low ↦ agree_below k (omega arith) b (ground arith)
    | inr high ↦
        let rest : ℕ = b - power k in
        let rest_low : rest < power k = ground arith in
        let split : bit_xor (power k) rest ≡ b =
          power-bit_xor k rest rest_low ∙ (let e : power k + rest ≡ b = ground arith in e) in
        let small = power_byte k (omega arith) in
        let same : f (bit_xor (power k) rest) ≡ g (bit_xor (power k) rest) =
          f_adds (power k) rest (omega arith) (omega arith)
          ∙ cc (agree k (omega arith), agree_below k (omega arith) rest rest_low)
          ∙ sym (g_adds (power k) rest (omega arith) (omega arith)) in
        subst (λ x. f x ≡ g x) split same
  ]

  pub agree_on_bytes : (b : ℕ) → b < 256 → f b ≡ g b
  agree_on_bytes b small = agree_below 8 (omega arith) b small
