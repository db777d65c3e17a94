-- ===== src/Crypto/Field.antt =====
-- Bytes under `^` and `_gf_mul` of whisper/crypto.py: the multiplication is commutative and associative.
use whisper_network.Common.{ℕ, ◌<◌, ◌≡◌, refl, ◌∙◌, ap, Bool, true, ◌==◌, ==_iff}
use whisper_network.Crypto.Galois.{gf_mul, gf_mul_loop, every, every-holds}
use whisper_network.Crypto.Linear.{power, gf_mul_byte, gf_mul-first, gf_mul-second, agree_on_bytes}

-- Both laws at powers of 2, by evaluation.
comm_at : ℕ → ℕ → Bool
comm_at i j = gf_mul (power i) (power j) == gf_mul (power j) (power i)

comm_table : every (λ i. every (comm_at i) 8) 8 ≡ true
unfolding every gf_mul gf_mul_loop comm_at
comm_table = refl

assoc_at : ℕ → ℕ → ℕ → Bool
assoc_at i j k =
    gf_mul (gf_mul (power i) (power j)) (power k) == gf_mul (power i) (gf_mul (power j) (power k))

assoc_table : every (λ i. every (λ j. every (assoc_at i j) 8) 8) 8 ≡ true
unfolding every gf_mul gf_mul_loop assoc_at
assoc_table = refl

gf_mul_comm_powers :
    (i j : ℕ) → i < 8 → j < 8 → gf_mul (power i) (power j) ≡ gf_mul (power j) (power i)
unfolding comm_at
gf_mul_comm_powers i j p q =
    (==_iff (gf_mul (power i) (power j)) (gf_mul (power j) (power i))).0
      (every-holds (comm_at i) 8 j q (every-holds (λ i. every (comm_at i) 8) 8 i p comm_table))

gf_mul_assoc_powers :
    (i j k : ℕ)
    → i < 8
    → j < 8
    → k < 8
    → gf_mul (gf_mul (power i) (power j)) (power k) ≡ gf_mul (power i) (gf_mul (power j) (power k))
unfolding assoc_at
gf_mul_assoc_powers i j k p q r =
    (==_iff (gf_mul (gf_mul (power i) (power j)) (power k))
        (gf_mul (power i) (gf_mul (power j) (power k)))).0
      (every-holds (assoc_at i j) 8 k r (
        every-holds (λ j. every (assoc_at i j) 8) 8 j q
          (every-holds (λ i. every (λ j. every (assoc_at i j) 8) 8) 8 i p assoc_table)))

gf_mul_comm_power : (i a : ℕ) → i < 8 → a < 256 → gf_mul a (power i) ≡ gf_mul (power i) a
gf_mul_comm_power i a below small =
    agree_on_bytes (λ a. gf_mul a (power i)) (gf_mul (power i))
      (λ a b p q. gf_mul-first a b (power i) p q) (λ a b p q. gf_mul-second (power i) a b)
      (λ j q. gf_mul_comm_powers j i q below) a small

pub gf_mul_comm : (a b : ℕ) → a < 256 → b < 256 → gf_mul a b ≡ gf_mul b a
gf_mul_comm a b small small' =
    agree_on_bytes (gf_mul a) (λ b. gf_mul b a) (λ b c p q. gf_mul-second a b c)
      (λ b c p q. gf_mul-first b c a p q) (λ i below. gf_mul_comm_power i a below small) b small'

gf_mul_assoc_two :
    (j k a : ℕ)
    → j < 8
    → k < 8
    → a < 256
    → gf_mul (gf_mul a (power j)) (power k) ≡ gf_mul a (gf_mul (power j) (power k))
gf_mul_assoc_two j k a q r small =
    agree_on_bytes (λ a. gf_mul (gf_mul a (power j)) (power k))
      (λ a. gf_mul a (gf_mul (power j) (power k)))
      (λ a b p p'.
        ap (λ x. gf_mul x (power k)) (gf_mul-first a b (power j) p p')
        ∙ gf_mul-first (gf_mul a (power j)) (gf_mul b (power j)) (power k)
            (gf_mul_byte a (power j) p) (gf_mul_byte b (power j) p'))
      (λ a b p p'. gf_mul-first a b (gf_mul (power j) (power k)) p p')
      (λ i p. gf_mul_assoc_powers i j k p q r) a small

gf_mul_assoc_one :
    (k a b : ℕ)
    → k < 8
    → a < 256
    → b < 256
    → gf_mul (gf_mul a b) (power k) ≡ gf_mul a (gf_mul b (power k))
gf_mul_assoc_one k a b r small small' =
    agree_on_bytes (λ b. gf_mul (gf_mul a b) (power k)) (λ b. gf_mul a (gf_mul b (power k)))
      (λ b c p p'.
        ap (λ x. gf_mul x (power k)) (gf_mul-second a b c)
        ∙ gf_mul-first (gf_mul a b) (gf_mul a c) (power k) (gf_mul_byte a b small)
            (gf_mul_byte a c small))
      (λ b c p p'.
        ap (gf_mul a) (gf_mul-first b c (power k) p p')
        ∙ gf_mul-second a (gf_mul b (power k)) (gf_mul c (power k)))
      (λ j q. gf_mul_assoc_two j k a q r small) b small'

pub gf_mul_assoc :
    (a b c : ℕ) → a < 256 → b < 256 → c < 256 → gf_mul (gf_mul a b) c ≡ gf_mul a (gf_mul b c)
gf_mul_assoc a b c small small' small'' =
    agree_on_bytes (gf_mul (gf_mul a b)) (λ c. gf_mul a (gf_mul b c))
      (λ c d p q. gf_mul-second (gf_mul a b) c d)
      (λ c d p q. ap (gf_mul a) (gf_mul-second b c d) ∙ gf_mul-second a (gf_mul b c) (gf_mul b d))
      (λ k r. gf_mul_assoc_one k a b r small small') c small''

one_table : every (λ a. gf_mul a 1 == a) 256 ≡ true
unfolding every gf_mul gf_mul_loop
one_table = refl

pub gf_mul-one : (a : ℕ) → a < 256 → gf_mul a 1 ≡ a
gf_mul-one a small =
    (==_iff (gf_mul a 1) a).0 (every-holds (λ a. gf_mul a 1 == a) 256 a small one_table)
