-- ===== src/Crypto/Interpolation/Sums.antt =====
-- Weighted sums over points of a field, as `shamir_reconstruct` of whisper/crypto.py takes them at 0.
use whisper_network.Common.{◌≡◌, ◌≢◌, refl, sym, ◌∙◌, ap, List, [], ◌∷◌, ◌++◌}
use whisper_network.Crypto.Interpolation.TwoField.{
  TwoField, times_left_comm, zero_plus, plus_swap, times_zero, zero_times, one_times, plus-times,
  times_cancel, spread, cancel_left,
}

module _ (k : TwoField) where
  -- The product of `y / (x + y)` over the points `y`.
  unfoldable pub weight : k.F → List k.F → k.F
  weight x [] = k.one
  weight x (y ∷ ys) = k.times (k.times y (k.inv (k.plus x y))) (weight x ys)

  -- The sum over the points `x` of `rest` of the values `f x`, weighted by all other points.
  unfoldable pub total : (k.F → k.F) → List k.F → List k.F → k.F
  total f before [] = k.o
  total f before (x ∷ rest) =
      k.plus (k.times (f x) (k.times (weight x before) (weight x rest)))
        (total f (before ++ x ∷ []) rest)

  -- A polynomial by its coefficients, the constant one first.
  unfoldable pub value : k.F → List k.F → k.F
  value x [] = k.o
  value x (c ∷ cs) = k.plus (k.times (value x cs) x) c

  abbrev pub Apart : k.F → List k.F → Type 0
  Apart a [] = Unit
  Apart a (x ∷ xs) = (k.plus x a ≢ k.o) × Apart a xs

  abbrev pub AreApart : List k.F → Type 0
  AreApart [] = Unit
  AreApart (x ∷ xs) = Apart x xs × AreApart xs

  pub weight_last :
      (x y : k.F) (c : List k.F)
      → weight x (c ++ y ∷ []) ≡ k.times (k.times y (k.inv (k.plus x y))) (weight x c)
  unfolding weight
  weight_last x y [] = refl
  weight_last x y (z ∷ c) =
      ap (k.times (k.times z (k.inv (k.plus x z)))) (weight_last x y c)
      ∙ times_left_comm k (k.times z (k.inv (k.plus x z))) (k.times y (k.inv (k.plus x y)))
          (weight x c)

  pub weight-append :
      (x y : k.F) (c d : List k.F)
      → weight x c ≡ weight x d
      → weight x (c ++ y ∷ []) ≡ weight x (d ++ y ∷ [])
  weight-append x y c d same =
      weight_last x y c
      ∙ ap (k.times (k.times y (k.inv (k.plus x y)))) same
      ∙ sym (weight_last x y d)

  -- The sum is about the values of the function and the weights only.
  pub total_ext :
      (f g : k.F → k.F) (c d rest : List k.F)
      → ((x : k.F) → f x ≡ g x)
      → ((x : k.F) → weight x c ≡ weight x d)
      → total f c rest ≡ total g d rest
  unfolding total
  total_ext f g c d [] same weights = refl
  total_ext f g c d (x ∷ rest) same weights =
      let next =
        total_ext f g (c ++ x ∷ []) (d ++ x ∷ []) rest same
          (λ y. weight-append y x c d (weights y)) in
      rw (same x, weights x, next, total) refl

  pub total-plus :
      (f g : k.F → k.F) (c rest : List k.F)
      → total (λ x. k.plus (f x) (g x)) c rest ≡ k.plus (total f c rest) (total g c rest)
  unfolding total
  total-plus f g c [] = sym (k.plus_self k.o)
  total-plus f g c (x ∷ rest) =
      let w = k.times (weight x c) (weight x rest) in
      let next = total-plus f g (c ++ x ∷ []) rest in
      rw (total, next, plus-times k (f x) (g x) w)
        (plus_swap k (k.times (f x) w) (k.times (g x) w) (total f (c ++ x ∷ []) rest)
          (total g (c ++ x ∷ []) rest))

  pub total-times :
      (s : k.F) (f : k.F → k.F) (c rest : List k.F)
      → total (λ x. k.times s (f x)) c rest ≡ k.times s (total f c rest)
  unfolding total
  total-times s f c [] = sym (times_zero k s)
  total-times s f c (x ∷ rest) =
      let w = k.times (weight x c) (weight x rest) in
      let next = total-times s f (c ++ x ∷ []) rest in
      rw (total, next, k.times_assoc s (f x) w)
        (sym (k.times-plus s (k.times (f x) w) (total f (c ++ x ∷ []) rest)))

  -- A factor that is zero at `a` takes `a` out of the points.
  pub total_factor :
      (f g : k.F → k.F) (a : k.F) (c rest : List k.F)
      → ((x : k.F) → f x ≡ k.times (k.plus x a) (g x))
      → Apart a rest
      → total f (a ∷ c) rest ≡ k.times a (total g c rest)
  unfolding total weight
  total_factor f g a c [] split apart = sym (times_zero k a)
  total_factor f g a c (x ∷ rest) split apart =
      let next = total_factor f g a (c ++ x ∷ []) rest split apart.1 in
      let cancel =
        times_cancel k (k.plus x a) (k.inv (k.plus x a)) a (g x) (weight x c) (weight x rest)
          (k.times-inv (k.plus x a) apart.0) in
      rw (total, weight, split x, cancel, next)
        (sym (
          k.times-plus a (k.times (g x) (k.times (weight x c) (weight x rest)))
            (total g (c ++ x ∷ []) rest)))

  pub zero_at :
      (f g : k.F → k.F) (a : k.F) → ((x : k.F) → f x ≡ k.times (k.plus x a) (g x)) → f a ≡ k.o
  zero_at f g a split = split a ∙ ap (λ t. k.times t (g a)) (k.plus_self a) ∙ zero_times k (g a)

  -- The sum, multiplied out at a first point where the function is zero.
  pub total_first :
      (f g : k.F → k.F) (a : k.F) (rest : List k.F)
      → ((x : k.F) → f x ≡ k.times (k.plus x a) (g x))
      → Apart a rest
      → total f [] (a ∷ rest) ≡ k.times a (total g [] rest)
  unfolding total weight
  total_first f g a rest split apart =
      rw
        (
          total,
          weight,
          zero_at f g a split,
          zero_times k (k.times k.one (weight a rest)),
          zero_plus k (total f (a ∷ []) rest),
        )
        (total_factor f g a [] rest split apart)

  pub total_second :
      (f g : k.F → k.F) (a b : k.F) (rest : List k.F)
      → ((x : k.F) → f x ≡ k.times (k.plus x b) (g x))
      → k.plus a b ≢ k.o
      → Apart b rest
      → total f [] (a ∷ b ∷ rest) ≡ k.times b (total g [] (a ∷ rest))
  unfolding total weight
  total_second f g a b rest split differ apart =
      let i = k.inv (k.plus a b) in
      let order : total f (a ∷ b ∷ []) rest ≡ total f (b ∷ a ∷ []) rest =
        total_ext f f (a ∷ b ∷ []) (b ∷ a ∷ []) rest (λ x. refl)
          (λ x.
            times_left_comm k (k.times a (k.inv (k.plus x a))) (k.times b (k.inv (k.plus x b)))
              k.one) in
      let unit : k.times k.one (k.times (k.times b i) (weight a rest))
          ≡ k.times (k.times (k.times b i) k.one) (weight a rest) =
        simp (one_times k, k.times_one) in
      rw
        (
          total,
          weight,
          zero_at f g b split,
          zero_times k (k.times (k.times (k.times a (k.inv (k.plus b a))) k.one) (weight b rest)),
          zero_plus k (total f (a ∷ b ∷ []) rest),
          order,
          split a,
          unit,
          times_cancel k (k.plus a b) i b (g a) k.one (weight a rest)
              (k.times-inv (k.plus a b) differ),
          total_factor f g b (a ∷ []) rest split apart,
        )
        (sym
          (k.times-plus b (k.times (g a) (k.times k.one (weight a rest))) (total g (a ∷ []) rest)))

  -- The weights of one or more points apart add up to one.
  pub total_one :
      (a : k.F) (rest : List k.F) → AreApart (a ∷ rest) → total (λ x. k.one) [] (a ∷ rest) ≡ k.one
  unfolding total weight
  total_one a [] apart = simp (one_times k, k.plus_zero)
  total_one a (b ∷ rest) ((differ, apart_a), (apart_b, others)) =
      let s = k.plus a b in
      let s_apart : s ≢ k.o = λ zero. differ (k.plus_comm b a ∙ zero) in
      let t = total (λ x. k.one) [] (a ∷ b ∷ rest) in
      let first : total (λ x. k.times (k.plus x a) k.one) [] (a ∷ b ∷ rest) ≡ a =
        total_first (λ x. k.times (k.plus x a) k.one) (λ x. k.one) a (b ∷ rest) (λ x. refl)
          (differ, apart_a)
        ∙ ap (k.times a) (total_one b rest (apart_b, others))
        ∙ k.times_one a in
      let second : total (λ x. k.times (k.plus x b) k.one) [] (a ∷ b ∷ rest) ≡ b =
        total_second (λ x. k.times (k.plus x b) k.one) (λ x. k.one) a b rest (λ x. refl) s_apart
          apart_b
        ∙ ap (k.times b) (total_one a rest (apart_a, others))
        ∙ k.times_one b in
      let both : k.times s t ≡ s =
        sym (total-times s (λ x. k.one) [] (a ∷ b ∷ rest))
        ∙ total_ext (λ x. k.times s k.one)
            (λ x. k.plus (k.times (k.plus x a) k.one) (k.times (k.plus x b) k.one)) [] []
            (a ∷ b ∷ rest) (λ x. spread k x a b) (λ x. refl)
        ∙ total-plus (λ x. k.times (k.plus x a) k.one) (λ x. k.times (k.plus x b) k.one) []
            (a ∷ b ∷ rest)
        ∙ ap (λ u. k.plus u (total (λ x. k.times (k.plus x b) k.one) [] (a ∷ b ∷ rest))) first
        ∙ ap (k.plus a) second in
      cancel_left k s t s_apart both
