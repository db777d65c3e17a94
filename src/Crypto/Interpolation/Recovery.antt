-- ===== src/Crypto/Interpolation/Recovery.antt =====
-- Interpolation at 0 over a field in which x + x is 0, the mathematics of `shamir_reconstruct` in
-- whisper/crypto.py.
use whisper_network.Common.{suc, ◌≤◌, ◌≡◌, refl, sym, ◌∙◌, ap, List, [], ◌∷◌, arith}
use whisper_network.Common.Lists.{length}
use whisper_network.Crypto.Interpolation.TwoField.{
  TwoField, zero_plus, times_zero, zero_times, plus_back, divide_step,
}
use whisper_network.Crypto.Interpolation.Sums.{
  total, value, AreApart, total_ext, total-plus, total-times, total_first, total_one,
}

module _ (k : TwoField) where
  -- The quotient of a polynomial by `x + a`, by Horner's method; `cs` is without the constant.
  quotient : k.F → List k.F → List k.F
  quotient a [] = []
  quotient a (c ∷ cs) = value k a (c ∷ cs) ∷ quotient a cs

  length-quotient : (a : k.F) (cs : List k.F) → length (quotient a cs) ≡ length cs
  unfolding quotient
  length-quotient a [] = refl
  length-quotient a (c ∷ cs) = ap suc (length-quotient a cs)

  divide :
      (x a c : k.F) (cs : List k.F)
      → value k x (c ∷ cs)
        ≡ k.plus (value k a (c ∷ cs)) (k.times (k.plus x a) (value k x (quotient a cs)))
  unfolding value quotient
  divide x a c [] =
      rw (value, quotient, zero_times k x, zero_times k a, times_zero k (k.plus x a))
        (sym (k.plus_zero (k.plus k.o c)))
  divide x a c (d ∷ cs) =
      rw (value, divide x a d cs)
        (divide_step k x a (value k a (d ∷ cs)) (value k x (quotient a cs)) c)

  total_constant :
      (p a : k.F) (rest : List k.F)
      → AreApart k (a ∷ rest)
      → total k (λ x. k.times p k.one) [] (a ∷ rest) ≡ p
  total_constant p a rest apart =
      total-times k p (λ x. k.one) [] (a ∷ rest)
      ∙ ap (k.times p) (total_one k a rest apart)
      ∙ k.times_one p

  -- The weighted values of a polynomial at enough points apart add up to its constant coefficient.
  pub interpolate :
      (c : k.F) (cs : List k.F) (a : k.F) (rest : List k.F)
      → AreApart k (a ∷ rest)
      → length cs ≤ length rest
      → total k (λ x. value k x (c ∷ cs)) [] (a ∷ rest) ≡ c
  unfolding value quotient
  interpolate c [] a rest apart enough =
      total_ext k (λ x. k.plus (k.times k.o x) c) (λ x. k.times c k.one) [] [] (a ∷ rest)
        (λ x. rw (zero_times k x, k.times_one c) (zero_plus k c)) (λ x. refl)
      ∙ total_constant c a rest apart
  interpolate c (d ∷ cs) a [] apart enough = absurd (omega (arith, enough))
  interpolate c (d ∷ cs) a (b ∷ rest) apart enough =
      let p : k.F = value k a (c ∷ d ∷ cs) in
      let q : k.F → k.F = λ x. value k x (quotient a (d ∷ cs)) in
      let f : k.F → k.F = λ x. k.times (k.plus x a) (q x) in
      let fewer : length (quotient a cs) ≤ length rest =
        omega (arith, enough, length-quotient a cs) in
      total_ext k (λ x. value k x (c ∷ d ∷ cs)) (λ x. k.plus (k.times p k.one) (f x)) [] []
        (a ∷ b ∷ rest) (λ x. divide x a c (d ∷ cs) ∙ ap (λ u. k.plus u (f x)) (sym (k.times_one p)))
        (λ x. refl)
      ∙ total-plus k (λ x. k.times p k.one) f [] (a ∷ b ∷ rest)
      ∙ ap (λ u. k.plus u (total k f [] (a ∷ b ∷ rest))) (total_constant p a (b ∷ rest) apart)
      ∙ ap (k.plus p) (total_first k f q a (b ∷ rest) (λ x. refl) apart.0)
      ∙ ap (λ u. k.plus p (k.times a u))
          (interpolate (value k a (d ∷ cs)) (quotient a cs) b rest apart.1 fewer)
      ∙ plus_back k (value k a (d ∷ cs)) a c
