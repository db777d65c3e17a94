-- ===== src/Crypto/Interpolation/TwoField.antt =====
-- Arithmetic in a field in which x + x is 0, such as the bytes of `_gf_mul` and `_gf_inv` in
-- whisper/crypto.py.
use whisper_network.Common.{◌≡◌, ◌≢◌, sym, ◌∙◌, ap}

pub record TwoField : Type 1 where
  pub F : Type 0
  pub o : F
  pub one : F
  pub plus : F → F → F
  pub times : F → F → F
  pub inv : F → F
  pub plus_assoc : (x y z : F) → plus (plus x y) z ≡ plus x (plus y z)
  pub plus_comm : (x y : F) → plus x y ≡ plus y x
  pub plus_zero : (x : F) → plus x o ≡ x
  pub plus_self : (x : F) → plus x x ≡ o
  pub times_assoc : (x y z : F) → times (times x y) z ≡ times x (times y z)
  pub times_comm : (x y : F) → times x y ≡ times y x
  pub times_one : (x : F) → times x one ≡ x
  pub times-plus : (x y z : F) → times x (plus y z) ≡ plus (times x y) (times x z)
  pub times-inv : (x : F) → x ≢ o → times x (inv x) ≡ one

module _ (k : TwoField) where
  pub plus_left_comm : (x y z : k.F) → k.plus x (k.plus y z) ≡ k.plus y (k.plus x z)
  plus_left_comm x y z =
      sym (k.plus_assoc x y z) ∙ ap (λ t. k.plus t z) (k.plus_comm x y) ∙ k.plus_assoc y x z

  pub times_left_comm : (x y z : k.F) → k.times x (k.times y z) ≡ k.times y (k.times x z)
  times_left_comm x y z =
      sym (k.times_assoc x y z) ∙ ap (λ t. k.times t z) (k.times_comm x y) ∙ k.times_assoc y x z

  pub zero_plus : (x : k.F) → k.plus k.o x ≡ x
  zero_plus x = k.plus_comm k.o x ∙ k.plus_zero x

  pub plus_swap :
      (x y z w : k.F) → k.plus (k.plus x y) (k.plus z w) ≡ k.plus (k.plus x z) (k.plus y w)
  plus_swap x y z w = simp (k.plus_assoc, plus_left_comm)

  pub plus_self_left : (x y : k.F) → k.plus x (k.plus x y) ≡ y
  plus_self_left x y = sym (k.plus_assoc x x y) ∙ ap (λ t. k.plus t y) (k.plus_self x) ∙ zero_plus y

  pub times_zero : (x : k.F) → k.times x k.o ≡ k.o
  times_zero x =
      ap (k.times x) (sym (k.plus_self k.o)) ∙ k.times-plus x k.o k.o ∙ k.plus_self (k.times x k.o)

  pub zero_times : (x : k.F) → k.times k.o x ≡ k.o
  zero_times x = k.times_comm k.o x ∙ times_zero x

  pub one_times : (x : k.F) → k.times k.one x ≡ x
  one_times x = k.times_comm k.one x ∙ k.times_one x

  pub plus-times : (x y z : k.F) → k.times (k.plus x y) z ≡ k.plus (k.times x z) (k.times y z)
  plus-times x y z = k.times_comm (k.plus x y) z ∙ k.times-plus z x y ∙ simp (k.times_comm)

  -- A factor that cancels the one of a point.
  pub times_cancel :
      (s i a g w v : k.F)
      → k.times s i ≡ k.one
      → k.times (k.times s g) (k.times (k.times (k.times a i) w) v)
        ≡ k.times a (k.times g (k.times w v))
  times_cancel s i a g w v inverse =
      (let gather : k.times (k.times s g) (k.times (k.times (k.times a i) w) v)
            ≡ k.times (k.times s i) (k.times a (k.times g (k.times w v))) =
          simp (k.times_assoc, k.times_comm, times_left_comm) in
        gather)
      ∙ ap (λ t. k.times t (k.times a (k.times g (k.times w v)))) inverse
      ∙ one_times (k.times a (k.times g (k.times w v)))

  pub spread :
      (x a b : k.F)
      → k.times (k.plus a b) k.one
        ≡ k.plus (k.times (k.plus x a) k.one) (k.times (k.plus x b) k.one)
  spread x a b =
      k.times_one (k.plus a b)
      ∙ sym (
          rw (k.times_one (k.plus x a), k.times_one (k.plus x b), plus_swap x a x b, k.plus_self x)
            (zero_plus (k.plus a b)))

  pub cancel_left : (s t : k.F) → s ≢ k.o → k.times s t ≡ s → t ≡ k.one
  cancel_left s t nonzero fixed =
      sym (one_times t)
      ∙ ap (λ u. k.times u t) (sym (k.times-inv s nonzero))
      ∙ k.times_assoc s (k.inv s) t
      ∙ times_left_comm s (k.inv s) t
      ∙ ap (k.times (k.inv s)) fixed
      ∙ k.times_comm (k.inv s) s
      ∙ k.times-inv s nonzero

  pub plus_back : (p a c : k.F) → k.plus (k.plus (k.times p a) c) (k.times a p) ≡ c
  plus_back p a c =
      rw
        (
          k.times_comm a p,
          k.plus_comm (k.times p a) c,
          k.plus_assoc c (k.times p a) (k.times p a),
          k.plus_self (k.times p a),
        )
        (k.plus_zero c)

  pub plus_cancel :
      (u r c v : k.F) → k.plus (k.plus u r) c ≡ k.plus (k.plus v c) (k.plus r (k.plus u v))
  plus_cancel u r c v = simp (k.plus_assoc, k.plus_comm, plus_left_comm, k.plus_self, k.plus_zero)

  pub divide_step :
      (x a p q c : k.F)
      → k.plus (k.times (k.plus p (k.times (k.plus x a) q)) x) c
        ≡ k.plus (k.plus (k.times p a) c) (k.times (k.plus x a) (k.plus (k.times q x) p))
  divide_step x a p q c =
      let r = k.times (k.plus x a) (k.times q x) in
      rw
        (
          plus-times p (k.times (k.plus x a) q) x,
          k.times_assoc (k.plus x a) q x,
          k.times-plus (k.plus x a) (k.times q x) p,
          plus-times x a p,
          k.times_comm x p,
          k.times_comm a p,
        )
        (plus_cancel (k.times p x) r c (k.times p a))
