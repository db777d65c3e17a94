-- ===== src/Crypto/ByteSums.antt =====
-- The loops of `shamir_reconstruct` in whisper/crypto.py on shares whose numbers are bytes: `basis` is
-- the product of the weights of the other points, and `byte_sum` the weighted sum.
use Prim.Native.Nat.{bit_xor}
use mathlib.Core.List.{append_assoc}
use whisper_network.Common.{
  ℕ, suc, ◌+◌, ◌<◌, ◌≡◌, ◌≢◌, refl, ap, sym, ◌∙◌, subst, true, false, some, List, [], ◌∷◌, ◌++◌,
  ◌==◌, arith,
}
use whisper_network.Common.Lists.{length, length-append}
use whisper_network.Crypto.Galois.{gf_inv, gf_pow_loop}
use whisper_network.Crypto.Shamir.{Share, byte_at, basis_factor, basis, byte_sum}
use whisper_network.Crypto.ByteField.{Byte, bytes_field, one_byte, eq_of_numbers}
use whisper_network.Crypto.Interpolation.TwoField.{one_times}
use whisper_network.Crypto.Interpolation.Sums.{weight, total, Apart, AreApart}

-- The shares of the points, when the share at `x` has the bytes `bytes x`.
abbrev pub shares_of : (ℕ → List ℕ) → List Byte → List Share
shares_of bytes [] = []
shares_of bytes (p ∷ ps) = (p.0, bytes p.0) ∷ shares_of bytes ps

gf_inv-some : (a : ℕ) → a ≢ 0 → gf_inv a ≡ some (gf_pow_loop 8 1 a 254)
unfolding gf_inv
gf_inv-some a nonzero = ground arith

factor : Byte → Byte → Byte
factor p q = bytes_field.times q (bytes_field.inv (bytes_field.plus p q))

basis_factor-byte :
    (li p q : Byte)
    → bytes_field.plus p q ≢ bytes_field.o
    → basis_factor li.0 p.0 q.0 ≡ some (bytes_field.times li (factor p q)).0
unfolding basis_factor factor
basis_factor-byte li p q apart =
    rw
      (
        gf_inv-some (bit_xor p.0 q.0)
            (λ zero. apart (eq_of_numbers (bytes_field.plus p q) bytes_field.o zero)),
        basis_factor,
      )
      refl

module _ (bytes : ℕ → List ℕ) where
  -- The loop past the position `i`.
  basis_clear :
      (i j : ℕ) (p li : Byte) (qs : List Byte)
      → ((m : ℕ) → m < length qs → i ≢ j + m)
      → Apart bytes_field p qs
      → basis i p.0 j li.0 (shares_of bytes qs)
        ≡ some (bytes_field.times li (weight bytes_field p qs)).0
  unfolding basis weight factor
  basis_clear i j p li [] other apart = ap (λ (b : Byte). some b.0) (sym (bytes_field.times_one li))
  basis_clear i j p li (q ∷ qs) other apart =
      let differ : (i == j) ≡ false = ground (arith, other 0 (omega arith)) in
      let li' : Byte = bytes_field.times li (factor p q) in
      let step = basis_factor-byte li p q (λ zero. apart.0 (bytes_field.plus_comm q p ∙ zero)) in
      let rest =
        basis_clear i (suc j) p li' qs
          (λ m short same. other (suc m) (omega (arith, short)) (omega (arith, same))) apart.1 in
      rw (differ, basis, step) rest
      ∙ ap (λ (b : Byte). some b.0)
          (bytes_field.times_assoc li (factor p q) (weight bytes_field p qs))

  -- The whole loop for the point `p`, whose position is `i`.
  basis-weights :
      (i j : ℕ) (p li : Byte) (before after : List Byte)
      → i ≡ j + length before
      → Apart bytes_field p before
      → Apart bytes_field p after
      → basis i p.0 j li.0 (shares_of bytes (before ++ p ∷ after))
        ≡ some
            (bytes_field.times li
              (bytes_field.times (weight bytes_field p before) (weight bytes_field p after))).0
  unfolding basis weight factor
  basis-weights i j p li [] after at_p apart apart' =
      let same : (i == j) ≡ true = ground (arith, at_p) in
      rw (same, basis)
        (basis_clear i (suc j) p li after (λ m short next. absurd (omega (arith, at_p, next)))
            apart'
          ∙ ap (λ (b : Byte). some (bytes_field.times li b).0)
              (sym (one_times bytes_field (weight bytes_field p after))))
  basis-weights i j p li (q ∷ before) after at_p apart apart' =
      let differ : (i == j) ≡ false = ground (arith, at_p) in
      let li' : Byte = bytes_field.times li (factor p q) in
      let step = basis_factor-byte li p q (λ zero. apart.0 (bytes_field.plus_comm q p ∙ zero)) in
      let rest = basis-weights i (suc j) p li' before after (omega (arith, at_p)) apart.1 apart' in
      rw (differ, basis, step) rest
      ∙ ap (λ (b : Byte). some b.0)
          (bytes_field.times_assoc li (factor p q)
              (bytes_field.times (weight bytes_field p before) (weight bytes_field p after))
            ∙ ap (bytes_field.times li) (
                sym (
                  bytes_field.times_assoc (factor p q) (weight bytes_field p before)
                    (weight bytes_field p after))))

  Apart-member :
      (q p : Byte) (before after : List Byte)
      → Apart bytes_field q (before ++ p ∷ after)
      → bytes_field.plus p q ≢ bytes_field.o
  Apart-member q p [] after apart = apart.0
  Apart-member q p (r ∷ before) after apart = Apart-member q p before after apart.1

  Apart-after :
      (p : Byte) (before after : List Byte)
      → AreApart bytes_field (before ++ p ∷ after)
      → Apart bytes_field p after
  Apart-after p [] after apart = apart.0
  Apart-after p (q ∷ before) after apart = Apart-after p before after apart.1

  Apart-middle :
      (p : Byte) (before after : List Byte)
      → AreApart bytes_field (before ++ p ∷ after)
      → Apart bytes_field p before
  Apart-middle p [] after apart = tt
  Apart-middle p (q ∷ before) after apart = (
    (λ zero. Apart-member q p before after apart.0 (bytes_field.plus_comm p q ∙ zero)),
    Apart-middle p before after apart.1,
  )

  -- The sum over the points `rest`, which start at the position `i` of `all`.
  pub byte_sum-total :
      (b_idx i : ℕ) (f : Byte → Byte) (s : Byte) (all before rest : List Byte)
      → ((p : Byte) → byte_at b_idx (bytes p.0) ≡ some (f p).0)
      → AreApart bytes_field all
      → before ++ rest ≡ all
      → i ≡ length before
      → byte_sum b_idx (shares_of bytes all) i s.0 (shares_of bytes rest)
        ≡ some (bytes_field.plus s (total bytes_field f before rest)).0
  unfolding byte_sum total
  byte_sum-total b_idx i f s all before [] read apart whole at_rest =
      ap (λ (b : Byte). some b.0) (sym (bytes_field.plus_zero s))
  byte_sum-total b_idx i f s all before (p ∷ rest) read apart whole at_rest =
      let w : Byte = bytes_field.times (weight bytes_field p before) (weight bytes_field p rest) in
      let parts = subst (AreApart bytes_field) (sym whole) apart in
      let base : basis i p.0 0 1 (shares_of bytes all) ≡ some w.0 =
        ap (λ ps. basis i p.0 0 1 (shares_of bytes ps)) (sym whole)
        ∙ basis-weights i 0 p one_byte before rest (omega (arith, at_rest))
            (Apart-middle p before rest parts) (Apart-after p before rest parts)
        ∙ ap (λ (b : Byte). some b.0) (one_times bytes_field w) in
      let term : Byte = bytes_field.times (f p) w in
      let next =
        byte_sum-total b_idx (suc i) f (bytes_field.plus s term) all (before ++ p ∷ []) rest read
          apart (append_assoc before (p ∷ []) rest ∙ whole)
          (omega (arith, at_rest, length-append before (p ∷ []))) in
      rw (read p, base, byte_sum) next
      ∙ ap (λ (b : Byte). some b.0)
          (bytes_field.plus_assoc s term (total bytes_field f (before ++ p ∷ []) rest))
