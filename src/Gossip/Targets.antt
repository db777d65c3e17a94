-- ===== src/Gossip/Targets.antt =====
-- Whom a gossip message is sent to (`_fanout_raw` of whisper/ledger.py, `_fanout` of
-- whisper/membership.py).
use Prim.Native.Nat.{min}
use whisper_network.Common.{
  subst, ℕ, zero, suc, ◌+◌, ◌<◌, ◌≤◌, ◌≡◌, refl, ◌∙◌, ap, Bool, true, List, [], ◌∷◌, arith, not,
  ◌++◌,
}
use whisper_network.Common.Lists.{
  length, take, keep, contains, count, count_if, length-keep, length-take, length-append,
  contains_of_count, contains-eq-count, contains-keep,
}
use whisper_network.Gossip.{fanout_targets, IsShuffle, gossip_fanout}

count-append : (x : ℕ) (xs ys : List ℕ) → count x (xs ++ ys) ≡ count x xs + count x ys
count-append x [] ys = omega arith
count-append x (y ∷ xs) ys = ground (arith, count-append x xs ys)

count-take-le : (x n : ℕ) (xs : List ℕ) → count x (take n xs) ≤ count x xs
count-take-le x zero xs = omega arith
count-take-le x (suc n) [] = omega arith
count-take-le x (suc n) (y ∷ xs) = ground (arith, count-take-le x n xs)

count-keep-not :
    (x : ℕ) (p : ℕ → Bool) (xs : List ℕ)
    → count x (keep p xs) + count x (keep (λ k. not (p k)) xs) ≡ count x xs
count-keep-not x p [] = refl
count-keep-not x p (y ∷ xs) = ground (arith, count-keep-not x p xs)

length-keep-not :
    (p : ℕ → Bool) (xs : List ℕ)
    → length (keep p xs) + length (keep (λ k. not (p k)) xs) ≡ length xs
length-keep-not p [] = refl
length-keep-not p (y ∷ xs) = ground (arith, length-keep-not p xs)

take-append : (n : ℕ) (xs ys : List ℕ) → n ≤ length xs → take n (xs ++ ys) ≡ take n xs
take-append zero xs ys h = refl
take-append (suc n) [] ys h = absurd (omega arith)
take-append (suc n) (x ∷ xs) ys h = ap (◌∷◌ x) (take-append n xs ys (omega arith))

module _ (f g : List ℕ → List ℕ) (shuffles : IsShuffle f) (shuffles' : IsShuffle g)
    (peers axl : List ℕ) where
  -- If the shuffles only change the order, a fan-out sends to as many peers as there are, up to three.
  pub length-fanout_targets :
      length (fanout_targets f g peers axl) ≡ min gossip_fanout (length peers)
  unfolding fanout_targets
  length-fanout_targets =
      let near = keep (λ k. contains k axl) peers in
      let far = keep (λ k. not (contains k axl)) peers in
      length-take gossip_fanout (f near ++ g far)
      ∙ omega (
        arith,
        length-append (f near) (g far),
        shuffles.same_length near,
        shuffles'.same_length far,
        length-keep-not (λ k. contains k axl) peers,
      )

  -- If the shuffles only change the order, each target is one of the given peers, and is sent to at most as often as it is listed there: to
  -- once, if the peers are distinct.
  pub count-fanout_targets-le : (x : ℕ) → count x (fanout_targets f g peers axl) ≤ count x peers
  unfolding fanout_targets
  count-fanout_targets-le x =
      let near = keep (λ k. contains k axl) peers in
      let far = keep (λ k. not (contains k axl)) peers in
      omega (
        arith,
        count-take-le x gossip_fanout (f near ++ g far),
        count-append x (f near) (g far),
        shuffles.same_items near x,
        shuffles'.same_items far x,
        count-keep-not x (λ k. contains k axl) peers,
      )

  -- If the shuffles only change the order, direct neighbours come first: with three or more of them among the peers, every target is one.
  pub fanout_targets_near :
      gossip_fanout ≤ count_if (λ k. contains k axl) peers
      → (x : ℕ) → contains x (fanout_targets f g peers axl) ≡ true
      → contains x axl ≡ true
  unfolding fanout_targets
  fanout_targets_near many x chosen =
      let near = keep (λ k. contains k axl) peers in
      let far = keep (λ k. not (contains k axl)) peers in
      let enough : gossip_fanout ≤ length (f near) =
        omega (arith, shuffles.same_length near, length-keep (λ k. contains k axl) peers) in
      let chosen' : contains x (take gossip_fanout (f near)) ≡ true =
        subst (λ l. contains x l ≡ true) (take-append gossip_fanout (f near) (g far) enough)
          chosen in
      let listed : 0 < count x near = omega (
        arith,
        contains-eq-count x (take gossip_fanout (f near)) chosen',
        count-take-le x gossip_fanout (f near),
        shuffles.same_items near x,
      ) in
      ground (arith, contains_of_count x near listed, contains-keep x (λ k. contains k axl) peers)
