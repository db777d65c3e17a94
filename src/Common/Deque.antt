-- ===== src/Common/Deque.antt =====
-- `collections.deque(maxlen=n)` of identifiers, newest first: `append` drops the oldest when full.
use whisper_network.Common.Lists.{length, take, contains, length-take}
use Prim.Native.Nat.{ℕ, ◌≤◌}
use mathlib.Core.Path.{◌≡◌}
use mathlib.Core.Bool.{true}
use mathlib.Core.List.{List, ◌∷◌}
use native.Mathlib.Omega.{arith}

-- `SEEN_CACHE_SIZE`
abbrev pub seen_cache_size : ℕ
seen_cache_size = 1000

-- `self._seen_ids.append(x)`
unfoldable pub remember : ℕ → List ℕ → List ℕ
remember x xs = take seen_cache_size (x ∷ xs)

pub length-remember : (x : ℕ) (xs : List ℕ) → length (remember x xs) ≤ seen_cache_size
unfolding remember
length-remember x xs = omega (arith, length-take seen_cache_size (x ∷ xs))

pub contains-remember : (x : ℕ) (xs : List ℕ) → contains x (remember x xs) ≡ true
unfolding remember
contains-remember x xs = ground arith
