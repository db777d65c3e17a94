-- ===== src/Runtime/Ring.antt =====
-- The ring of the shards (whisper/runtime.py, `_replica_shard_for`).
use whisper_network.Common.{
  ℕ, ◌+◌, ◌*◌, ◌-◌, ◌%◌, ◌≤◌, ◌≡◌, inl, inr, ◌∙◌, ap, arith, Bool-cases, ◌==◌, if◌then◌else◌,
}
use native.Mathlib.Nat.{mod-eq_of_lt, mod-eq-sub-mod}
use whisper_network.Runtime.Select.{replica_shard_for}

mod-add_self : (a n : ℕ) → (a + n) % n ≡ a % n
mod-add_self a n =
    mod-eq-sub-mod {n = a + n} {m = n} (omega arith)
    ∙ ap (λ x. x % n) (let e : a + n - n ≡ a = omega arith in e)

-- The replica of a shard is the node before its home, around the ring: node 1 is followed by the last.
pub replica_shard_for-ring :
    (n s : ℕ) → 1 ≤ s → s ≤ n → replica_shard_for s n ≡ (if s == 1 then n else s - 1)
unfolding replica_shard_for
replica_shard_for-ring n s low high = elim (Bool-cases (s == 1)) [
  | inl first ↦
      let e : s + 2 * n - 2 ≡ (n - 1) + n = ground arith in
      rw (first, e, mod-add_self (n - 1) n)
        (omega (arith, mod-eq_of_lt {n = n - 1} {m = n} (omega arith)))
  | inr other ↦
      let above : 2 ≤ s = ground arith in
      let e : s + 2 * n - 2 ≡ ((s - 2) + n) + n = omega arith in
      rw (other, e, mod-add_self ((s - 2) + n) n, mod-add_self (s - 2) n)
        (omega (arith, mod-eq_of_lt {n = s - 2} {m = n} (omega arith)))
]
