-- ===== src/Runtime/Loaded.antt =====
-- The shards that whisper/runtime.py has in memory after `_load_all_shards`.
use whisper_network.Common.{
  ℕ, zero, suc, ◌+◌, ◌<◌, ◌≤◌, ◌≡◌, ◌⊎◌, inl, inr, refl, ◌∙◌, Option, some, false, List, ◌==◌,
  arith, Bool-cases,
}
use whisper_network.Common.Dict.{Dict, lookup, insert, lookup-insert}
use whisper_network.Text.{Text}
use whisper_network.Runtime.Shards.{load_shard, load_all_shards}

load_all_shards-outside :
    (file : ℕ → Option Text) (i count j : ℕ) (shards : Dict (List Text))
    → (j < i) ⊎ (i + count ≤ j)
    → lookup j (load_all_shards file i count shards) ≡ lookup j shards
unfolding load_all_shards
load_all_shards-outside file i zero j shards out = refl
load_all_shards-outside file i (suc count) j shards out =
    let other : (j == i) ≡ false = grind arith in
    load_all_shards-outside file (suc i) count j (insert i (load_shard (file i)) shards)
      (grind arith)
    ∙ lookup-insert j i (load_shard (file i)) shards
    ∙ rw other refl

-- Each shard of the range is loaded from its file.
pub lookup-load_all_shards :
    (file : ℕ → Option Text) (i count j : ℕ) (shards : Dict (List Text))
    → i ≤ j
    → j < i + count
    → lookup j (load_all_shards file i count shards) ≡ some (load_shard (file j))
unfolding load_all_shards
lookup-load_all_shards file i zero j shards low high = absurd (omega (arith, low, high))
lookup-load_all_shards file i (suc count) j shards low high = elim (Bool-cases (j == i)) [
  | inl same ↦
      let ji : j ≡ i = ground arith in
      load_all_shards-outside file (suc i) count j (insert i (load_shard (file i)) shards)
        (inl (omega (arith, ji)))
      ∙ lookup-insert j i (load_shard (file i)) shards
      ∙ rw (same, ji) refl
  | inr other ↦
      lookup-load_all_shards file (suc i) count j (insert i (load_shard (file i)) shards)
        (ground arith) (omega (arith, high))
]
