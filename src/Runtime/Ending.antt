-- ===== src/Runtime/Ending.antt =====
-- How an execution of a task of ours ends, told by what the tools answer (whisper/runtime.py,
-- `_execute_one`).
use text.Mathlib.Text.{starts_with}
use Prim.Native.String.{◌++◌}
use whisper_network.Common.{
  ◌≤◌, ◌<◌, ◌≡◌, ◌⊎◌, ◌↔◌, inl, inr, ◌∙◌, ap, sym, none, some, true, false, List, arith,
  Option-cases, Bool-cases, String, ltb,
}
use whisper_network.Common.Lists.{length}
use whisper_network.Common.Dict.{lookup}
use whisper_network.Wire.{Task}
use whisper_network.Ledger.State.{Env, TaskLedger}
use whisper_network.Ledger.Ops.{finished, freed}
use whisper_network.Ledger.Effects.{
  Becomes, IsFinished, IsFreed, Writes-Becomes, finished-IsFinished, freed-IsFreed,
}
use whisper_network.Runtime.Text.{shard_note}
use whisper_network.Runtime.Execute.{
  Tools, Share, Outcome, complete_with, release, outcome_of_shares, threshold_outcome,
  encrypted_outcome, outcome, execute_one, is_threshold, is_encrypted,
}
use whisper_network.Runtime.Settle.{outcome_release, execute_one-settles}

-- The payload is under threshold encryption.
abbrev pub IsShared : Task → Type 0
IsShared t = (0 < t.threshold_t) × (starts_with t.payload "THRESHOLD:" ≡ true)

-- The payload is under the cipher of a shard.
abbrev pub IsSealed : Task → Type 0
IsSealed t = (t.encrypted ≡ true) × (starts_with t.payload "ENC:" ≡ true)

-- Shares were collected, and they are too few.
abbrev pub TooFew : Tools → Task → Type 0
TooFew k t =
    IsShared t
    × ((collect : Task → List Share) × (k.collect_shares ≡ some collect)
        × (length (collect t) < t.threshold_t))

-- The result of an execution that has one.
pub data Answers (k : Tools) (t : Task) (result : String) : Type 0 where
  plain : ¬ IsShared t → ¬ IsSealed t → result ≡ k.execute t.payload t.shard_id → Answers k t result
  rebuilt :
      {collect : Task → List Share} {text : String}
      → IsShared t
      → k.collect_shares ≡ some collect
      → t.threshold_t ≤ length (collect t)
      → k.reconstruct_and_decrypt t.payload (collect t) ≡ some text
      → result ≡ k.execute text t.shard_id
      → Answers k t result
  not_rebuilt :
      {collect : Task → List Share}
      → IsShared t
      → k.collect_shares ≡ some collect
      → t.threshold_t ≤ length (collect t)
      → k.reconstruct_and_decrypt t.payload (collect t) ≡ none
      → result
        ≡ shard_note t.shard_id
            (◌++◌ "[threshold decryption failed: " (◌++◌ (k.error_text t.payload (collect t)) "]"))
      → Answers k t result
  no_collector :
      IsShared t
      → k.collect_shares ≡ none
      → result ≡ shard_note t.shard_id "[threshold encrypted — no share collection fn]"
      → Answers k t result
  opened :
      {text : String}
      → ¬ IsShared t
      → IsSealed t
      → k.cipher_enabled ≡ true
      → k.decrypt t.payload ≡ some text
      → result ≡ k.execute text t.shard_id
      → Answers k t result
  not_opened :
      ¬ IsShared t
      → IsSealed t
      → k.cipher_enabled ≡ true
      → k.decrypt t.payload ≡ none
      → result ≡ shard_note t.shard_id "[encrypted payload — home node offline]"
      → Answers k t result
  no_key :
      ¬ IsShared t
      → IsSealed t
      → k.cipher_enabled ≡ false
      → result ≡ shard_note t.shard_id "[encrypted payload — no key configured]"
      → Answers k t result

is_threshold_iff : (t : Task) → (is_threshold t ≡ true) ↔ IsShared t
unfolding is_threshold
is_threshold_iff t = (λ h. (ground arith, ground arith), λ h. ground arith)

is_encrypted_iff : (t : Task) → (is_encrypted t ≡ true) ↔ IsSealed t
unfolding is_encrypted
is_encrypted_iff t = (λ h. (ground arith, ground arith), λ h. ground arith)

text_of : Outcome → String → String
text_of (complete_with result) other = result
text_of release other = other

complete_with_inj : (a b : String) → complete_with a ≡ complete_with b → a ≡ b
unfolding text_of
complete_with_inj a b e = ap (λ o. text_of o a) e

module _ (k : Tools) (t : Task) (result : String) where
  threshold-Answers : IsShared t → threshold_outcome k t ≡ complete_with result → Answers k t result
  unfolding threshold_outcome outcome_of_shares
  threshold-Answers shared ends = elim (Option-cases k.collect_shares) [
    | inl missing ↦ no_collector shared missing (
        sym (
          complete_with_inj (shard_note t.shard_id "[threshold encrypted — no share collection fn]")
            result (rw missing at ends)))
    | inr (collect, there) ↦ elim (Bool-cases (ltb (length (collect t)) t.threshold_t)) [
      | inl few ↦ absurd (ground arith)
      | inr enough ↦ elim (Option-cases (k.reconstruct_and_decrypt t.payload (collect t))) [
        | inl broken ↦ not_rebuilt shared there (ground arith) broken (ground arith)
        | inr (text, built) ↦ rebuilt shared there (ground arith) built (ground arith)
      ]
    ]
  ]

  encrypted-Answers :
      ¬ IsShared t → IsSealed t → encrypted_outcome k t ≡ complete_with result → Answers k t result
  unfolding encrypted_outcome
  encrypted-Answers bare sealed ends = elim (Bool-cases k.cipher_enabled) [
    | inr off ↦ no_key bare sealed off (ground arith)
    | inl on ↦ elim (Option-cases (k.decrypt t.payload)) [
      | inl broken ↦ not_opened bare sealed on broken (ground arith)
      | inr (text, made) ↦ opened bare sealed on made (ground arith)
    ]
  ]

  outcome-Answers : outcome k t ≡ complete_with result → Answers k t result
  unfolding outcome
  outcome-Answers ends = elim (Bool-cases (is_threshold t)) [
    | inl shared ↦ threshold-Answers ((is_threshold_iff t).0 shared) (rw shared at ends)
    | inr other ↦
        let bare : ¬ IsShared t =
          λ h. let yes : is_threshold t ≡ true = (is_threshold_iff t).1 h in cc in
        elim (Bool-cases (is_encrypted t)) [
          | inl sealed ↦
              encrypted-Answers bare ((is_encrypted_iff t).0 sealed)
                (let e : encrypted_outcome k t ≡ complete_with result = ground arith in e)
          | inr clear ↦
              plain bare (λ h. let yes : is_encrypted t ≡ true = (is_encrypted_iff t).1 h in cc)
                (ground arith)
        ]
  ]

-- An execution of a task that is ours when it starts. If its payload is under threshold encryption and
-- the shares that are collected are fewer than the threshold, its entry becomes the same task pending,
-- with no holder, the lease time 0 and a version higher by one. In every other case its entry becomes the
-- same task completed now, with the digest and a version higher by one, and its result is that of the
-- inference on the plain payload, or the note of why there is none. All other fields and entries stay.
pub execute_one-Ending :
    (e : Env) (k : Tools) (s : TaskLedger) {t : Task}
    → lookup t.task_id s.tasks ≡ some t
    → t.leased_by ≡ some s.our_key
    → (TooFew k t × Becomes (IsFreed t) t.task_id s (execute_one e k t s))
      ⊎ ((¬ TooFew k t)
          × ((result : String) × Answers k t result
              × Becomes (IsFinished e result t) t.task_id s (execute_one e k t s)))
execute_one-Ending e k s {t} known ours =
    let s' = execute_one e k t s in
    let (why, back) = outcome_release k t in
    elim (execute_one-settles e k s known ours) [
      | inl (result, ends, writes) ↦ inr (
        λ few.
            let gives : outcome k t ≡ release = back ((is_threshold_iff t).1 few.0, few.1) in
            absurd (let clash : complete_with result ≡ release = sym ends ∙ gives in cc),
        (
          result,
          outcome-Answers k t result ends,
          Writes-Becomes (IsFinished e result t) t.task_id (finished e result t) s s'
              (finished-IsFinished e result t) writes,
        ),
      )
      | inr (gives, writes) ↦ inl (
        ((is_threshold_iff t).0 (why gives).0, (why gives).1),
        Writes-Becomes (IsFreed t) t.task_id (freed t) s s' (freed-IsFreed t) writes,
      )
    ]
