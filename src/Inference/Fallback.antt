-- ===== src/Inference/Fallback.antt =====
-- The keyword search of whisper/inference.py.
use whisper_network.Common.{
  ℕ, ◌<◌, ◌≤◌, ◌≡◌, ◌⊎◌, inl, inr, refl, Option, none, List, [], ◌∷◌, ltb, arith, Bool-cases,
}
use whisper_network.Common.Lists.{
  length, take, keep, count_if, length-take, length-append, length-keep,
}
use whisper_network.Text.{Text, lower, occurs_in}
use whisper_network.Inference.{
  Prompt, UserMessage, matched, no_matches, dots, shortened, matching, answer_of, keyword_fallback,
  run, query_of, prompt_of, message_of, join_bars,
}

length-shortened : (s : Text) → length (shortened s) ≤ 120
unfolding shortened
length-shortened s = elim (Bool-cases (ltb 120 (length s))) [
  | inl long ↦ rw long (omega (arith, length-append (take 117 s) dots, length-take 117 s))
  | inr short ↦ rw short (ground arith)
]

-- How many lines contain the query, both in lower case.
abbrev pub matches_in : Text → List Text → ℕ
matches_in query lines = count_if (λ line. occurs_in (lower query) (lower line)) lines

answer_of-cases :
    (query : Text) (shard_id : ℕ) (ms : List Text)
    → ((length ms ≡ 0) × (answer_of query shard_id ms ≡ no_matches shard_id query))
      ⊎ ((preview : Text) × (length preview ≤ 120)
          × (0 < length ms)
          × (answer_of query shard_id ms ≡ matched shard_id (length ms) preview))
unfolding answer_of
answer_of-cases query shard_id [] = inl (refl, refl)
answer_of-cases query shard_id (m ∷ ms) = inr (
  shortened (join_bars (take 3 (m ∷ ms))),
  length-shortened (join_bars (take 3 (m ∷ ms))),
  omega arith,
  refl,
)

-- When the model service fails in any way: the answer says that nothing matches if no line of the shard
-- contains the query, and else reports the number of such lines with a preview of at most 120
-- characters.
pub run-unreachable :
    (post : Prompt → UserMessage → Option Text) (payload : Text) (lines capabilities : List Text)
    (shard_id : ℕ)
    → post (prompt_of capabilities) (message_of (query_of payload) lines) ≡ none
    → let n = matches_in (query_of payload) lines in
      ((n ≡ 0)
        × (run post payload lines capabilities shard_id ≡ no_matches shard_id (query_of payload)))
      ⊎ ((preview : Text) × (length preview ≤ 120)
          × (0 < n)
          × (run post payload lines capabilities shard_id ≡ matched shard_id n preview))
unfolding run keyword_fallback matching
run-unreachable post payload lines capabilities shard_id failed =
    let query = query_of payload in
    let ms = keep (λ line. occurs_in (lower query) (lower line)) lines in
    let counted : length ms ≡ matches_in query lines =
      length-keep (λ line. occurs_in (lower query) (lower line)) lines in
    rw (run, failed) (rw⁻¹ counted (answer_of-cases query shard_id ms))
