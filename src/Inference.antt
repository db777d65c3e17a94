-- ===== src/Inference.antt =====
-- The inference of whisper/inference.py. The request to the model service is a parameter; of the texts
-- that are sent the parts that vary are kept.
pub mod Fallback
use whisper_network.Common.{
  ℕ, zero, suc, ◌+◌, Bool, true, false, Option, none, some, List, [], ◌∷◌, ◌++◌, if◌then◌else◌, ltb,
}
use whisper_network.Common.Lists.{length, take, keep}
use whisper_network.Text.{Text, lower, strip, starts_with, occurs_in, contains_text, join}

-- The system prompts, by the capability in `_CAPABILITY_PROMPTS`.
pub data Prompt : Type 0 where
  reason summarize search default : Prompt

abbrev pub reason_text : Text
reason_text = 114 ∷ 101 ∷ 97 ∷ 115 ∷ 111 ∷ 110 ∷ []

abbrev pub summarize_text : Text
summarize_text = 115 ∷ 117 ∷ 109 ∷ 109 ∷ 97 ∷ 114 ∷ 105 ∷ 122 ∷ 101 ∷ []

abbrev pub search_text : Text
search_text = 115 ∷ 101 ∷ 97 ∷ 114 ∷ 99 ∷ 104 ∷ []

-- The first of the three capabilities that the node has.
unfoldable pub prompt_of : List Text → Prompt
prompt_of capabilities =
    if contains_text reason_text capabilities
    then reason
    else (if contains_text summarize_text capabilities
        then summarize
        else (if contains_text search_text capabilities then search else default))

-- "query:"
abbrev pub query_prefix : Text
query_prefix = 113 ∷ 117 ∷ 101 ∷ 114 ∷ 121 ∷ 58 ∷ []

-- `s[n:]`
abbrev pub drop : ℕ → Text → Text
drop zero s = s
drop (suc n) [] = []
drop (suc n) (c ∷ cs) = drop n cs

unfoldable pub query_of : Text → Text
query_of payload =
    let query = strip payload in
    if starts_with query_prefix (lower query) then strip (drop 6 query) else query

-- The user message: the context, `none` for "(no context available)", and the query.
pub record UserMessage : Type 0 where
  pub context : Option Text
  pub query : Text

unfoldable pub message_of : Text → List Text → UserMessage
message_of query [] = record { context = none; query = query }
message_of query (line ∷ lines) = record { context = some (join 10 (line ∷ lines)); query = query }

-- The f-strings that are returned.
pub data Answer : Type 0 where
  by_model : Text → Answer
  matched : ℕ → ℕ → Text → Answer
  no_matches : ℕ → Text → Answer

-- `" | ".join(matches)`
abbrev pub join_bars : List Text → Text
join_bars [] = []
join_bars (s ∷ []) = s
join_bars (s ∷ t ∷ ts) = s ++ 32 ∷ 124 ∷ 32 ∷ join_bars (t ∷ ts)

abbrev pub dots : Text
dots = 46 ∷ 46 ∷ 46 ∷ []

unfoldable pub shortened : Text → Text
shortened preview = if ltb 120 (length preview) then take 117 preview ++ dots else preview

unfoldable pub matching : Text → List Text → List Text
matching query lines = keep (λ line. occurs_in (lower query) (lower line)) lines

unfoldable pub answer_of : Text → ℕ → List Text → Answer
answer_of query shard_id [] = no_matches shard_id query
answer_of query shard_id (m ∷ ms) =
    matched shard_id (length (m ∷ ms)) (shortened (join_bars (take 3 (m ∷ ms))))

-- `_keyword_fallback`
unfoldable pub keyword_fallback : Text → List Text → ℕ → Answer
keyword_fallback query lines shard_id = answer_of query shard_id (matching query lines)

-- `run`; `post` gives the content of the service's answer, `none` for any exception.
unfoldable pub run :
    (Prompt → UserMessage → Option Text) → Text → List Text → List Text → ℕ → Answer
run post payload context_lines capabilities shard_id =
    let query = query_of payload in
    elim (post (prompt_of capabilities) (message_of query context_lines)) [
      | none ↦ keyword_fallback query context_lines shard_id
      | some content ↦ by_model (strip content)
    ]
