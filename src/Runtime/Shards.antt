-- ===== src/Runtime/Shards.antt =====
-- The shard files of `AgentRuntime` (whisper/runtime.py): `_load_all_shards` and `execute`. A file is its
-- text, and the inference request is a parameter.
use whisper_network.Common.{ℕ, zero, suc, Option, none, some, List, [], ◌∷◌, if◌then◌else◌}
use whisper_network.Common.Dict.{Dict, lookup, insert}
use whisper_network.Text.{Text, strip, rstrip, is_blank, split}
use whisper_network.Inference.{Answer, Prompt, UserMessage, run}

-- `[l.rstrip() for l in f if l.strip()]`, over the lines of the text.
unfoldable pub shard_lines : List Text → List Text
shard_lines [] = []
shard_lines (l ∷ ls) =
    let rest = shard_lines ls in if is_blank (strip l) then rest else rstrip l ∷ rest

-- The lines of one shard; a missing file has none.
unfoldable pub load_shard : Option Text → List Text
load_shard none = []
load_shard (some text) = shard_lines (split 10 text)

-- `_load_all_shards`, for the `count` shards from `i` on; `file i` is the file of shard `i`.
unfoldable pub load_all_shards : (ℕ → Option Text) → ℕ → ℕ → Dict (List Text) → Dict (List Text)
load_all_shards file i zero shards = shards
load_all_shards file i (suc count) shards =
    load_all_shards file (suc i) count (insert i (load_shard (file i)) shards)

-- `self._shards.get(shard_id, [])`
abbrev pub lines_of : ℕ → Dict (List Text) → List Text
lines_of shard_id shards = elim (lookup shard_id shards) [ none ↦ [] | some lines ↦ lines ]

-- `execute`
unfoldable pub execute :
    (Prompt → UserMessage → Option Text) → Dict (List Text) → List Text → Text → ℕ → Answer
execute post shards capabilities payload shard_id =
    run post payload (lines_of shard_id shards) capabilities shard_id
