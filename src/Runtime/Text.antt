-- ===== src/Runtime/Text.antt =====
-- The texts that whisper/runtime.py builds as results: f-strings over the shard number.
use Prim.Native.String.{String, ◌++◌}
use whisper_network.Common.{ℕ, zero, suc, ◌+◌, ◌/◌, ◌%◌, if◌then◌else◌, ltb}

abbrev digit : ℕ → String
digit zero = "0"
digit (suc zero) = "1"
digit (suc (suc zero)) = "2"
digit (suc (suc (suc zero))) = "3"
digit (suc (suc (suc (suc zero)))) = "4"
digit (suc (suc (suc (suc (suc zero))))) = "5"
digit (suc (suc (suc (suc (suc (suc zero)))))) = "6"
digit (suc (suc (suc (suc (suc (suc (suc zero))))))) = "7"
digit (suc (suc (suc (suc (suc (suc (suc (suc zero)))))))) = "8"
digit _ = "9"

-- Decimal digits; the fuel `n + 1` is enough for `n`.
unfoldable pub digits : ℕ → ℕ → String
digits zero n = ""
digits (suc fuel) n =
    let higher = digits fuel (n / 10) ++ digit (n % 10) in if ltb n 10 then digit n else higher

-- `f"shard-{shard_id}: {note}"`
unfoldable pub shard_note : ℕ → String → String
shard_note shard_id note = "shard-" ++ digits (shard_id + 1) shard_id ++ ": " ++ note
