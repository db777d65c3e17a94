-- ===== src/Pyens/Labels.antt =====
-- The lists of names in pyens: `_parse_child_labels` of pyens/cli.py and `names_under_axl` of
-- pyens/subgraph.py. A set is kept as the list of its members in the order in which they came.
use whisper_network.Common.{
  ℕ, Bool, true, false, ◌||◌, ◌&&◌, not, Option, none, some, List, [], ◌∷◌, ◌++◌, ◌==◌,
  if◌then◌else◌, ltb,
}
use whisper_network.Text.{
  Text, lower, strip, without_blanks, has_char, is_blank, ends_with, drop_suffix, text_eq,
  contains_text,
}
use whisper_network.Pyens.EnsHash.{dot}

-- The class `[\n,]`.
abbrev pub is_separator : ℕ → Bool
is_separator c = c == 10 || c == 44

abbrev pub starts_separated : Text → Bool
starts_separated [] = false
starts_separated (c ∷ cs) = is_separator c

abbrev pub begin_segment : ℕ → List Text → List Text
begin_segment c [] = (c ∷ []) ∷ []
begin_segment c (part ∷ parts) = (c ∷ part) ∷ parts

-- `re.split(r"[\n,]+", raw)`: a run of separators is one cut.
unfoldable pub segments : Text → List Text
segments [] = [] ∷ []
segments (c ∷ cs) =
    let rest = segments cs in
    if is_separator c
    then (if starts_separated cs then rest else [] ∷ rest)
    else begin_segment c rest

-- The label that one segment gives, if any.
unfoldable pub label_of : Text → Text → Option Text
label_of suffix segment =
    let s = without_blanks (lower (strip segment)) in
    let label = if ends_with suffix s then drop_suffix suffix s else s in
    if is_blank s then none else (if is_blank label || has_char dot label then none else some label)

unfoldable pub add_label : Option Text → List Text → List Text
add_label none out = out
add_label (some s) out = if contains_text s out then out else out ++ s ∷ []

-- The loop over the segments.
unfoldable pub collect_labels : Text → List Text → List Text → List Text
collect_labels suffix [] out = out
collect_labels suffix (segment ∷ rest) out =
    collect_labels suffix rest (add_label (label_of suffix segment) out)

unfoldable pub parse_child_labels : Text → Text → List Text
parse_child_labels raw parent_fqdn =
    collect_labels (dot ∷ lower (strip parent_fqdn)) (segments raw) []

-- `row.get("name") or ""`
abbrev pub or_blank : Option Text → Text
or_blank none = []
or_blank (some name) = name

unfoldable pub indexed_name : Text → Option Text → Option Text
indexed_name root_name row =
    let n = lower (strip (or_blank row)) in
    if is_blank n || text_eq n root_name
    then none
    else (if not (ends_with (dot ∷ root_name) n) then none else some n)

unfoldable pub collect_names : Text → List (Option Text) → List Text → List Text
collect_names root_name [] out = out
collect_names root_name (row ∷ rows) out =
    collect_names root_name rows (add_label (indexed_name root_name row) out)

-- The order of texts by code points.
abbrev pub text_before : Text → Text → Bool
text_before s [] = false
text_before [] (d ∷ ds) = true
text_before (c ∷ cs) (d ∷ ds) = ltb c d || c == d && text_before cs ds

abbrev pub insert_sorted : Text → List Text → List Text
insert_sorted s [] = s ∷ []
insert_sorted s (t ∷ ts) = if text_before t s then t ∷ insert_sorted s ts else s ∷ t ∷ ts

-- `out.sort()`
abbrev pub sorted : List Text → List Text
sorted [] = []
sorted (s ∷ ts) = insert_sorted s (sorted ts)

unfoldable pub names_under_axl : Text → List (Option Text) → List Text
names_under_axl root_name domains = sorted (collect_names root_name domains [])
