-- ===== src/Pyens/Indexed.antt =====
-- What `names_under_axl` of pyens/subgraph.py returns.
use whisper_network.Common.{
  ◌≡◌, refl, true, false, ◌||◌, Option, some, List, [], ◌∷◌, ◌++◌, arith, Bool-cases, Option-cases,
  inl, inr,
}
use whisper_network.Common.Lists.{All, All-append, All-map}
use whisper_network.Text.{Text, lower, strip, is_blank, text_eq, ends_with, contains_text}
use whisper_network.Pyens.EnsHash.{dot}
use whisper_network.Pyens.Labels.{
  or_blank, indexed_name, add_label, collect_names, text_before, insert_sorted, sorted,
  names_under_axl,
}
use whisper_network.Pyens.Parsed.{AreDistinct, AreDistinct-append}

-- A name below the root.
abbrev pub IsUnder : Text → Text → Type 0
IsUnder root_name s = ends_with (dot ∷ root_name) s ≡ true

indexed_name-IsUnder :
    (root_name : Text) (row : Option Text) (s : Text)
    → indexed_name root_name row ≡ some s
    → IsUnder root_name s
unfolding indexed_name
indexed_name-IsUnder root_name row s made =
    let n = lower (strip (or_blank row)) in
    elim (Bool-cases (is_blank n || text_eq n root_name)) [
      | inl skipped ↦ absurd (ground arith)
      | inr named ↦ elim (Bool-cases (ends_with (dot ∷ root_name) n)) [
        | inl under ↦ ground arith
        | inr outside ↦ absurd (ground arith)
      ]
    ]

collect_names_lem :
    (root_name : Text) (rows : List (Option Text)) (out : List Text)
    → AreDistinct out
    → All (IsUnder root_name) out
    → AreDistinct (collect_names root_name rows out)
      × All (IsUnder root_name) (collect_names root_name rows out)
unfolding collect_names add_label
collect_names_lem root_name [] out distinct under = (distinct, under)
collect_names_lem root_name (row ∷ rows) out distinct under =
    elim (Option-cases (indexed_name root_name row)) [
      | inl skipped ↦
          rw (collect_names, skipped) (collect_names_lem root_name rows out distinct under)
      | inr (s, made) ↦ elim (Bool-cases (contains_text s out)) [
        | inl known ↦
            rw (collect_names, made, known) (collect_names_lem root_name rows out distinct under)
        | inr new ↦
            rw (collect_names, made, new)
              (collect_names_lem root_name rows (out ++ s ∷ [])
                (AreDistinct-append s out new distinct)
                (All-append (IsUnder root_name) out (s ∷ []) under
                  (indexed_name-IsUnder root_name row s made, tt)))
      ]
    ]

All-insert_sorted :
    (P : Text → Type 0) (s : Text) (ts : List Text) → P s → All P ts → All P (insert_sorted s ts)
All-insert_sorted P s [] h hs = (h, tt)
All-insert_sorted P s (t ∷ ts) h hs = elim (Bool-cases (text_before t s)) [
  | inl later ↦ rw later (hs.0, All-insert_sorted P s ts h hs.1)
  | inr here ↦ rw here (h, hs)
]

All-sorted : (P : Text → Type 0) (ts : List Text) → All P ts → All P (sorted ts)
All-sorted P [] hs = tt
All-sorted P (s ∷ ts) hs = All-insert_sorted P s (sorted ts) hs.0 (All-sorted P ts hs.1)

-- Each text is not after the next one.
abbrev pub IsSorted : List Text → Type 0
IsSorted [] = Unit
IsSorted (s ∷ ts) = All (λ t. text_before t s ≡ false) ts × IsSorted ts

text_before_trans :
    (s t u : Text) → text_before t s ≡ false → text_before u t ≡ false → text_before u s ≡ false
text_before_trans [] t u p q = refl
text_before_trans (c ∷ cs) [] u p q = absurd (ground arith)
text_before_trans (c ∷ cs) (d ∷ ds) [] p q = absurd (ground arith)
text_before_trans (c ∷ cs) (d ∷ ds) (e ∷ es) p q = ground (arith, text_before_trans cs ds es)

text_before_asym : (s t : Text) → text_before s t ≡ true → text_before t s ≡ false
text_before_asym s [] h = absurd (ground arith)
text_before_asym [] (d ∷ ds) h = refl
text_before_asym (c ∷ cs) (d ∷ ds) h = ground (arith, text_before_asym cs ds)

insert_sorted-IsSorted : (s : Text) (ts : List Text) → IsSorted ts → IsSorted (insert_sorted s ts)
insert_sorted-IsSorted s [] h = (tt, tt)
insert_sorted-IsSorted s (t ∷ ts) h = elim (Bool-cases (text_before t s)) [
  | inl later ↦ rw later (
    All-insert_sorted (λ x. text_before x t ≡ false) s ts (text_before_asym t s later) h.0,
    insert_sorted-IsSorted s ts h.1,
  )
  | inr here ↦ rw here (
    (
      here,
      All-map (λ x. text_before x t ≡ false) (λ x. text_before x s ≡ false) ts
          (λ x after. text_before_trans s t x here after) h.0,
    ),
    h,
  )
]

sorted-IsSorted : (ts : List Text) → IsSorted (sorted ts)
sorted-IsSorted [] = tt
sorted-IsSorted (s ∷ ts) = insert_sorted-IsSorted s (sorted ts) (sorted-IsSorted ts)

-- Whatever the indexer returns, the listed names are in order, and each ends with the root's name after
-- a dot.
pub names_under_axl_lem :
    (root_name : Text) (domains : List (Option Text))
    → IsSorted (names_under_axl root_name domains)
      × All (IsUnder root_name) (names_under_axl root_name domains)
unfolding names_under_axl
names_under_axl_lem root_name domains = (
  sorted-IsSorted (collect_names root_name domains []),
  All-sorted (IsUnder root_name) (collect_names root_name domains [])
      (collect_names_lem root_name domains [] tt tt).1,
)
