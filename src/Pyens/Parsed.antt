-- ===== src/Pyens/Parsed.antt =====
-- What `_parse_child_labels` of pyens/cli.py returns.
use mathlib.Core.List.{append_assoc, append-nil}
use whisper_network.Common.{
  ◌≡◌, ◌∙◌, sym, refl, ap, Bool, true, false, ◌||◌, none, some, List, [], ◌∷◌, ◌++◌, if◌then◌else◌,
  arith, Bool-cases, Option-cases, inl, inr, subst,
}
use whisper_network.Common.Lists.{All, All-append}
use whisper_network.Text.{
  Text, lower, strip, without_blanks, has_char, is_blank, ends_with, drop_suffix, text_eq,
  contains_text, join, text_eq_sym,
}
use whisper_network.Pyens.EnsHash.{dot}
use whisper_network.Pyens.Namehash.{IsPlain, lower-strip-IsPlain, without_blanks-IsPlain}
use whisper_network.Pyens.Labels.{
  is_separator, starts_separated, segments, label_of, add_label, collect_labels, parse_child_labels,
}

-- No text stands twice.
abbrev pub AreDistinct : List Text → Type 0
AreDistinct [] = Unit
AreDistinct (s ∷ ts) = (contains_text s ts ≡ false) × AreDistinct ts

abbrev pub IsLabel : Text → Type 0
IsLabel s = (is_blank s ≡ false) × (has_char dot s ≡ false)

contains_text-append :
    (s t : Text) (ts : List Text)
    → contains_text s (ts ++ t ∷ []) ≡ (contains_text s ts || text_eq s t)
contains_text-append s t [] = ground arith
contains_text-append s t (u ∷ us) = ground (arith, contains_text-append s t us)

pub AreDistinct-append :
    (s : Text) (ts : List Text)
    → contains_text s ts ≡ false
    → AreDistinct ts
    → AreDistinct (ts ++ s ∷ [])
AreDistinct-append s [] fresh distinct = (refl, tt)
AreDistinct-append s (t ∷ ts) fresh distinct = (
  ground (arith, distinct.0, contains_text-append t s ts, text_eq_sym s t),
  AreDistinct-append s ts (ground arith) distinct.1,
)

checked_label :
    (blank bad : Bool) (label s : Text)
    → (if blank then none else (if bad then none else some label)) ≡ some s
    → (label ≡ s) × (bad ≡ false)
checked_label true bad label s made = absurd (ground arith)
checked_label false true label s made = absurd (ground arith)
checked_label false false label s made = (ground arith, refl)

label_of-IsLabel : (suffix segment s : Text) → label_of suffix segment ≡ some s → IsLabel s
unfolding label_of
label_of-IsLabel suffix segment s made =
    let whole = without_blanks (lower (strip segment)) in
    let label = if ends_with suffix whole then drop_suffix suffix whole else whole in
    let (same, good) =
      checked_label (is_blank whole) (is_blank label || has_char dot label) label s made in
    subst IsLabel same (ground arith, ground arith)

collect_labels_lem :
    (suffix : Text) (segs out : List Text)
    → AreDistinct out
    → All IsLabel out
    → AreDistinct (collect_labels suffix segs out) × All IsLabel (collect_labels suffix segs out)
unfolding collect_labels add_label
collect_labels_lem suffix [] out distinct labels = (distinct, labels)
collect_labels_lem suffix (seg ∷ segs) out distinct labels =
    elim (Option-cases (label_of suffix seg)) [
      | inl skipped ↦
          rw (collect_labels, skipped) (collect_labels_lem suffix segs out distinct labels)
      | inr (s, made) ↦ elim (Bool-cases (contains_text s out)) [
        | inl known ↦
            rw (collect_labels, made, known) (collect_labels_lem suffix segs out distinct labels)
        | inr new ↦
            rw (collect_labels, made, new)
              (collect_labels_lem suffix segs (out ++ s ∷ [])
                (AreDistinct-append s out new distinct)
                (All-append IsLabel out (s ∷ []) labels (label_of-IsLabel suffix seg s made, tt)))
      ]
    ]

-- Whatever is given, the parsed labels are distinct, and each is not empty and has no dot.
pub parse_child_labels_lem :
    (raw parent_fqdn : Text)
    → AreDistinct (parse_child_labels raw parent_fqdn)
      × All IsLabel (parse_child_labels raw parent_fqdn)
unfolding parse_child_labels
parse_child_labels_lem raw parent_fqdn =
    collect_labels_lem (dot ∷ lower (strip parent_fqdn)) (segments raw) [] tt tt

-- A label that parsing leaves alone: plain, not empty, without dots and commas.
abbrev pub IsPlainLabel : Text → Type 0
IsPlainLabel s =
    IsPlain s × (is_blank s ≡ false) × (has_char dot s ≡ false) × (has_char 44 s ≡ false)

ends_with-single : (suffix s : Text) → has_char dot s ≡ false → ends_with (dot ∷ suffix) s ≡ false
ends_with-single suffix [] single = refl
ends_with-single suffix (c ∷ cs) single = ground (arith, ends_with-single suffix cs (ground arith))

label_of-IsPlainLabel : (suffix s : Text) → IsPlainLabel s → label_of (dot ∷ suffix) s ≡ some s
unfolding label_of
label_of-IsPlainLabel suffix s (plain, filled, single, one) =
    let prepared : without_blanks (lower (strip s)) ≡ s =
      ap without_blanks (lower-strip-IsPlain s plain) ∙ without_blanks-IsPlain s plain in
    rw (label_of, prepared, ends_with-single suffix s single, filled, single) refl

-- Plain text without commas has no separator.
segments-plain : (s : Text) → IsPlain s → has_char 44 s ≡ false → segments s ≡ s ∷ []
unfolding segments
segments-plain [] plain one = refl
segments-plain (c ∷ cs) plain one =
    let solid : is_separator c ≡ false = ground (arith, plain.0) in
    rw (segments, solid, segments-plain cs plain.1 (ground arith)) refl

segments-cons :
    (s rest : Text)
    → IsPlain s
    → has_char 44 s ≡ false
    → starts_separated rest ≡ false
    → segments (s ++ 44 ∷ rest) ≡ s ∷ segments rest
unfolding segments
segments-cons [] rest plain one begun = rw begun refl
segments-cons (c ∷ cs) rest plain one begun =
    let solid : is_separator c ≡ false = ground (arith, plain.0) in
    rw (segments, solid, segments-cons cs rest plain.1 (ground arith) begun) refl

join-begun :
    (s : Text) (labels : List Text)
    → IsPlainLabel s
    → starts_separated (join 44 (s ∷ labels)) ≡ false
join-begun [] labels h = absurd (ground (arith, h.1))
join-begun (c ∷ cs) [] h = ground (arith, h.0.0, h.3)
join-begun (c ∷ cs) (next ∷ labels) h = ground (arith, h.0.0, h.3)

segments-join :
    (s : Text) (labels : List Text)
    → All IsPlainLabel (s ∷ labels)
    → segments (join 44 (s ∷ labels)) ≡ s ∷ labels
segments-join s [] h = segments-plain s h.0.0 h.0.3
segments-join s (next ∷ labels) h =
    segments-cons s (join 44 (next ∷ labels)) h.0.0 h.0.3 (join-begun next labels h.1.0)
    ∙ ap (λ ss. s ∷ ss) (segments-join next labels h.1)

contains_text-later :
    (t s : Text) (ts rest : List Text)
    → contains_text t (ts ++ s ∷ rest) ≡ false
    → text_eq t s ≡ false
contains_text-later t s [] rest fresh = ground arith
contains_text-later t s (u ∷ us) rest fresh = contains_text-later t s us rest (ground arith)

AreDistinct-middle :
    (out : List Text) (s : Text) (rest : List Text)
    → AreDistinct (out ++ s ∷ rest)
    → contains_text s out ≡ false
AreDistinct-middle [] s rest distinct = refl
AreDistinct-middle (t ∷ ts) s rest distinct = ground (
  arith,
  contains_text-later t s ts rest,
  text_eq_sym s t,
  AreDistinct-middle ts s rest distinct.1,
  distinct.0,
)

collect_labels-plain :
    (suffix : Text) (labels out : List Text)
    → All IsPlainLabel labels
    → AreDistinct (out ++ labels)
    → collect_labels (dot ∷ suffix) labels out ≡ out ++ labels
unfolding collect_labels add_label
collect_labels-plain suffix [] out h distinct = sym (append-nil out)
collect_labels-plain suffix (s ∷ rest) out h distinct =
    let made = label_of-IsPlainLabel suffix s h.0 in
    let new = AreDistinct-middle out s rest distinct in
    let apart : AreDistinct ((out ++ s ∷ []) ++ rest) =
      subst AreDistinct (sym (append_assoc out (s ∷ []) rest)) distinct in
    rw (collect_labels, made, new) (collect_labels-plain suffix rest (out ++ s ∷ []) h.1 apart)
    ∙ append_assoc out (s ∷ []) rest

-- One or more distinct labels that are plain, not empty and without dots and commas: written with a
-- comma between them they parse to themselves, whatever the parent.
pub parse_child_labels-join :
    (s : Text) (labels : List Text) (parent_fqdn : Text)
    → All IsPlainLabel (s ∷ labels)
    → AreDistinct (s ∷ labels)
    → parse_child_labels (join 44 (s ∷ labels)) parent_fqdn ≡ s ∷ labels
unfolding parse_child_labels
parse_child_labels-join s labels parent_fqdn h distinct =
    ap (λ ss. collect_labels (dot ∷ lower (strip parent_fqdn)) ss []) (segments-join s labels h)
    ∙ collect_labels-plain (lower (strip parent_fqdn)) (s ∷ labels) [] h distinct
