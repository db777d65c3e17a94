-- ===== src/Text.antt =====
-- Python's `str` methods on ASCII text, which is a list of code points.
use whisper_network.Common.{
  ℕ, ◌+◌, ◌≡◌, ◌∙◌, refl, ap, Bool, true, false, not, ◌&&◌, ◌||◌, List, [], ◌∷◌, ◌++◌, map, ◌==◌,
  leb, if◌then◌else◌, arith,
}
use whisper_network.Common.Lists.{keep}

abbrev pub Text : Type 0
Text = List ℕ

-- `str.isspace` on one ASCII character.
abbrev pub is_space : ℕ → Bool
is_space c = leb 9 c && leb c 13 || leb 28 c && leb c 32

abbrev pub lower_char : ℕ → ℕ
lower_char c = if leb 65 c && leb c 90 then c + 32 else c

-- `s.lower()`
abbrev pub lower : Text → Text
lower = map lower_char

abbrev pub lstrip : Text → Text
lstrip [] = []
lstrip (c ∷ cs) = if is_space c then lstrip cs else c ∷ cs

-- All that follows `cs` is blank, so that it goes with the blanks at its end.
abbrev pub rstrip_cons : ℕ → Text → Text
rstrip_cons c [] = if is_space c then [] else c ∷ []
rstrip_cons c (d ∷ ds) = c ∷ d ∷ ds

abbrev pub rstrip : Text → Text
rstrip [] = []
rstrip (c ∷ cs) = rstrip_cons c (rstrip cs)

-- `s.strip()`
abbrev pub strip : Text → Text
strip s = rstrip (lstrip s)

-- `s.replace(" ", "")`
abbrev pub without_blanks : Text → Text
without_blanks s = keep (λ c. not (c == 32)) s

-- `s == t`
abbrev pub text_eq : Text → Text → Bool
text_eq [] [] = true
text_eq [] (d ∷ ds) = false
text_eq (c ∷ cs) [] = false
text_eq (c ∷ cs) (d ∷ ds) = c == d && text_eq cs ds

-- `s.startswith(prefix)`, the prefix first.
abbrev pub starts_with : Text → Text → Bool
starts_with [] s = true
starts_with (c ∷ cs) [] = false
starts_with (c ∷ cs) (d ∷ ds) = c == d && starts_with cs ds

-- `part in s`
abbrev pub occurs_in : Text → Text → Bool
occurs_in part [] = starts_with part []
occurs_in part (c ∷ cs) = starts_with part (c ∷ cs) || occurs_in part cs

-- `s.endswith(suffix)`, the suffix first.
abbrev pub ends_with : Text → Text → Bool
ends_with suffix [] = text_eq suffix []
ends_with suffix (c ∷ cs) = text_eq suffix (c ∷ cs) || ends_with suffix cs

-- `s[: -len(suffix)]` for a text that ends with the suffix.
abbrev pub drop_suffix : Text → Text → Text
drop_suffix suffix [] = []
drop_suffix suffix (c ∷ cs) =
    let rest = drop_suffix suffix cs in if text_eq suffix (c ∷ cs) then [] else c ∷ rest

-- `c in s` for one character.
abbrev pub has_char : ℕ → Text → Bool
has_char c [] = false
has_char c (d ∷ ds) = c == d || has_char c ds

abbrev pub is_blank : Text → Bool
is_blank [] = true
is_blank (c ∷ cs) = false

-- `s in xs`
abbrev pub contains_text : Text → List Text → Bool
contains_text s [] = false
contains_text s (t ∷ ts) = text_eq s t || contains_text s ts

-- The first part of a split, made longer.
abbrev cons_first : ℕ → List Text → List Text
cons_first c [] = (c ∷ []) ∷ []
cons_first c (part ∷ parts) = (c ∷ part) ∷ parts

-- `s.split(sep)` for one character.
abbrev pub split : ℕ → Text → List Text
split sep [] = [] ∷ []
split sep (c ∷ cs) = let rest = split sep cs in if c == sep then [] ∷ rest else cons_first c rest

-- `sep.join(parts)` for one character.
abbrev pub join : ℕ → List Text → Text
join sep [] = []
join sep (part ∷ []) = part
join sep (part ∷ next ∷ parts) = part ++ sep ∷ join sep (next ∷ parts)

pub eq_of_text_eq : (s t : Text) → text_eq s t ≡ true → s ≡ t
eq_of_text_eq [] [] e = refl
eq_of_text_eq [] (d ∷ ds) e = absurd (ground arith)
eq_of_text_eq (c ∷ cs) [] e = absurd (ground arith)
eq_of_text_eq (c ∷ cs) (d ∷ ds) e =
    let same : c ≡ d = ground arith in
    let rest : cs ≡ ds = eq_of_text_eq cs ds (ground arith) in
    ap (λ x. x ∷ cs) same ∙ ap (λ xs. d ∷ xs) rest

pub text_eq_refl : (s : Text) → text_eq s s ≡ true
text_eq_refl [] = refl
text_eq_refl (c ∷ cs) = ground (arith, text_eq_refl cs)

pub text_eq_sym : (s t : Text) → text_eq s t ≡ text_eq t s
text_eq_sym [] [] = refl
text_eq_sym [] (d ∷ ds) = refl
text_eq_sym (c ∷ cs) [] = refl
text_eq_sym (c ∷ cs) (d ∷ ds) = ground (arith, text_eq_sym cs ds)
