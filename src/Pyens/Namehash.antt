-- ===== src/Pyens/Namehash.antt =====
-- The node of a new subname (pyens/registry_tx.py) and the hash of its name (pyens/ens_hash.py).
use whisper_network.Common.{
  ℕ, ◌≡◌, ◌∙◌, sym, refl, ap, Bool, true, false, not, ◌&&◌, some, List, [], ◌∷◌, ◌++◌, ◌==◌, arith,
  Bool-cases, Option-cases, inl, inr,
}
use whisper_network.Common.Lists.{All, All-append}
use whisper_network.Text.{
  Text, is_space, lower_char, lower, lstrip, rstrip, rstrip_cons, strip, without_blanks, has_char,
  is_blank, split, join,
}
use whisper_network.Pyens.EnsHash.{
  EthTools, SubnodeRecord, dot, norm_name, hash_labels, namehash_bytes, labelhash_bytes,
  encode_parts, encode_set_subnode_record_calldata,
}

-- Characters that stripping, lowering and the removal of blanks leave alone.
abbrev pub is_plain : ℕ → Bool
is_plain c = not (is_space c) && lower_char c == c

abbrev pub IsPlain : Text → Type 0
IsPlain s = All (λ c. is_plain c ≡ true) s

lstrip-IsPlain : (s : Text) → IsPlain s → lstrip s ≡ s
lstrip-IsPlain [] plain = refl
lstrip-IsPlain (c ∷ cs) plain = let solid : is_space c ≡ false = grind arith in rw solid refl

rstrip-IsPlain : (s : Text) → IsPlain s → rstrip s ≡ s
rstrip-IsPlain [] plain = refl
rstrip-IsPlain (c ∷ []) plain = let solid : is_space c ≡ false = grind arith in rw solid refl
rstrip-IsPlain (c ∷ d ∷ ds) plain = ap (rstrip_cons c) (rstrip-IsPlain (d ∷ ds) plain.1)

lower-IsPlain : (s : Text) → IsPlain s → lower s ≡ s
lower-IsPlain [] plain = refl
lower-IsPlain (c ∷ cs) plain =
    let same : lower_char c ≡ c = ground (arith, plain.0) in
    ap (λ x. x ∷ lower cs) same ∙ ap (λ xs. c ∷ xs) (lower-IsPlain cs plain.1)

pub without_blanks-IsPlain : (s : Text) → IsPlain s → without_blanks s ≡ s
without_blanks-IsPlain [] plain = refl
without_blanks-IsPlain (c ∷ cs) plain =
    let solid : (c == 32) ≡ false = ground (arith, plain.0) in
    rw solid (ap (λ xs. c ∷ xs) (without_blanks-IsPlain cs plain.1))

pub lower-strip-IsPlain : (s : Text) → IsPlain s → lower (strip s) ≡ s
lower-strip-IsPlain s plain =
    ap (λ x. lower (rstrip x)) (lstrip-IsPlain s plain)
    ∙ ap lower (rstrip-IsPlain s plain)
    ∙ lower-IsPlain s plain

split-cons :
    (label parent : Text)
    → has_char dot label ≡ false
    → split dot (label ++ dot ∷ parent) ≡ label ∷ split dot parent
split-cons [] parent single = refl
split-cons (c ∷ cs) parent single =
    let other : (c == dot) ≡ false = ground arith in
    let rest : split dot (cs ++ dot ∷ parent) ≡ cs ∷ split dot parent =
      split-cons cs parent (ground arith) in
    rw (other, rest) refl

split-some : (s : Text) → (part : Text) × ((parts : List Text) × (split dot s ≡ part ∷ parts))
split-some [] = ([], ([], refl))
split-some (c ∷ cs) =
    let (part, (parts, same)) = split-some cs in
    elim (Bool-cases (c == dot)) [
      | inl sep ↦ rw sep ([], (split dot cs, refl))
      | inr other ↦ rw (other, same) (c ∷ part, (parts, refl))
    ]

join-cons :
    (c : ℕ) (part : Text) (parts : List Text)
    → join dot ((c ∷ part) ∷ parts) ≡ c ∷ join dot (part ∷ parts)
join-cons c part [] = refl
join-cons c part (next ∷ parts) = refl

join-split : (s : Text) → join dot (split dot s) ≡ s
join-split [] = refl
join-split (c ∷ cs) =
    let (part, (parts, same)) = split-some cs in
    let rest : join dot (part ∷ parts) ≡ cs = ap (join dot) (sym same) ∙ join-split cs in
    elim (Bool-cases (c == dot)) [
      | inl sep ↦
          let is_dot : c ≡ dot = ground arith in
          rw (sep, same) (ap (λ xs. dot ∷ xs) rest ∙ ap (λ x. x ∷ cs) (sym is_dot))
      | inr other ↦ rw (other, same) (join-cons c part parts ∙ ap (λ xs. c ∷ xs) rest)
    ]

filled-append : (label parent : Text) → is_blank (label ++ dot ∷ parent) ≡ false
filled-append [] parent = refl
filled-append (c ∷ cs) parent = refl

module _ (k : EthTools) where
  norm_name-IsPlain : (s : Text) → IsPlain s → k.ens_normalize s ≡ some s → norm_name k s ≡ s
  unfolding norm_name
  norm_name-IsPlain s plain normal =
      let prepared : without_blanks (lower (strip s)) ≡ s =
        ap without_blanks (lower-strip-IsPlain s plain) ∙ without_blanks-IsPlain s plain in
      rw (norm_name, prepared, normal) refl

  namehash_bytes-IsPlain :
      (s : Text)
      → IsPlain s
      → k.ens_normalize s ≡ some s
      → is_blank s ≡ false
      → namehash_bytes k s ≡ hash_labels k (split dot s)
  unfolding namehash_bytes
  namehash_bytes-IsPlain s plain normal filled = rw (norm_name-IsPlain s plain normal, filled) refl

  labelhash_bytes-IsPlain :
      (label : Text)
      → IsPlain label
      → k.ens_normalize label ≡ some label
      → (h : List ℕ) → labelhash_bytes k label ≡ some h
      → h ≡ k.keccak label
  unfolding labelhash_bytes
  labelhash_bytes-IsPlain label plain normal h hashed =
      let same = norm_name-IsPlain label plain normal in
      elim (Bool-cases (has_char dot (norm_name k label))) [
        | inl dotted ↦ absurd (ground arith)
        | inr single ↦
            let made : k.keccak (norm_name k label) ≡ h = ground arith in
            sym made ∙ ap k.keccak same
      ]

  encode_parts-node :
      (label next : Text) (parts : List Text) (owner resolver : Text) (r : SubnodeRecord)
      → IsPlain label
      → k.ens_normalize label ≡ some label
      → encode_parts k (label ∷ next ∷ parts) owner resolver ≡ some r
      → (r.parent_node ≡ namehash_bytes k (join dot (next ∷ parts))) × (r.label_h ≡ k.keccak label)
  unfolding encode_parts
  encode_parts-node label next parts owner resolver r plain normal made =
      elim (Option-cases (labelhash_bytes k label)) [
        | inl dotted ↦ absurd (ground arith)
        | inr (h, hashed) ↦ elim (Option-cases (k.checksum resolver)) [
          | inl bad ↦ absurd (ground arith)
          | inr (resolver_cs, good) ↦ elim (Option-cases (k.checksum owner)) [
            | inl bad' ↦ absurd (ground arith)
            | inr (owner_cs, good') ↦
                (ground arith, ground (arith, labelhash_bytes-IsPlain label plain normal h hashed))
          ]
        ]
      ]

  -- If the names are plain text that normalization leaves alone, the label has no dot and the parent is
  -- not empty: the record that creates the name under its parent addresses the very node that the
  -- whole name hashes to.
  pub encode_set_subnode_record_calldata-namehash_bytes :
      (label parent owner resolver : Text) (r : SubnodeRecord)
      → IsPlain label
      → IsPlain parent
      → has_char dot label ≡ false
      → is_blank parent ≡ false
      → k.ens_normalize label ≡ some label
      → k.ens_normalize parent ≡ some parent
      → k.ens_normalize (label ++ dot ∷ parent) ≡ some (label ++ dot ∷ parent)
      → encode_set_subnode_record_calldata k (label ++ dot ∷ parent) owner resolver ≡ some r
      → namehash_bytes k (label ++ dot ∷ parent) ≡ k.keccak (r.parent_node ++ r.label_h)
  unfolding encode_set_subnode_record_calldata hash_labels
  encode_set_subnode_record_calldata-namehash_bytes label parent owner resolver r plain plain'
        single filled normal normal' normal_whole made =
      let whole = label ++ dot ∷ parent in
      let plain_whole : IsPlain whole =
        All-append (λ c. is_plain c ≡ true) label (dot ∷ parent) plain (refl, plain') in
      let (next, (parts, same)) = split-some parent in
      let pieces : split dot whole ≡ label ∷ next ∷ parts =
        split-cons label parent single ∙ ap (λ ps. label ∷ ps) same in
      let parsed : encode_parts k (label ∷ next ∷ parts) owner resolver ≡ some r =
        ap (λ s. encode_parts k s owner resolver)
          (sym (ap (split dot) (lower-strip-IsPlain whole plain_whole) ∙ pieces))
        ∙ made in
      let (node, label_hash) =
        encode_parts-node label next parts owner resolver r plain normal parsed in
      let back : join dot (next ∷ parts) ≡ parent = ap (join dot) (sym same) ∙ join-split parent in
      let filled_whole : is_blank whole ≡ false = filled-append label parent in
      namehash_bytes-IsPlain whole plain_whole normal_whole filled_whole
      ∙ ap (hash_labels k) (split-cons label parent single)
      ∙ ap (λ n. k.keccak (n ++ k.keccak label))
          (sym (namehash_bytes-IsPlain parent plain' normal' filled)
            ∙ ap (namehash_bytes k) (sym back)
            ∙ sym node)
      ∙ ap (λ h. k.keccak (r.parent_node ++ h)) (sym label_hash)
