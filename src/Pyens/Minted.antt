-- ===== src/Pyens/Minted.antt =====
-- What `cmd_create_nested` of pyens/cli.py has saved, and the saved state itself (pyens/state.py).
use mathlib.Core.Option.{some-injective}
use whisper_network.Common.{
  ℕ, suc, ◌+◌, ◌≡◌, ◌∙◌, sym, refl, ap, subst, Bool, true, false, ◌||◌, ◌&&◌, not, Option, none,
  some, List, [], ◌∷◌, ◌++◌, if◌then◌else◌, arith, Bool-cases, inl, inr,
}
use whisper_network.Common.Lists.{length, length-append, All, All-append, All-map}
use whisper_network.Text.{
  Text, lower, strip, without_blanks, is_blank, ends_with, text_eq, contains_text, text_eq_refl,
  eq_of_text_eq,
}
use whisper_network.Pyens.EnsHash.{dot}
use whisper_network.Pyens.Labels.{parse_child_labels}
use whisper_network.Pyens.State.{PyensState, StateFile, default_state, load_state, save_state}
use whisper_network.Pyens.Each.{Split, mint_each-Split_start}
use whisper_network.Pyens.Commands.{
  Chain, Batch, mint, norm_owner, without, fromkeys, names_of, set_names, note_result, mint_each,
  has_any, mint_nested, create_nested,
}

-- What is saved is loaded again, under the name of the root.
pub load_state-save_state :
    (root_name : Text) (st : PyensState)
    → load_state root_name (save_state root_name st) ≡ record st { name = root_name }
unfolding load_state save_state default_state
load_state-save_state root_name st = rw (text_eq_refl root_name) refl

names_of-set_names :
    (parent : Text) (names : List Text) (m : List (Text × List Text))
    → names_of parent (set_names parent names m) ≡ names
names_of-set_names parent names [] = rw (text_eq_refl parent) refl
names_of-set_names parent names ((p, ns) ∷ m) = elim (Bool-cases (text_eq parent p)) [
  | inl same ↦ rw (same, text_eq_refl parent) refl
  | inr other ↦ rw (other, other) (names_of-set_names parent names m)
]

contains_text-without :
    (t s : Text) (ts : List Text)
    → text_eq t s ≡ false
    → contains_text t ts ≡ true
    → contains_text t (without s ts) ≡ true
contains_text-without t s [] other there = there
contains_text-without t s (u ∷ us) other there = elim (Bool-cases (text_eq s u)) [
  | inl same ↦
      let su : s ≡ u = eq_of_text_eq s u same in
      let apart : text_eq t u ≡ false = subst (λ x. text_eq t x ≡ false) su other in
      rw same (contains_text-without t s us other (ground arith))
  | inr differ ↦ elim (Bool-cases (text_eq t u)) [
    | inl here ↦ rw (differ, here) refl
    | inr later ↦ rw (differ, later) (contains_text-without t s us other (ground arith))
  ]
]

contains_text-fromkeys :
    (t : Text) (ts : List Text) → contains_text t ts ≡ true → contains_text t (fromkeys ts) ≡ true
contains_text-fromkeys t [] there = there
contains_text-fromkeys t (s ∷ ts) there = elim (Bool-cases (text_eq t s)) [
  | inl here ↦ rw here refl
  | inr later ↦
      rw later
        (contains_text-without t s (fromkeys ts) later (contains_text-fromkeys t ts (ground arith)))
]

-- Each success stands under the parent, and the log has grown by one entry for each.
record IsNoted (parent : Text) (logged : ℕ) (b : Batch) : Type 0 where
  recorded : All (λ s. contains_text s.0 (names_of parent b.nested_map) ≡ true) b.successes
  in_log : length b.tx_log ≡ logged + length b.successes

module _ (parent : Text) (logged : ℕ) where
  note_result-IsNoted :
      (lb : Text) (minted : Option Text) (b : Batch)
      → IsNoted parent logged b
      → IsNoted parent logged (note_result parent lb minted b)
  unfolding note_result
  note_result-IsNoted lb none b h = record { recorded = h.recorded; in_log = h.in_log }
  note_result-IsNoted lb (some txh) b h =
      let full : Text = lb ++ dot ∷ parent in
      let names = fromkeys (full ∷ names_of parent b.nested_map) in
      let under : names_of parent (set_names parent names b.nested_map) ≡ names =
        names_of-set_names parent names b.nested_map in
      record {
        recorded =
            All-append
              (λ s.
                contains_text s.0 (names_of parent (set_names parent names b.nested_map)) ≡ true)
              b.successes ((full, txh) ∷ [])
              (All-map (λ s. contains_text s.0 (names_of parent b.nested_map) ≡ true)
                (λ s.
                  contains_text s.0 (names_of parent (set_names parent names b.nested_map)) ≡ true)
                b.successes
                (λ s there.
                  subst (λ ns. contains_text s.0 ns ≡ true) (sym under)
                    (contains_text-fromkeys s.0 (full ∷ names_of parent b.nested_map)
                      (ground (arith, there))))
                h.recorded)
              (
                subst (λ ns. contains_text full ns ≡ true) (sym under)
                    (contains_text-fromkeys full (full ∷ names_of parent b.nested_map)
                      (ground (arith, text_eq_refl full))),
                tt,
              );
        in_log = omega (arith, h.in_log, length-append b.successes ((full, txh) ∷ []));
      }

  mint_each-IsNoted :
      (c : Chain) (wait : Bool) (owner : Text) (i : ℕ) (labels : List Text) (b : Batch)
      → IsNoted parent logged b
      → IsNoted parent logged (mint_each c wait parent owner i labels b)
  unfolding mint_each
  mint_each-IsNoted c wait owner i [] b h = h
  mint_each-IsNoted c wait owner i (lb ∷ labels) b h =
      let minted = mint c wait i (lb ++ dot ∷ parent) owner in
      mint_each-IsNoted c wait owner (suc i) labels (note_result parent lb minted b)
        (note_result-IsNoted lb minted b h)

-- The file that is written after the loop.
abbrev saved_file : Text → PyensState → StateFile → Batch → StateFile
saved_file root_name st file b =
    if has_any b.successes
    then save_state root_name (record st { nested_subnames = b.nested_map; tx_log = b.tx_log })
    else file

saved_file-IsNoted :
    (root_name parent : Text) (file : StateFile) (b : Batch)
    → let st = load_state root_name file in
      IsNoted parent (length st.tx_log) b
      → let st' = load_state root_name (saved_file root_name st file b) in
        All (λ s. contains_text s.0 (names_of parent st'.nested_subnames) ≡ true) b.successes
        × (length st'.tx_log ≡ length st.tx_log + length b.successes)
saved_file-IsNoted root_name parent file b h =
    let st = load_state root_name file in
    let st2 : PyensState = record st { nested_subnames = b.nested_map; tx_log = b.tx_log } in
    elim (Bool-cases (has_any b.successes)) [
      | inl some_made ↦ rw (some_made, load_state-save_state root_name st2) (h.recorded, h.in_log)
      | inr none_made ↦ rw none_made (no_successes b.successes none_made)
    ]
  where
    no_successes :
        (made : List (Text × Text))
        → has_any made ≡ false
        → let st = load_state root_name file in
          All (λ s. contains_text s.0 (names_of parent st.nested_subnames) ≡ true) made
          × (length st.tx_log ≡ length st.tx_log + length made)
    no_successes [] quiet = (tt, omega arith)
    no_successes (m ∷ ms) quiet = absurd (ground arith)

guarded :
    {X : Type 0} (refuse refuse' refuse'' : Bool) (o : Option Text) (f : Text → X) (x : X)
    → (if refuse
        then none
        else (if refuse'
            then none
            else (if refuse''
                then none
                else elim o as (λ _. Option X) [ none ↦ none | some w ↦ some (f w) ])))
      ≡ some x
    → (w : Text) × (o ≡ some w) × (f w ≡ x)
guarded true refuse' refuse'' o f x done = absurd (ground arith)
guarded false true refuse'' o f x done = absurd (ground arith)
guarded false false true o f x done = absurd (ground arith)
guarded false false false none f x done = absurd (ground arith)
guarded false false false (some w) f x done = (w, refl, some-injective (f w) x done)

-- A batch that went through its checks: in the order of the parsed labels, each label whose transaction
-- was sent, and whose receipt tells no failure if it is waited for, stands among the successes by its
-- full name with the hash, each other label stands among the failures, and nothing else is in either
-- list; each name that was minted stands under the parent in the state that is loaded from the file
-- afterwards; and the log of transactions there has grown by one entry for each.
pub create_nested_lem :
    (c : Chain) (root_name parent labels_raw : Text) (owner_str : Option Text) (wait : Bool)
    (file file' : StateFile) (b : Batch)
    → create_nested c root_name parent labels_raw owner_str wait file ≡ some (b, file')
    → let parent_name = without_blanks (lower (strip parent)) in
      let st = load_state root_name file in
      let st' = load_state root_name file' in
      ((owner : Text) × (norm_owner c owner_str ≡ some owner)
        × Split c wait parent_name owner 0
            (parse_child_labels labels_raw parent_name)
            b.successes
            b.failures)
      × All (λ s. contains_text s.0 (names_of parent_name st'.nested_subnames) ≡ true) b.successes
      × (length st'.tx_log ≡ length st.tx_log + length b.successes)
unfolding create_nested mint_nested
create_nested_lem c root_name parent labels_raw owner_str wait file file' b done =
    let parent_name = without_blanks (lower (strip parent)) in
    let labels = parse_child_labels labels_raw parent_name in
    let st = load_state root_name file in
    let start : Batch = record {
      successes = [];
      failures = [];
      tx_log = st.tx_log;
      nested_map = st.nested_subnames;
    } in
    let (owner, named, made) =
      guarded
        (is_blank parent_name
          || not (text_eq parent_name root_name) && not (ends_with (dot ∷ root_name) parent_name))
        (not (has_any labels)) (not (text_eq (lower (c.owner_of parent_name)) (lower c.address)))
        (norm_owner c owner_str) (mint_nested c wait root_name parent_name labels file) (b, file')
        done in
    let noted =
      mint_each-IsNoted parent_name (length st.tx_log) c wait owner 0 labels start
        (record { recorded = tt; in_log = omega arith }) in
    let same_batch : mint_each c wait parent_name owner 0 labels start ≡ b = ap (λ r. r.0) made in
    let same_file : saved_file root_name st file b ≡ file' =
      ap (saved_file root_name st file) (sym same_batch) ∙ ap (λ r. r.1) made in
    let noted_b = subst (IsNoted parent_name (length st.tx_log)) same_batch noted in
    let (recorded, in_log) = saved_file-IsNoted root_name parent_name file b noted_b in
    let final : (b' : StateFile) → Type 0 = λ f.
      All
        (λ s.
          contains_text s.0 (names_of parent_name (load_state root_name f).nested_subnames) ≡ true)
        b.successes in
    (
      (
        owner,
        named,
        subst (λ r. Split c wait parent_name owner 0 labels r.successes r.failures) same_batch
            (mint_each-Split_start c wait parent_name owner labels start refl refl),
      ),
      subst final same_file recorded,
      ap (λ f. length (load_state root_name f).tx_log) (sym same_file) ∙ in_log,
    )
