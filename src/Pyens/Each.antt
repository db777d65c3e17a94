-- ===== src/Pyens/Each.antt =====
-- The loop of `cmd_create_nested` (pyens/cli.py) over the labels, one transaction for each.
use mathlib.Core.List.{append_assoc, append-nil}
use mathlib.Core.Option.{some-injective}
use whisper_network.Common.{
  ℕ, suc, ◌≡◌, ◌≢◌, false, Bool-cases, ◌==◌, arith, ◌⊎◌, inl, inr, refl, ◌∙◌, ap, sym, Bool, none,
  some, List, [], ◌∷◌, ◌++◌, Option-cases,
}
use whisper_network.Text.{Text}
use whisper_network.Pyens.EnsHash.{dot}
use whisper_network.Pyens.Commands.{Chain, Batch, mint, note_result, mint_each}

-- The transaction of a name was sent, and if it is waited for, its receipt came and tells no failure.
abbrev pub IsMinted : Chain → Bool → ℕ → Text → Text → Text → Type 0
IsMinted c wait i full owner txh =
    (c.create i full owner ≡ some txh)
    × ((wait ≡ false) ⊎ ((status : ℕ) × (c.receipt_status txh ≡ some status) × (status ≢ 0)))

mint-some :
    (c : Chain) (wait : Bool) (i : ℕ) (full owner txh : Text)
    → mint c wait i full owner ≡ some txh
    → IsMinted c wait i full owner txh
unfolding mint
mint-some c wait i full owner txh done = elim (Option-cases (c.create i full owner)) [
  | inl lost ↦ absurd (ground arith)
  | inr (h, sent) ↦ elim (Bool-cases wait) [
    | inr quick ↦
        let same : h ≡ txh = some-injective h txh (let e : some h ≡ some txh = ground arith in e) in
        (sent ∙ ap some same, inl quick)
    | inl waits ↦ elim (Option-cases (c.receipt_status h)) [
      | inl silent ↦ absurd (ground arith)
      | inr (status, told) ↦ elim (Bool-cases (status == 0)) [
        | inl bad ↦ absurd (ground arith)
        | inr good ↦
            let same : h ≡ txh =
              some-injective h txh (let e : some h ≡ some txh = ground arith in e) in
            (sent ∙ ap some same, inr (status, ap c.receipt_status (sym same) ∙ told, ground arith))
      ]
    ]
  ]
]

mint-none :
    (c : Chain) (wait : Bool) (i : ℕ) (full owner : Text)
    → mint c wait i full owner ≡ none
    → (txh : Text) → ¬ IsMinted c wait i full owner txh
unfolding mint
mint-none c wait i full owner lost txh (sent, received) = elim received [
  | inl quick ↦ ground arith
  | inr (status, told, good) ↦ ground arith
]

-- The labels, whose transactions are numbered from `i` on: each was minted, and then its full name with
-- the hash of the transaction comes next among the names made, or its transaction failed, and then the
-- label comes next among the failed ones. Nothing else is in the two lists.
abbrev pub Split :
    Chain → Bool → Text → Text → ℕ → List Text → List (Text × Text) → List Text → Type 0
Split c wait parent owner i [] made failed = (made ≡ []) × (failed ≡ [])
Split c wait parent owner i (lb ∷ labels) made failed =
    ((txh : Text) × (rest : List (Text × Text)) × IsMinted c wait i (lb ++ dot ∷ parent) owner txh
      × (made ≡ (lb ++ dot ∷ parent, txh) ∷ rest)
      × Split c wait parent owner (suc i) labels rest failed)
    ⊎ ((rest : List Text) × ((txh : Text) → ¬ IsMinted c wait i (lb ++ dot ∷ parent) owner txh)
        × (failed ≡ lb ∷ rest)
        × Split c wait parent owner (suc i) labels made rest)

mint_each-Split :
    (c : Chain) (wait : Bool) (parent owner : Text) (i : ℕ) (labels : List Text) (b : Batch)
    → let b' = mint_each c wait parent owner i labels b in
      (made : List (Text × Text)) × (failed : List Text) × (b'.successes ≡ b.successes ++ made)
      × (b'.failures ≡ b.failures ++ failed)
      × Split c wait parent owner i labels made failed
unfolding mint_each note_result
mint_each-Split c wait parent owner i [] b =
    ([], [], sym (append-nil b.successes), sym (append-nil b.failures), (refl, refl))
mint_each-Split c wait parent owner i (lb ∷ labels) b =
    elim (Option-cases (mint c wait i (lb ++ dot ∷ parent) owner)) [
      | inl lost ↦
          let b1 = note_result parent lb none b in
          let step : mint_each c wait parent owner i (lb ∷ labels) b
              ≡ mint_each c wait parent owner (suc i) labels b1 =
            ap (λ m. mint_each c wait parent owner (suc i) labels (note_result parent lb m b))
              lost in
          let (made, failed, good, bad, rest) =
            mint_each-Split c wait parent owner (suc i) labels b1 in
          (
            made,
            lb ∷ failed,
            ap (λ r. r.successes) step ∙ good,
            ap (λ r. r.failures) step ∙ (bad ∙ append_assoc b.failures (lb ∷ []) failed),
            inr (failed, mint-none c wait i (lb ++ dot ∷ parent) owner lost, refl, rest),
          )
      | inr (txh, done) ↦
          let b1 = note_result parent lb (some txh) b in
          let step : mint_each c wait parent owner i (lb ∷ labels) b
              ≡ mint_each c wait parent owner (suc i) labels b1 =
            ap (λ m. mint_each c wait parent owner (suc i) labels (note_result parent lb m b))
              done in
          let (made, failed, good, bad, rest) =
            mint_each-Split c wait parent owner (suc i) labels b1 in
          (
            (lb ++ dot ∷ parent, txh) ∷ made,
            failed,
            ap (λ r. r.successes) step
                ∙ (good ∙ append_assoc b.successes ((lb ++ dot ∷ parent, txh) ∷ []) made),
            ap (λ r. r.failures) step ∙ bad,
            inl (txh, made, mint-some c wait i (lb ++ dot ∷ parent) owner txh done, refl, rest),
          )
    ]

-- The same for a batch that starts with empty lists.
pub mint_each-Split_start :
    (c : Chain) (wait : Bool) (parent owner : Text) (labels : List Text) (b : Batch)
    → b.successes ≡ []
    → b.failures ≡ []
    → let b' = mint_each c wait parent owner 0 labels b in
      Split c wait parent owner 0 labels b'.successes b'.failures
mint_each-Split_start c wait parent owner labels b no_success no_failure =
    let b' = mint_each c wait parent owner 0 labels b in
    let (made, failed, good, bad, split) = mint_each-Split c wait parent owner 0 labels b in
    let made_all : b'.successes ≡ made = good ∙ ap (λ xs. xs ++ made) no_success in
    let failed_all : b'.failures ≡ failed = bad ∙ ap (λ xs. xs ++ failed) no_failure in
    rw (made_all, failed_all) split
