-- ===== src/Runtime/Selected.antt =====
-- Which tasks stand in the lists of a scan (whisper/runtime.py, `_scan`).
use whisper_network.Common.{
  ℕ, ◌≡◌, ◌⊎◌, inl, inr, refl, some, Bool, true, List, [], ◌∷◌, ◌++◌, arith, Bool-cases, ◌==◌, ◌||◌,
}
use whisper_network.Common.Lists.{keep}
use whisper_network.Common.Dict.{Dict, lookup, values}
use whisper_network.Wire.{Task}
use whisper_network.Runtime.Select.{Site, selected, is_mine, is_replica_orphan, is_general_orphan}

-- The element stands in the list.
abbrev pub IsIn : {A : Type 0} → A → List A → Type 0
IsIn x [] = ⊥
IsIn x (y ∷ ys) = (y ≡ x) ⊎ IsIn x ys

module _ {A : Type 0} where
  pub IsIn-append_left : (x : A) (xs ys : List A) → IsIn x xs → IsIn x (xs ++ ys)
  IsIn-append_left x [] ys there = absurd there
  IsIn-append_left x (z ∷ xs) ys (inl here) = inl here
  IsIn-append_left x (z ∷ xs) ys (inr there) = inr (IsIn-append_left x xs ys there)

  pub IsIn-append_right : (x : A) (xs ys : List A) → IsIn x ys → IsIn x (xs ++ ys)
  IsIn-append_right x [] ys there = there
  IsIn-append_right x (z ∷ xs) ys there = inr (IsIn-append_right x xs ys there)

  pub IsIn-keep : (p : A → Bool) (x : A) (xs : List A) → p x ≡ true → IsIn x xs → IsIn x (keep p xs)
  IsIn-keep p x [] good there = absurd there
  IsIn-keep p x (z ∷ xs) good (inl here) = rw (here, good) (inl refl)
  IsIn-keep p x (z ∷ xs) good (inr there) =
      let rest = IsIn-keep p x xs good there in
      elim (Bool-cases (p z)) [ inl kept ↦ rw kept (inr rest) | inr dropped ↦ rw dropped rest ]

  pub IsIn-values : (k : ℕ) (x : A) (d : Dict A) → lookup k d ≡ some x → IsIn x (values d)
  IsIn-values k x [] found = absurd (ground arith)
  IsIn-values k x ((j, y) ∷ d) found = elim (Bool-cases (k == j)) [
    | inl same ↦ inl (ground arith)
    | inr other ↦ inr (IsIn-values k x d (ground arith))
  ]

-- A task passes one of the three tests of a scan.
abbrev pub is_selected : Site → Task → Bool
is_selected site t = is_mine site t || (is_replica_orphan site t || is_general_orphan site t)

pub IsIn-selected :
    (site : Site) (t : Task) (tasks : List Task)
    → is_selected site t ≡ true
    → IsIn t tasks
    → IsIn t (selected site tasks)
unfolding selected
IsIn-selected site t tasks chosen there =
    let replicas = keep (is_replica_orphan site) tasks in
    let generals = keep (is_general_orphan site) tasks in
    elim (Bool-cases (is_mine site t)) [
      | inl mine ↦
          IsIn-append_left t (keep (is_mine site) tasks) (replicas ++ generals)
            (IsIn-keep (is_mine site) t tasks mine there)
      | inr not_mine ↦
          IsIn-append_right t (keep (is_mine site) tasks) (replicas ++ generals)
            (elim (Bool-cases (is_replica_orphan site t)) [
              | inl replica ↦
                  IsIn-append_left t replicas generals
                    (IsIn-keep (is_replica_orphan site) t tasks replica there)
              | inr not_replica ↦
                  IsIn-append_right t replicas generals
                    (IsIn-keep (is_general_orphan site) t tasks (ground arith) there)
            ])
    ]
