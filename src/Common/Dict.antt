-- ===== src/Common/Dict.antt =====
-- A Python dict keyed by identifiers, in insertion order.
use whisper_network.Common.Tests.{◌==◌, if◌then◌else◌}
use Prim.Native.Nat.{ℕ}
use mathlib.Core.Path.{◌≡◌, refl}
use mathlib.Core.Logic.{◌≢◌}
use mathlib.Core.Bool.{Bool, true, false}
use mathlib.Core.Option.{Option, none, some}
use mathlib.Core.List.{List, [], ◌∷◌, map}
use native.Mathlib.Omega.{arith}

abbrev pub Dict {ℓ} : Type ℓ → Type ℓ
Dict A = List (ℕ × A)

module _ {ℓ} {A : Type ℓ} where
  -- `d.get(k)`
  abbrev pub lookup : ℕ → Dict A → Option A
  lookup key [] = none
  lookup key ((j, value) ∷ rest) = if key == j then some value else lookup key rest

  -- `k in d`
  abbrev pub has_key : ℕ → Dict A → Bool
  has_key key rest = elim (lookup key rest) [ none ↦ false | some _ ↦ true ]

  -- `d.values()` and `d.keys()`
  abbrev pub values : Dict A → List A
  values = map (λ entry. entry.1)

  abbrev pub keys : Dict A → List ℕ
  keys = map (λ entry. entry.0)

  -- `d[k] = v`
  abbrev pub insert : ℕ → A → Dict A → Dict A
  insert key value [] = (key, value) ∷ []
  insert key value (entry ∷ rest) =
      if key == entry.0 then (key, value) ∷ rest else entry ∷ insert key value rest

  -- `d.pop(k, None)`
  abbrev pub erase : ℕ → Dict A → Dict A
  erase key [] = []
  erase key (entry ∷ rest) = if key == entry.0 then rest else entry ∷ erase key rest

  -- Each key stands once.
  abbrev pub IsDict : Dict A → Type ℓ
  IsDict [] = Unit
  IsDict ((key, value) ∷ rest) = (lookup key rest ≡ none) × IsDict rest

  pub lookup-insert :
      (j key : ℕ) (value : A) (rest : Dict A)
      → lookup j (insert key value rest) ≡ (if j == key then some value else lookup j rest)
  lookup-insert j key value [] = refl
  lookup-insert j key value (entry ∷ rest) = ground (arith, lookup-insert j key value rest)

  pub lookup-insert_self :
      (key : ℕ) (value : A) (rest : Dict A) → lookup key (insert key value rest) ≡ some value
  lookup-insert_self key value rest = ground (arith, lookup-insert key key value rest)

  pub lookup-insert_ne :
      (j key : ℕ) (value : A) (rest : Dict A)
      → j ≢ key
      → lookup j (insert key value rest) ≡ lookup j rest
  lookup-insert_ne j key value rest h = ground (arith, lookup-insert j key value rest)

  pub lookup-erase_ne :
      (j key : ℕ) (rest : Dict A) → j ≢ key → lookup j (erase key rest) ≡ lookup j rest
  lookup-erase_ne j key [] h = refl
  lookup-erase_ne j key (entry ∷ rest) h = ground (arith, lookup-erase_ne j key rest h)

  pub lookup-erase_self :
      (key : ℕ) (rest : Dict A) → IsDict rest → lookup key (erase key rest) ≡ none
  lookup-erase_self key [] h = refl
  lookup-erase_self key (entry ∷ rest) h = ground (arith, lookup-erase_self key rest h.1)

  pub insert-IsDict :
      (key : ℕ) (value : A) (rest : Dict A) → IsDict rest → IsDict (insert key value rest)
  insert-IsDict key value [] h = (refl, tt)
  insert-IsDict key value (entry ∷ rest) h =
      ground (arith, insert-IsDict key value rest h.1, lookup-insert entry.0 key value rest)

  lookup-erase-none :
      (j key : ℕ) (rest : Dict A)
      → IsDict rest
      → lookup j rest ≡ none
      → lookup j (erase key rest) ≡ none
  lookup-erase-none j key [] h entry = refl
  lookup-erase-none j key (x ∷ rest) h entry = ground (arith, lookup-erase-none j key rest h.1)

  pub erase-IsDict : (key : ℕ) (rest : Dict A) → IsDict rest → IsDict (erase key rest)
  erase-IsDict key [] h = tt
  erase-IsDict key (x ∷ rest) h =
      ground (arith, erase-IsDict key rest h.1, lookup-erase-none x.0 key rest h.1)
