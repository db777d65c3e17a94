-- ===== src/Runtime/Routing.antt =====
-- The shard affinity of whisper/runtime.py: which tasks a scan may claim.
use whisper_network.Common.{
  ◌+◌, ◌≤◌, ◌≡◌, ◌⊎◌, inl, inr, ◌∙◌, ap, sym, Bool, true, false, List, [], ◌∷◌, arith, Bool-cases,
  ◌==◌, ◌++◌, ◌↔◌,
}
use whisper_network.Common.Lists.{keep, count_if}
use whisper_network.Wire.{Task}
use whisper_network.Runtime.Select.{
  Site, replica_shard_for, is_mine, is_replica_orphan, is_general_orphan, selected,
}
use whisper_network.Runtime.Fitness.{
  InMajority, HomeGone, NobodyFit, IfPresent, IsBefore, quorum_of-InMajority, home_dead-HomeGone,
  no_capable_peer-NobodyFit, replica_shard_for-IsBefore,
}

-- A task that a node may claim: one of its own shard; or, unless it has a membership layer that speaks
-- against it, one of whose shard no alive peer is the home, if the node is in the majority, and the task
-- is of the shard before its own on the ring or no alive peer is as fit as the node.
abbrev pub MayClaim : Site → Task → Type 0
MayClaim site t =
    (t.shard_id ≡ site.shard_id)
    ⊎ (IfPresent InMajority site.membership
        × IfPresent (λ m. HomeGone m t.shard_id) site.membership
        × (IsBefore site.num_shards site.shard_id t.shard_id
            ⊎ IfPresent (λ m. NobodyFit m site.capabilities) site.membership))

-- `x` stands in the list.
abbrev pub IsIn : Task → List Task → Type 0
IsIn x [] = ⊥
IsIn x (y ∷ ys) = (x ≡ y) ⊎ IsIn x ys

IsIn-append : (x : Task) (xs ys : List Task) → IsIn x (xs ++ ys) ↔ (IsIn x xs ⊎ IsIn x ys)
IsIn-append x [] ys = (λ h. inr h, λ h. elim h [ inl never ↦ absurd never | inr there ↦ there ])
IsIn-append x (y ∷ xs) ys =
    let (out, into) = IsIn-append x xs ys in
    (
      λ h. elim h [
        | inl here ↦ inl (inl here)
        | inr later ↦ elim (out later) [ inl a ↦ inl (inr a) | inr b ↦ inr b ]
      ],
      λ h. elim h [
        | inl a ↦ elim a [ inl here ↦ inl here | inr later ↦ inr (into (inl later)) ]
        | inr b ↦ inr (into (inr b))
      ],
    )

IsIn-keep :
    (x : Task) (p : Task → Bool) (xs : List Task) → IsIn x (keep p xs) ↔ (IsIn x xs × (p x ≡ true))
IsIn-keep x p [] = (λ h. absurd h, λ h. absurd h.0)
IsIn-keep x p (y ∷ xs) =
    let (out, into) = IsIn-keep x p xs in
    elim (Bool-cases (p y)) [
      | inl passes ↦ rw passes (
        λ h. elim h [
          | inl here ↦ (inl here, ap p here ∙ passes)
          | inr later ↦ (inr (out later).0, (out later).1)
        ],
        λ (at, good). elim at [ inl here ↦ inl here | inr later ↦ inr (into (later, good)) ],
      )
      | inr fails ↦ rw fails (
        λ h. (inr (out h).0, (out h).1),
        λ (at, good). elim at [
          | inl here ↦ absurd (let no : true ≡ false = sym good ∙ (ap p here ∙ fails) in cc)
          | inr later ↦ into (later, good)
        ],
      )
    ]

-- The three tests of a scan, taken together.
abbrev Passes : Site → Task → Type 0
Passes site t =
    (is_mine site t ≡ true)
    ⊎ ((is_replica_orphan site t ≡ true) ⊎ (is_general_orphan site t ≡ true))

Passes-MayClaim :
    (site : Site) (t : Task)
    → 1 ≤ site.shard_id
    → site.shard_id ≤ site.num_shards
    → Passes site t ↔ MayClaim site t
unfolding is_mine is_replica_orphan is_general_orphan
Passes-MayClaim site t low high =
    let (major, major') = quorum_of-InMajority site.membership in
    let (gone, gone') = home_dead-HomeGone site.membership t.shard_id in
    let (unfit, unfit') = no_capable_peer-NobodyFit site in
    let (before, before') =
      replica_shard_for-IsBefore site.num_shards site.shard_id t.shard_id low high in
    (
      λ h. elim h [
        | inl own ↦ inl (ground arith)
        | inr (inl backup) ↦
            inr (major (ground arith), gone (ground arith), inl (before (ground arith)))
        | inr (inr rescue) ↦
            inr (major (ground arith), gone (ground arith), inr (unfit (ground arith)))
      ],
      λ h. elim (Bool-cases (t.shard_id == site.shard_id)) [
        | inl own ↦ inl own
        | inr other ↦ elim h [
          | inl own ↦ absurd (ground arith)
          | inr (m, g, fit) ↦
              let m' = major' m in
              let g' = gone' g in
              elim (Bool-cases (t.shard_id == replica_shard_for site.shard_id site.num_shards)) [
                | inl backup ↦ inr (inl (ground arith))
                | inr far ↦ elim fit [
                  | inl b ↦ let b' = before' b in absurd (ground arith)
                  | inr f ↦ let f' = unfit' f in inr (inr (ground arith))
                ]
              ]
        ]
      ],
    )

-- A scan of a node, whose shard is one of those from 1 to their number, selects a task exactly if it is
-- among the claimable ones, and either it is of the node's own shard, or no alive peer has its shard, the
-- node with the peers alive is more than half of the cluster less the dead (or the cluster is one node),
-- and the task's shard comes before the node's on the ring, or no alive peer has all the node's
-- capabilities, or the node has none. Without a membership layer only the claimable ones are asked for.
pub selected-MayClaim :
    (site : Site) (tasks : List Task) (t : Task)
    → 1 ≤ site.shard_id
    → site.shard_id ≤ site.num_shards
    → IsIn t (selected site tasks) ↔ (IsIn t tasks × MayClaim site t)
unfolding selected
selected-MayClaim site tasks t low high =
    let own = keep (is_mine site) tasks in
    let backup = keep (is_replica_orphan site) tasks in
    let rescue = keep (is_general_orphan site) tasks in
    let (split, join) = IsIn-append t own (backup ++ rescue) in
    let (split', join') = IsIn-append t backup rescue in
    let (own_out, own_in) = IsIn-keep t (is_mine site) tasks in
    let (backup_out, backup_in) = IsIn-keep t (is_replica_orphan site) tasks in
    let (rescue_out, rescue_in) = IsIn-keep t (is_general_orphan site) tasks in
    let (may, tests) = Passes-MayClaim site t low high in
    (
      λ h. elim (split h) [
        | inl a ↦ ((own_out a).0, may ((inl (own_out a).1)))
        | inr b ↦ elim (split' b) [
          | inl c ↦ ((backup_out c).0, may ((inr (inl (backup_out c).1))))
          | inr d ↦ ((rescue_out d).0, may ((inr (inr (rescue_out d).1))))
        ]
      ],
      λ (at, allowed). elim (tests allowed) [
        | inl a ↦ join (inl (own_in (at, a)))
        | inr (inl c) ↦ join (inr (join' (inl (backup_in (at, c)))))
        | inr (inr d) ↦ join (inr (join' (inr (rescue_in (at, d)))))
      ],
    )

-- How often a test passes among the selected tasks.
count_if-append :
    (p : Task → Bool) (xs ys : List Task) → count_if p (xs ++ ys) ≡ count_if p xs + count_if p ys
count_if-append p [] ys = omega arith
count_if-append p (x ∷ xs) ys = ground (arith, count_if-append p xs ys)

-- A task passes one of the three tests at most.
exclusive :
    (site : Site) (t : Task)
    → ((is_replica_orphan site t ≡ true) → is_mine site t ≡ false)
      × ((is_general_orphan site t ≡ true) → is_mine site t ≡ false)
      × ((is_general_orphan site t ≡ true) → is_replica_orphan site t ≡ false)
unfolding is_mine is_replica_orphan is_general_orphan
exclusive site t = (λ h. ground arith, λ h. ground arith, λ h. ground arith)

shares_fit :
    (p : Task → Bool) (site : Site) (tasks : List Task)
    → count_if p (keep (is_mine site) tasks)
        + count_if p (keep (is_replica_orphan site) tasks)
        + count_if p (keep (is_general_orphan site) tasks)
      ≤ count_if p tasks
shares_fit p site [] = omega arith
shares_fit p site (t ∷ tasks) = ground (arith, shares_fit p site tasks, exclusive site t)

-- Each of the three lists takes its share: no task is selected more often than it is listed.
pub count_if-selected-le :
    (p : Task → Bool) (site : Site) (tasks : List Task)
    → count_if p (selected site tasks) ≤ count_if p tasks
unfolding selected
count_if-selected-le p site tasks = omega (
  arith,
  count_if-append p (keep (is_mine site) tasks)
      (keep (is_replica_orphan site) tasks ++ keep (is_general_orphan site) tasks),
  count_if-append p (keep (is_replica_orphan site) tasks) (keep (is_general_orphan site) tasks),
  shares_fit p site tasks,
)
