-- ===== src/Membership/Confirmed.antt =====
-- The invariant behind confirmed deaths (whisper/membership.py), under each change of the peers and
-- of the reports.
use whisper_network.Common.{
  ℕ, ◌≤◌, ◌≡◌, ◌≢◌, inl, inr, refl, sym, none, some, true, false, List, [], ◌∷◌, arith, Bool-cases,
  ◌==◌, ◌||◌, ==_iff, subst,
}
use whisper_network.Common.Lists.{length, count, contains_of_count}
use whisper_network.Common.Dict.{
  Dict, IsDict, lookup, insert, erase, has_key, lookup-insert, lookup-insert_self, lookup-insert_ne,
  lookup-erase_ne, lookup-erase_self, erase-IsDict, insert-IsDict,
}
use whisper_network.Membership.State.{is_alive, is_dead, PeerInfo, new_peer, MembershipLayer}
use whisper_network.Membership.Handlers.{
  dead_reports_needed, or_keep, peer_or_new, cleared, absorb, reporters_after,
}
use whisper_network.Membership.Frame.{Same}

-- The reporters of a suspect.
abbrev pub reporters_of : ℕ → Dict (List ℕ) → List ℕ
reporters_of k suspicions = or_keep (lookup k suspicions) []

-- Every reporter stands once.
abbrev pub AreDistinct : List ℕ → Type 0
AreDistinct rs = (x : ℕ) → count x rs ≤ 1

-- A peer that is dead has two reporters; our own key is no peer; reporters are distinct.
pub record IsBacked (our_key : ℕ) (peers : Dict PeerInfo) (suspicions : Dict (List ℕ))
    : Type 0 where
  pub confirmed :
      (k : ℕ) (p : PeerInfo)
      → lookup k peers ≡ some p
      → is_dead p.status ≡ true
      → dead_reports_needed ≤ length (reporters_of k suspicions)
  pub distinct : (k : ℕ) → AreDistinct (reporters_of k suspicions)
  pub not_us : lookup our_key peers ≡ none
  pub dict : IsDict suspicions

module _ (us : ℕ) (peers : Dict PeerInfo) (suspicions : Dict (List ℕ))
    (h : IsBacked us peers suspicions) where
  -- An entry that is not dead may be written, under any key but ours.
  pub insert-IsBacked :
      (k : ℕ) (p : PeerInfo)
      → us ≢ k
      → is_dead p.status ≡ false
      → IsBacked us (insert k p peers) suspicions
  insert-IsBacked k p other living = record {
    confirmed = λ j q at_j dying. elim (Bool-cases (j == k)) [
      | inl same ↦ absurd (ground (arith, lookup-insert j k p peers))
      | inr ne ↦ h.confirmed j q (ground (arith, lookup-insert j k p peers)) dying
    ];
    distinct = h.distinct;
    not_us = ground (arith, lookup-insert us k p peers, h.not_us);
    dict = h.dict;
  }

  -- Reports may be dropped for a peer that is not dead.
  pub erase-IsBacked :
      (k : ℕ)
      → ((p : PeerInfo) → lookup k peers ≡ some p → is_dead p.status ≡ false)
      → IsBacked us peers (erase k suspicions)
  erase-IsBacked k living = record {
    confirmed = λ j q at_j dying. elim (Bool-cases (j == k)) [
      | inl same ↦
          let at_k : lookup k peers ≡ some q =
            subst (λ x. lookup x peers ≡ some q) ((==_iff j k).0 same) at_j in
          absurd (ground (arith, living q at_k))
      | inr ne ↦ rw (lookup-erase_ne j k suspicions (ground arith)) (h.confirmed j q at_j dying)
    ];
    distinct = λ j. elim (Bool-cases (j == k)) [
      | inl same ↦
          rw ((==_iff j k).0 same, lookup-erase_self k suspicions h.dict) (λ x. omega arith)
      | inr ne ↦ rw (lookup-erase_ne j k suspicions (ground arith)) (h.distinct j)
    ];
    not_us = h.not_us;
    dict = erase-IsDict k suspicions h.dict;
  }

  -- A set of reporters may be replaced by a larger one.
  pub report-IsBacked :
      (k : ℕ) (rs : List ℕ)
      → length (reporters_of k suspicions) ≤ length rs
      → AreDistinct rs
      → IsBacked us peers (insert k rs suspicions)
  report-IsBacked k rs more distinct = record {
    confirmed = λ j q at_j dying. elim (Bool-cases (j == k)) [
      | inl same ↦
          let je = (==_iff j k).0 same in
          let before = h.confirmed k q (subst (λ x. lookup x peers ≡ some q) je at_j) dying in
          rw (je, lookup-insert_self k rs suspicions) (omega arith)
      | inr ne ↦ rw (lookup-insert_ne j k rs suspicions (ground arith)) (h.confirmed j q at_j dying)
    ];
    distinct = λ j. elim (Bool-cases (j == k)) [
      | inl same ↦ rw ((==_iff j k).0 same, lookup-insert_self k rs suspicions) distinct
      | inr ne ↦ rw (lookup-insert_ne j k rs suspicions (ground arith)) (h.distinct j)
    ];
    not_us = h.not_us;
    dict = insert-IsDict k rs suspicions h.dict;
  }

  -- A peer with two reporters may be confirmed dead.
  pub condemn-IsBacked :
      (k : ℕ) (p : PeerInfo)
      → us ≢ k
      → dead_reports_needed ≤ length (reporters_of k suspicions)
      → IsBacked us (insert k p peers) suspicions
  condemn-IsBacked k p other enough = record {
    confirmed = λ j q at_j dying. elim (Bool-cases (j == k)) [
      | inl same ↦
          subst (λ x. dead_reports_needed ≤ length (reporters_of x suspicions))
            (sym ((==_iff j k).0 same)) enough
      | inr ne ↦ h.confirmed j q (ground (arith, lookup-insert j k p peers)) dying
    ];
    distinct = h.distinct;
    not_us = ground (arith, lookup-insert us k p peers, h.not_us);
    dict = h.dict;
  }

-- `reporters.add(reporter)` keeps the reporters distinct, and never loses one.
pub reporters_after-distinct :
    (k r : ℕ) (suspicions : Dict (List ℕ))
    → AreDistinct (reporters_of k suspicions)
    → AreDistinct (reporters_after k r suspicions)
unfolding reporters_after
reporters_after-distinct k r suspicions h =
    λ x. ground (arith, h x, contains_of_count r (reporters_of k suspicions))

pub reporters_after-length :
    (k r : ℕ) (suspicions : Dict (List ℕ))
    → length (reporters_of k suspicions) ≤ length (reporters_after k r suspicions)
unfolding reporters_after
reporters_after-length k r suspicions = ground arith

abbrev pub Backed : MembershipLayer → Type 0
Backed m = IsBacked m.our_key m.peers m.suspicions

pub Same-Backed : (m m' : MembershipLayer) → Same m m' → Backed m → Backed m'
Same-Backed m m' same h = rw (same.our_key, same.peers, same.suspicions) h

peer_or_new-some :
    (now k : ℕ) (peers : Dict PeerInfo) {p : PeerInfo}
    → lookup k peers ≡ some p
    → peer_or_new now k peers ≡ p
unfolding peer_or_new
peer_or_new-some now k peers h = rw h

-- A sender that is heard from becomes alive, and its reports are dropped if it was not.
pub heard-IsBacked :
    (us k : ℕ) (peers : Dict PeerInfo) (suspicions : Dict (List ℕ)) (old p : PeerInfo)
    → IsBacked us peers suspicions
    → us ≢ k
    → is_dead p.status ≡ false
    → IsBacked us (insert k p peers) (cleared k old suspicions)
unfolding cleared
heard-IsBacked us k peers suspicions old p h other living =
    let entered = insert-IsBacked us peers suspicions h k p other living in
    elim (Bool-cases (is_alive old.status)) [
      | inl fine ↦ rw fine entered
      | inr doubted ↦ rw doubted (
          erase-IsBacked us (insert k p peers) suspicions entered k
            (λ q at_k. ground (arith, lookup-insert_self k p peers)))
    ]

pub absorb-IsBacked :
    (now us : ℕ) (ps : List ℕ) (peers : Dict PeerInfo) (suspicions : Dict (List ℕ))
    → IsBacked us peers suspicions
    → IsBacked us (absorb now us ps peers) suspicions
unfolding absorb
absorb-IsBacked now us [] peers suspicions h = h
absorb-IsBacked now us (p ∷ ps) peers suspicions h =
    elim (Bool-cases (has_key p peers || p == us)) [
      | inl skip ↦ rw skip (absorb-IsBacked now us ps peers suspicions h)
      | inr fresh ↦ rw fresh (
          absorb-IsBacked now us ps (insert p (new_peer now p) peers) suspicions
            (insert-IsBacked us peers suspicions h p (new_peer now p) (ground arith) refl))
    ]
