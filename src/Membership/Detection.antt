-- ===== src/Membership/Detection.antt =====
-- What the failure detector of whisper/membership.py does to each peer.
use whisper_network.Common.{
  ℕ, ◌+◌, ◌*◌, ◌<◌, ◌≤◌, ltb, ◌≡◌, ◌≢◌, ◌⊎◌, inl, inr, refl, ◌∙◌, Option, none, some, Bool, true,
  false, List, [], ◌∷◌, arith, Bool-cases, ◌==◌, not, ◌||◌, ◌&&◌, ==_iff, subst,
}
use whisper_network.Common.Lists.{length, contains, keep, contains-keep}
use whisper_network.Common.Dict.{
  Dict, lookup, insert, has_key, lookup-insert_self, lookup-insert_ne,
}
use whisper_network.Membership.State.{
  PeerStatus, alive, suspected, dead, is_alive, PeerInfo, new_peer, MembershipLayer, Env, join_all,
  suspect_all,
}
use whisper_network.Membership.Loops.{
  is_silent, detect, detect_failures, discover, is_half_silent, suspect_peer, drop_silent, axl_sync,
}
use whisper_network.Membership.Frame.{Same-trans, join_all-Same, suspect_all-Same}
use whisper_network.Membership.Silence.{silenced, lookup-detect}

-- An entry before and after the silence detector: a peer that was alive and has been silent for longer
-- than `limit` is the same but suspected, any other peer is as it was, and what is missing is missing.
abbrev pub Silenced : ℕ → ℕ → Option PeerInfo → Option PeerInfo → Type 0
Silenced now limit none after = after ≡ none
Silenced now limit (some p) after =
    ((p.status ≡ alive)
      × (p.last_seen + limit < now)
      × (after ≡ some (record p { status = suspected })))
    ⊎ (((p.status ≢ alive) ⊎ (now ≤ p.last_seen + limit)) × (after ≡ some p))

living : (x : PeerStatus) → is_alive x ≡ true → x ≡ alive
living alive h = refl
living suspected h = cc
living dead h = cc

not_living : (x : PeerStatus) → is_alive x ≡ false → x ≢ alive
not_living alive h same = cc
not_living suspected h same = cc
not_living dead h same = cc

silenced-Silenced :
    (now limit : ℕ) (before : Option PeerInfo) (after : Option PeerInfo)
    → after ≡ silenced now limit before
    → Silenced now limit before after
unfolding is_silent
silenced-Silenced now limit none after e = e
silenced-Silenced now limit (some p) after e = elim (Bool-cases (is_alive p.status)) [
  | inr still ↦ inr (inl (not_living p.status still), ground arith)
  | inl here ↦ elim (Bool-cases (ltb (p.last_seen + limit) now)) [
    | inl late ↦ inl (living p.status here, ground arith, ground arith)
    | inr fresh ↦ inr (inr (ground arith), ground arith)
  ]
]

-- One round of the silence detector: a peer becomes suspected exactly if it was alive and has been
-- silent for longer than `suspect_after`; no other field or entry changes and none is added or removed.
-- The reports are left alone.
pub detect_failures_lem :
    (e : Env) (m : MembershipLayer)
    → ((k : ℕ)
        → Silenced e.now m.suspect_after (lookup k m.peers) (lookup k (detect_failures e m).peers))
      × ((detect_failures e m).suspicions ≡ m.suspicions)
unfolding detect_failures
detect_failures_lem e m =
    let r = detect e.now m.suspect_after m.peers in
    let m' = record m { peers = r.0 } in
    let same = suspect_all-Same e 0 r.1 m' in
    (
      λ k.
          silenced-Silenced e.now m.suspect_after (lookup k m.peers)
            (lookup k (detect_failures e m).peers)
            (rw (same.peers) (lookup-detect e.now m.suspect_after k m.peers)),
      same.suspicions,
    )

-- What `axl_sync` may make of an entry that was there: it stays, or an alive peer that has left the
-- mesh, and been silent for more than half of `suspect_after`, becomes suspected.
abbrev pub Dropped : ℕ → ℕ → Bool → PeerInfo → PeerInfo → Type 0
Dropped now limit left p q =
    (q ≡ p)
    ⊎ ((left ≡ true)
        × (is_alive p.status ≡ true)
        × (2 * p.last_seen + limit < 2 * now)
        × (q ≡ record p { status = suspected }))

lookup-discover :
    (now us : ℕ) (ks : List ℕ) (peers : Dict PeerInfo) (k : ℕ) {p : PeerInfo}
    → lookup k peers ≡ some p
    → lookup k (discover now us ks peers).0 ≡ some p
unfolding discover
lookup-discover now us [] peers k at_k = at_k
lookup-discover now us (j ∷ ks) peers k {p} at_k =
    elim (Bool-cases (not (j == us) && not (has_key j peers))) [
      | inl fresh ↦ rw fresh (
          lookup-discover now us ks (insert j (new_peer now j) peers) k
            (elim (Bool-cases (k == j)) [
              | inl same ↦
                  let at_j : lookup j peers ≡ some p =
                    subst (λ x. lookup x peers ≡ some p) ((==_iff k j).0 same) at_k in
                  absurd (ground arith)
              | inr other ↦ lookup-insert_ne k j (new_peer now j) peers (ground arith) ∙ at_k
            ]))
      | inr known ↦ rw known (lookup-discover now us ks peers k at_k)
    ]

later :
    (now limit : ℕ) (a b : Bool) (p q : PeerInfo)
    → Dropped now limit b p q
    → Dropped now limit (a || b) p q
later now limit a b p q (inl same) = inl same
later now limit a b p q (inr (left, x, y, z)) = inr (ground arith, x, y, z)

-- An entry that is not alive stays.
settled :
    (now limit : ℕ) (left : Bool) (p q : PeerInfo)
    → Dropped now limit left p q
    → is_alive p.status ≡ false
    → q ≡ p
settled now limit left p q (inl same) still = same
settled now limit left p q (inr (l, living, late, changed)) still = cc

lookup-suspect_peer_ne :
    (j k : ℕ) (entry : Option PeerInfo) (peers : Dict PeerInfo)
    → k ≢ j
    → lookup k (suspect_peer j entry peers) ≡ lookup k peers
unfolding suspect_peer
lookup-suspect_peer_ne j k none peers ne = refl
lookup-suspect_peer_ne j k (some p) peers ne =
    lookup-insert_ne k j (record p { status = suspected }) peers ne

lookup-drop_silent :
    (now limit : ℕ) (ks : List ℕ) (peers : Dict PeerInfo) (k : ℕ) {p : PeerInfo}
    → lookup k peers ≡ some p
    → (q : PeerInfo) × (lookup k (drop_silent now limit ks peers).0 ≡ some q)
      × Dropped now limit (contains k ks) p q
unfolding drop_silent is_half_silent
lookup-drop_silent now limit [] peers k {p} at_k = (p, at_k, inl refl)
lookup-drop_silent now limit (j ∷ ks) peers k {p} at_k =
    elim (Bool-cases (is_half_silent now limit (lookup j peers))) [
      | inr stays ↦
          let (q, at_q, h) = lookup-drop_silent now limit ks peers k at_k in
          (q, rw stays at_q, later now limit (k == j) (contains k ks) p q h)
      | inl gone ↦
          let peers' = suspect_peer j (lookup j peers) peers in
          elim (Bool-cases (k == j)) [
            | inr other ↦
                let (q, at_q, h) =
                  lookup-drop_silent now limit ks peers' k
                    (lookup-suspect_peer_ne j k (lookup j peers) peers (ground arith) ∙ at_k) in
                (q, rw gone at_q, later now limit (k == j) (contains k ks) p q h)
            | inl same ↦
                let q0 = record p { status = suspected } in
                let at_j : lookup j peers ≡ some p =
                  subst (λ x. lookup x peers ≡ some p) ((==_iff k j).0 same) at_k in
                let marked : lookup k peers' ≡ some q0 =
                  rw (at_j, (==_iff k j).0 same)
                    (unfold suspect_peer in (lookup-insert_self j q0 peers)) in
                let (q, at_q, h) = lookup-drop_silent now limit ks peers' k marked in
                let qe : q ≡ q0 = settled now limit (contains k ks) q0 q h refl in
                (q, rw gone at_q, inr (ground arith, ground arith, ground arith, qe))
          ]
    ]

-- The topology sync never removes an entry, and suspects an entry only if it was alive, has left the
-- set of direct neighbours since the last sync, and was silent for more than half of `suspect_after`.
pub axl_sync-Dropped :
    (e : Env) (connected : List ℕ) (m : MembershipLayer) (k : ℕ) {p : PeerInfo}
    → lookup k m.peers ≡ some p
    → (q : PeerInfo) × (lookup k (axl_sync e connected m).peers ≡ some q)
      × Dropped e.now m.suspect_after
          (contains k m.prev_axl_connected && not (contains k connected))
          p
          q
unfolding axl_sync
axl_sync-Dropped e connected m k {p} at_k =
    let d = discover e.now m.our_key connected m.peers in
    let gone = keep (λ k. not (contains k connected)) m.prev_axl_connected in
    let r = drop_silent e.now m.suspect_after gone d.0 in
    let m' = record m { peers = r.0; axl_connected = connected; prev_axl_connected = connected } in
    let m'' = join_all e 0 1 d.1 m' in
    let same =
      Same-trans m' m'' (suspect_all e (length d.1) r.1 m'') (join_all-Same e 0 1 d.1 m')
        (suspect_all-Same e (length d.1) r.1 m'') in
    let (q, at_q, h) =
      lookup-drop_silent e.now m.suspect_after gone d.0 k
        (lookup-discover e.now m.our_key connected m.peers k at_k) in
    (
      q,
      rw (same.peers) at_q,
      subst (λ b. Dropped e.now m.suspect_after b p q)
          (contains-keep k (λ k. not (contains k connected)) m.prev_axl_connected) h,
    )
