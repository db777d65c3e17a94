-- ===== src/Membership/Recovery.antt =====
-- A peer that is heard from again (whisper/membership.py), and the reports about it.
use whisper_network.Common.{
  ℕ, ◌<◌, ◌≤◌, ◌≡◌, ◌≢◌, inl, inr, refl, ◌∙◌, some, true, false, List, [], ◌∷◌, arith, Bool-cases,
  truthy, ◌==◌, not, ◌||◌, ◌&&◌, ==_iff, subst, leb,
}
use whisper_network.Common.Lists.{length}
use whisper_network.Common.Dict.{
  Dict, lookup, insert, has_key, lookup-insert_self, lookup-insert_ne,
}
use whisper_network.Wire.{Heartbeat, Suspicion}
use whisper_network.Membership.State.{
  alive, dead, is_dead, PeerInfo, new_peer, MembershipLayer, Env,
}
use whisper_network.Membership.Handlers.{
  dead_reports_needed, or_keep, peer_or_new, cleared, beaten, absorb, on_heartbeat, reporters_after,
  is_stale, condemn, on_suspicion,
}
use whisper_network.Membership.Frame.{relay_heartbeat-Same, relay_suspicion-Same}

-- The heartbeat of a peer with a key that is not ours.
abbrev pub IsForeign : Heartbeat → MembershipLayer → Type 0
IsForeign msg m = (truthy msg.sender ≡ true) × (m.our_key ≢ msg.sender)

lookup-absorb :
    (now us : ℕ) (ps : List ℕ) (peers : Dict PeerInfo) (k : ℕ) {p : PeerInfo}
    → lookup k peers ≡ some p
    → lookup k (absorb now us ps peers) ≡ some p
unfolding absorb
lookup-absorb now us [] peers k at_k = at_k
lookup-absorb now us (j ∷ ps) peers k {p} at_k = elim (Bool-cases (has_key j peers || j == us)) [
  | inl skip ↦ rw skip (lookup-absorb now us ps peers k at_k)
  | inr fresh ↦ rw fresh (
      lookup-absorb now us ps (insert j (new_peer now j) peers) k (elim (Bool-cases (k == j)) [
        | inl same ↦
            let at_j : lookup j peers ≡ some p =
              subst (λ x. lookup x peers ≡ some p) ((==_iff k j).0 same) at_k in
            absurd (ground arith)
        | inr other ↦ lookup-insert_ne k j (new_peer now j) peers (ground arith) ∙ at_k
      ]))
]

on_suspicion_stale :
    (e : Env) (from_peer : ℕ) (s : Suspicion) (m : MembershipLayer) {p : PeerInfo}
    → lookup s.suspect m.peers ≡ some p
    → s.timestamp < p.last_seen
    → on_suspicion e from_peer s m ≡ m
unfolding on_suspicion is_stale
on_suspicion_stale e from_peer s m {p} known early =
    let old : (not (truthy s.suspect)
          || s.suspect == m.our_key
          || is_stale (lookup s.suspect m.peers) s.timestamp)
        ≡ true =
      ground arith in
    rw old

on_suspicion_condemns :
    (e : Env) (from_peer : ℕ) (s : Suspicion) (m : MembershipLayer) {p : PeerInfo}
    → lookup s.suspect m.peers ≡ some p
    → truthy s.suspect ≡ true
    → m.our_key ≢ s.suspect
    → p.last_seen ≤ s.timestamp
    → is_dead p.status ≡ false
    → dead_reports_needed
      ≤ length (reporters_after s.suspect (or_keep s.sender from_peer) m.suspicions)
    → lookup s.suspect (on_suspicion e from_peer s m).peers ≡ some (record p { status = dead })
unfolding on_suspicion is_stale condemn
on_suspicion_condemns e from_peer s m {p} known named foreign late living enough =
    let k = s.suspect in
    let rs = reporters_after k (or_keep s.sender from_peer) m.suspicions in
    let m' = record m { suspicions = insert k rs m.suspicions } in
    let m'' = condemn k rs (lookup k m.peers) m' in
    let fresh : (not (truthy k) || k == m.our_key || is_stale (lookup k m.peers) s.timestamp)
        ≡ false =
      ground arith in
    let guilty : (not (is_dead p.status) && leb dead_reports_needed (length rs)) ≡ true =
      ground arith in
    rw (fresh, (relay_suspicion-Same e s m'').peers, known, guilty)
      (lookup-insert_self k (record p { status = dead }) m.peers)

two_reporters :
    (k r1 r2 : ℕ) (suspicions : Dict (List ℕ))
    → lookup k suspicions ≡ some (r1 ∷ [])
    → r2 ≢ r1
    → dead_reports_needed ≤ length (reporters_after k r2 suspicions)
unfolding reporters_after
two_reporters k r1 r2 suspicions report ne = ground arith

module _ (e : Env) (msg : Heartbeat) (m : MembershipLayer) (foreign : IsForeign msg m) where
  abbrev old : PeerInfo
  old = peer_or_new e.now msg.sender m.peers

  on_heartbeat-fields :
      (lookup msg.sender (on_heartbeat e msg m).peers ≡ some (beaten e.now msg old))
      × ((on_heartbeat e msg m).suspicions ≡ cleared msg.sender old m.suspicions)
      × ((on_heartbeat e msg m).our_key ≡ m.our_key)
  unfolding on_heartbeat
  on_heartbeat-fields =
      let entered = insert msg.sender (beaten e.now msg old) m.peers in
      let m' = record m {
        peers = absorb e.now m.our_key msg.known_peers entered;
        suspicions = cleared msg.sender old m.suspicions;
      } in
      let heard : (not (truthy msg.sender) || msg.sender == m.our_key) ≡ false = ground arith in
      let same = relay_heartbeat-Same e msg m' in
      (
        rw (heard, same.peers)
            (lookup-absorb e.now m.our_key msg.known_peers entered msg.sender
              (lookup-insert_self msg.sender (beaten e.now msg old) m.peers)),
        rw (heard, same.suspicions),
        rw (heard, same.our_key),
      )

  -- After a heartbeat its sender is alive and seen now, and a suspicion about it that was raised
  -- earlier is without effect, whoever reports it.
  pub on_suspicion-on_heartbeat :
      (e' : Env) (from_peer : ℕ) (s : Suspicion)
      → s.suspect ≡ msg.sender
      → s.timestamp < e.now
      → ((p : PeerInfo) × (lookup msg.sender (on_heartbeat e msg m).peers ≡ some p)
          × (p.status ≡ alive)
          × (p.last_seen ≡ e.now))
        × (on_suspicion e' from_peer s (on_heartbeat e msg m) ≡ on_heartbeat e msg m)
  unfolding beaten
  on_suspicion-on_heartbeat e' from_peer s about early = (
    (beaten e.now msg old, on_heartbeat-fields.0, refl, refl),
    on_suspicion_stale e' from_peer s (on_heartbeat e msg m) {p = beaten e.now msg old}
        (rw about (on_heartbeat-fields.0)) early,
  )

  -- Reports against a peer that is alive are kept when it is heard from: with one report on file
  -- before its heartbeat, one further reporter after it has the peer confirmed dead.
  pub on_heartbeat_keeps_report :
      {p : PeerInfo} {r1 : ℕ}
      → lookup msg.sender m.peers ≡ some p
      → p.status ≡ alive
      → lookup msg.sender m.suspicions ≡ some (r1 ∷ [])
      → (e' : Env) (from_peer r2 : ℕ) (s : Suspicion) → s.suspect ≡ msg.sender
      → s.sender ≡ some r2
      → r2 ≢ r1
      → e.now ≤ s.timestamp
      → (q : PeerInfo) × (lookup msg.sender
            (on_suspicion e' from_peer s (on_heartbeat e msg m)).peers
          ≡ some q)
        × (q.status ≡ dead)
  unfolding beaten
  on_heartbeat_keeps_report {p} {r1} known living report e' from_peer r2 s about from_r2 ne late =
      let known_old : old ≡ p = unfold peer_or_new in (rw known) in
      let kept : (on_heartbeat e msg m).suspicions ≡ m.suspicions =
        on_heartbeat-fields.1 ∙ unfold cleared in (ground arith) in
      (
        record (beaten e.now msg old) { status = dead },
        subst
            (λ x.
              lookup x (on_suspicion e' from_peer s (on_heartbeat e msg m)).peers
              ≡ some (record (beaten e.now msg old) { status = dead }))
            about
            (on_suspicion_condemns e' from_peer s (on_heartbeat e msg m) {p = beaten e.now msg old}
              (rw about (on_heartbeat-fields.0)) (rw about (foreign.0))
              (rw (about, on_heartbeat-fields.2) (foreign.1)) late refl
              (rw (about, kept, from_r2) (two_reporters msg.sender r1 r2 m.suspicions report ne))),
        refl,
      )
