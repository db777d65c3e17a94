-- ===== src/Membership/Silence.antt =====
-- The timed work of whisper/membership.py keeps the invariant behind confirmed deaths.
use whisper_network.Common.{
  ℕ, ◌≡◌, inl, inr, refl, sym, ◌∙◌, Option, none, some, true, List, [], ◌∷◌, arith, Bool-cases,
  ◌==◌, if◌then◌else◌, not, ◌&&◌, subst,
}
use whisper_network.Common.Lists.{length, contains, keep}
use whisper_network.Common.Dict.{Dict, lookup, insert, has_key}
use whisper_network.Membership.State.{
  suspected, is_dead, PeerInfo, new_peer, MembershipLayer, Env, join_all, suspect_all,
}
use whisper_network.Membership.Loops.{
  is_silent, detect, detect_failures, discover, is_half_silent, suspect_peer, drop_silent, axl_sync,
}
use whisper_network.Membership.Frame.{Same-trans, join_all-Same, suspect_all-Same}
use whisper_network.Membership.Confirmed.{IsBacked, Backed, insert-IsBacked, Same-Backed}

-- The silence detector changes no entry but from alive to suspected.
abbrev pub silenced : ℕ → ℕ → Option PeerInfo → Option PeerInfo
silenced now limit none = none
silenced now limit (some p) =
    some (if is_silent now limit p then record p { status = suspected } else p)

pub lookup-detect :
    (now limit k : ℕ) (peers : Dict PeerInfo)
    → lookup k (detect now limit peers).0 ≡ silenced now limit (lookup k peers)
unfolding detect
lookup-detect now limit k [] = refl
lookup-detect now limit k ((j, p) ∷ peers) = ground (arith, lookup-detect now limit k peers)

-- A change that makes nobody dead and brings in no entry for us keeps the invariant.
relabel-IsBacked :
    (us : ℕ) (peers peers' : Dict PeerInfo) (suspicions : Dict (List ℕ))
    → IsBacked us peers suspicions
    → lookup us peers' ≡ none
    → ((k : ℕ) (p : PeerInfo)
        → lookup k peers' ≡ some p
        → is_dead p.status ≡ true
        → lookup k peers ≡ some p)
    → IsBacked us peers' suspicions
relabel-IsBacked us peers peers' suspicions h clear old = record {
  confirmed = λ k p at_k dying. h.confirmed k p (old k p at_k dying) dying;
  distinct = h.distinct;
  not_us = clear;
  dict = h.dict;
}

silenced-dead :
    (now limit : ℕ) (entry : Option PeerInfo) (p : PeerInfo)
    → silenced now limit entry ≡ some p
    → is_dead p.status ≡ true
    → entry ≡ some p
unfolding is_silent
silenced-dead now limit none p e dying = cc
silenced-dead now limit (some q) p e dying = ground arith

pub detect_failures-Backed :
    (e : Env) (m : MembershipLayer) → Backed m → Backed (detect_failures e m)
unfolding detect_failures
detect_failures-Backed e m h =
    let r = detect e.now m.suspect_after m.peers in
    let m' = record m { peers = r.0 } in
    Same-Backed m' (suspect_all e 0 r.1 m') (suspect_all-Same e 0 r.1 m') (
      relabel-IsBacked m.our_key m.peers r.0 m.suspicions h
        (lookup-detect e.now m.suspect_after m.our_key m.peers ∙ rw h.not_us)
        (λ k p at_k dying.
          silenced-dead e.now m.suspect_after (lookup k m.peers) p
            (sym (lookup-detect e.now m.suspect_after k m.peers) ∙ at_k) dying))

discover-IsBacked :
    (now us : ℕ) (ks : List ℕ) (peers : Dict PeerInfo) (suspicions : Dict (List ℕ))
    → IsBacked us peers suspicions
    → IsBacked us (discover now us ks peers).0 suspicions
unfolding discover
discover-IsBacked now us [] peers suspicions h = h
discover-IsBacked now us (k ∷ ks) peers suspicions h =
    elim (Bool-cases (not (k == us) && not (has_key k peers))) [
      | inl fresh ↦ rw fresh (
          discover-IsBacked now us ks (insert k (new_peer now k) peers) suspicions
            (insert-IsBacked us peers suspicions h k (new_peer now k) (ground arith) refl))
      | inr known ↦ rw known (discover-IsBacked now us ks peers suspicions h)
    ]

suspect_peer-IsBacked :
    (now limit us k : ℕ) (entry : Option PeerInfo) (peers : Dict PeerInfo)
    (suspicions : Dict (List ℕ))
    → lookup k peers ≡ entry
    → IsBacked us peers suspicions
    → IsBacked us (suspect_peer k entry peers) suspicions
unfolding suspect_peer
suspect_peer-IsBacked now limit us k none peers suspicions at_k h = h
suspect_peer-IsBacked now limit us k (some p) peers suspicions at_k h =
    insert-IsBacked us peers suspicions h k (record p { status = suspected })
      (λ same. ground (arith, h.not_us, subst (λ x. lookup x peers ≡ some p) (sym same) at_k)) refl

drop_silent-IsBacked :
    (now limit us : ℕ) (ks : List ℕ) (peers : Dict PeerInfo) (suspicions : Dict (List ℕ))
    → IsBacked us peers suspicions
    → IsBacked us (drop_silent now limit ks peers).0 suspicions
unfolding drop_silent
drop_silent-IsBacked now limit us [] peers suspicions h = h
drop_silent-IsBacked now limit us (k ∷ ks) peers suspicions h =
    elim (Bool-cases (is_half_silent now limit (lookup k peers))) [
      | inl gone ↦ rw gone (
          drop_silent-IsBacked now limit us ks (suspect_peer k (lookup k peers) peers) suspicions
            (suspect_peer-IsBacked now limit us k (lookup k peers) peers suspicions refl h))
      | inr stays ↦ rw stays (drop_silent-IsBacked now limit us ks peers suspicions h)
    ]

pub axl_sync-Backed :
    (e : Env) (connected : List ℕ) (m : MembershipLayer)
    → Backed m
    → Backed (axl_sync e connected m)
unfolding axl_sync
axl_sync-Backed e connected m h =
    let d = discover e.now m.our_key connected m.peers in
    let gone = keep (λ k. not (contains k connected)) m.prev_axl_connected in
    let r = drop_silent e.now m.suspect_after gone d.0 in
    let m' = record m { peers = r.0; axl_connected = connected; prev_axl_connected = connected } in
    let m'' = join_all e 0 1 d.1 m' in
    Same-Backed m' (suspect_all e (length d.1) r.1 m'')
      (Same-trans m' m'' (suspect_all e (length d.1) r.1 m'') (join_all-Same e 0 1 d.1 m')
        (suspect_all-Same e (length d.1) r.1 m''))
      (drop_silent-IsBacked e.now m.suspect_after m.our_key gone d.0 m.suspicions
        (discover-IsBacked e.now m.our_key connected m.peers m.suspicions h))
