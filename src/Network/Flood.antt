-- ===== src/Network/Flood.antt =====
-- The weight of the gossip on its way (whisper/ledger.py, `handle_ledger_update` and `_fanout_raw`): a
-- message counts with all copies that its hops allow.
use whisper_network.Common.{
  ℕ, zero, suc, ◌+◌, ◌-◌, ◌*◌, ◌<◌, ◌≤◌, ◌≡◌, inl, inr, refl, ◌∙◌, ap, List, [], ◌∷◌, ◌++◌, arith,
  Bool-cases, Option, none, some, Option-cases, ltb, not, truthy, ◌||◌,
}
use whisper_network.Common.Lists.{length, length-take, contains, keep}
use whisper_network.Common.Dict.{Dict, lookup, insert}
use whisper_network.Common.Deque.{remember}
use whisper_network.Wire.{Task, Sent, Message, Update, ledger_update, send_all}
use whisper_network.Crypto.Signer.{Ed25519, verify, sign}
use whisper_network.Gossip.{fanout_targets, gossip_fanout, gossip_hops}
use whisper_network.Ledger.State.{Env, TaskLedger, persist, fanout_raw, gossip_task}
use whisper_network.Ledger.Update.{handle_ledger_update, merge_body, merge_update, forward, accepts}
use whisper_network.Network.{Network, handled, hand_over, Step, hand, lose, Steps, none_left, next}

-- What one message with so many hops left can cause: itself, and its copies.
unfoldable pub hop_weight : ℕ → ℕ
hop_weight zero = 1
hop_weight (suc hops) = 1 + gossip_fanout * hop_weight hops

-- A message with 1 hop or none is not sent on.
abbrev pub weight : Message → ℕ
weight (ledger_update u) = hop_weight (u.hops - 1)
weight _ = 1

unfoldable pub total_weight : List Sent → ℕ
total_weight [] = 0
total_weight (sent ∷ rest) = weight sent.1 + total_weight rest

total_weight-append :
    (xs ys : List Sent) → total_weight (xs ++ ys) ≡ total_weight xs + total_weight ys
unfolding total_weight
total_weight-append [] ys = omega arith
total_weight-append (x ∷ xs) ys = omega (arith, total_weight-append xs ys)

-- `n` times a weight.
copies : ℕ → ℕ → ℕ
copies zero w = 0
copies (suc n) w = w + copies n w

total_weight-send_all :
    (n : ℕ) (targets : List ℕ) (m : Message)
    → length targets ≤ n
    → total_weight (send_all targets m) ≤ copies n (weight m)
unfolding total_weight copies
total_weight-send_all n [] m few = omega arith
total_weight-send_all zero (x ∷ xs) m few = absurd (omega (arith, few))
total_weight-send_all (suc n) (x ∷ xs) m few =
    omega (arith, total_weight-send_all n xs m (omega (arith, few)))

length-fanout :
    (f g : List ℕ → List ℕ) (peers axl : List ℕ) → length (fanout_targets f g peers axl) ≤ 3
unfolding fanout_targets
length-fanout f g peers axl = omega (
  arith,
  length-take gossip_fanout
      (f (keep (λ k. contains k axl) peers) ++ g (keep (λ k. not (contains k axl)) peers)),
)

hop_weight_pos : (h : ℕ) → 0 < hop_weight h
unfolding hop_weight
hop_weight_pos zero = omega arith
hop_weight_pos (suc h) = omega arith

hop_weight_step : (h : ℕ) → 1 < h → hop_weight (h - 1) ≡ 1 + 3 * hop_weight (h - 1 - 1)
unfolding hop_weight
hop_weight_step zero more = absurd (omega (arith, more))
hop_weight_step (suc zero) more = absurd (omega (arith, more))
hop_weight_step (suc (suc h)) more =
    (let e : suc (suc h) - 1 ≡ suc h = omega arith in ap hop_weight e)
    ∙ ap (λ x. 1 + 3 * hop_weight x) (let e : h ≡ suc (suc h) - 1 - 1 = omega arith in e)

forward-light :
    (e : Env) (msg : Update) (s : TaskLedger)
    → total_weight (forward e msg s).sent < total_weight s.sent + hop_weight (msg.hops - 1)
unfolding forward fanout_raw copies
forward-light e msg s = elim (Bool-cases (ltb 1 msg.hops)) [
  | inl more ↦
      let targets = fanout_targets (e.shuffled 0) (e.shuffled 1) e.peers e.axl_connected in
      let copy : Message = ledger_update (record msg { hops = msg.hops - 1 }) in
      rw more (
        omega (
          arith,
          total_weight-append s.sent (send_all targets copy),
          total_weight-send_all 3 targets copy
              (length-fanout (e.shuffled 0) (e.shuffled 1) e.peers e.axl_connected),
          hop_weight_step msg.hops (ground arith),
        ))
  | inr last ↦ rw last (omega (arith, hop_weight_pos (msg.hops - 1)))
]

merge_body-light :
    (e : Env) (msg : Update) (body : Option Task) (s : TaskLedger)
    → total_weight (merge_body e msg body s).sent < total_weight s.sent + hop_weight (msg.hops - 1)
unfolding merge_body merge_update
merge_body-light e msg none s = omega (arith, hop_weight_pos (msg.hops - 1))
merge_body-light e msg (some incoming) s =
    elim (Bool-cases (accepts incoming (lookup incoming.task_id s.tasks))) [
      | inl takes ↦ rw takes (
          forward-light e msg
            (persist e (record s { tasks = insert incoming.task_id incoming s.tasks })))
      | inr keeps ↦ rw keeps (omega (arith, hop_weight_pos (msg.hops - 1)))
    ]

-- What a node sends on weighs less than what it has received.
handled-light :
    (e : Env) (msg : Update) (s : TaskLedger)
    → total_weight (handled e msg s).sent < hop_weight (msg.hops - 1)
unfolding handled handle_ledger_update total_weight
handled-light e msg s =
    let fresh : TaskLedger = record s { sent = [] } in
    let seen : TaskLedger = record fresh { seen_ids = remember msg.msg_id s.seen_ids } in
    elim (Bool-cases (not (truthy msg.msg_id) || contains msg.msg_id s.seen_ids)) [
      | inl skip ↦ rw skip (hop_weight_pos (msg.hops - 1))
      | inr fresh ↦ elim (Bool-cases (verify e.ed25519 msg)) [
        | inl good ↦ rw (fresh, good) (omega (arith, merge_body-light e msg msg.task seen))
        | inr forged ↦ rw (fresh, forged) (hop_weight_pos (msg.hops - 1))
      ]
    ]

total_weight-middle :
    (sent : Sent) (before after : List Sent)
    → total_weight (before ++ sent ∷ after) ≡ weight sent.1 + total_weight (before ++ after)
unfolding total_weight
total_weight-middle sent before after =
    omega (arith, total_weight-append before (sent ∷ after), total_weight-append before after)

weight_pos : (m : Message) → 0 < weight m
weight_pos (ledger_update u) = hop_weight_pos (u.hops - 1)
weight_pos _ = omega arith

hand_over-light :
    (e : Env) (to : ℕ) (msg : Update) (nodes : Dict TaskLedger) (others : List Sent)
    → total_weight (hand_over e to msg nodes others).in_flight
      < hop_weight (msg.hops - 1) + total_weight others
unfolding hand_over
hand_over-light e to msg nodes others = elim (Option-cases (lookup to nodes)) [
  | inl missing ↦ rw (hand_over, missing) (omega (arith, hop_weight_pos (msg.hops - 1)))
  | inr (s, there) ↦
      rw (hand_over, there)
        (omega (arith, total_weight-append others (handled e msg s).sent, handled-light e msg s))
]

Step-light : (a b : Network) → Step a b → total_weight b.in_flight < total_weight a.in_flight
Step-light a b (hand e to msg nodes before after) = omega (
  arith,
  hand_over-light e to msg nodes (before ++ after),
  total_weight-middle (to, ledger_update msg) before after,
)
Step-light a b (lose sent nodes before after) =
    omega (arith, weight_pos sent.1, total_weight-middle sent before after)

Steps-light :
    (n : ℕ) (a b : Network) → Steps n a b → n + total_weight b.in_flight ≤ total_weight a.in_flight
Steps-light n a b (none_left _) = omega arith
Steps-light n a c (next m _ b _ step rest) =
    omega (arith, Step-light a b step, Steps-light m b c rest)

sign-hops : (f : Ed25519) (key : Option ℕ) (u : Update) → (sign f key u).hops ≡ u.hops
unfolding sign
sign-hops f none u = refl
sign-hops f (some k) u = refl

gossip_task-light :
    (e : Env) (i : ℕ) (t : Task) (s : TaskLedger)
    → s.sent ≡ []
    → total_weight (gossip_task e i t s).sent ≤ 9840
unfolding gossip_task fanout_raw copies total_weight hop_weight
gossip_task-light e i t s quiet =
    let targets =
      fanout_targets (e.shuffled (2 * i)) (e.shuffled (2 * i + 1)) e.peers e.axl_connected in
    let msg : Update = record {
      msg_id = e.fresh_id i;
      sender = s.our_key;
      hops = gossip_hops;
      task = some t;
      signature = 0;
      signing_key = 0;
    } in
    let signed : Update = sign e.ed25519 s.signing_key msg in
    let size : weight (ledger_update signed) ≡ 3280 =
      ap (λ h. hop_weight (h - 1)) (sign-hops e.ed25519 s.signing_key msg) in
    rw quiet (
      omega (
        arith,
        total_weight-send_all 3 targets (ledger_update signed)
            (length-fanout (e.shuffled (2 * i)) (e.shuffled (2 * i + 1)) e.peers e.axl_connected),
        size,
      ))

-- From a ledger with nothing left to send: when one change of a task is gossiped, at most 9840 messages
-- are handed over or lost from then on, however many nodes there are, and whichever messages arrive,
-- in whatever order.
pub flood-ends :
    (e : Env) (i : ℕ) (t : Task) (s : TaskLedger) (nodes : Dict TaskLedger) (n : ℕ) (b : Network)
    → s.sent ≡ []
    → Steps n (record { nodes = nodes; in_flight = (gossip_task e i t s).sent }) b
    → n ≤ 9840
flood-ends e i t s nodes n b quiet steps = omega (
  arith,
  gossip_task-light e i t s quiet,
  Steps-light n (record { nodes = nodes; in_flight = (gossip_task e i t s).sent }) b steps,
)
