-- ===== src/Ledger/Kept.antt =====
-- Every method of whisper/ledger.py keeps the ledger well formed.
use whisper_network.Common.{
  ℕ, ◌<◌, ◌≡◌, inl, inr, refl, sym, ◌∙◌, Option, none, some, Bool, [], ◌∷◌, arith, Option-cases,
  Bool-cases, truthy, not, ◌||◌, String, is_some_eq,
}
use whisper_network.Common.Dict.{Dict, lookup, insert}
use whisper_network.Wire.{Task, Update, is_in_progress}
use whisper_network.Ledger.State.{Env, TaskLedger, persist, gossip_task}
use whisper_network.Ledger.Frame.{notify_submitter-Same, forward-Same}
use whisper_network.Ledger.Ops.{
  leased, claim_task, renewed, renew_lease, finished, complete_task, freed, release_lease,
}
use whisper_network.Ledger.Submit.{Ciphers, submitted, sealed, submit_task}
use whisper_network.Ledger.Bulk.{held_by, sweep, recover_identity, release_all_leases}
use whisper_network.Ledger.Leases.{claim_free, claim_held, Free-cases, rescues}
use whisper_network.Ledger.Sweep.{lookup-sweep, finish_sweep-tasks}
use whisper_network.Ledger.Update.{accepts, merge_update, merge_body, handle_ledger_update}
use whisper_network.Common.Lists.{contains}
use whisper_network.Common.Deque.{remember}
use whisper_network.Crypto.Signer.{verify}
use whisper_network.Ledger.Calls.{
  Call, claim, renew, release, complete, recover, release_all, submit, receive, perform,
}
use whisper_network.Ledger.Valid.{
  IsWellFormed, IsValid, lookup-IsValid, insert-IsValid, leased-IsWellFormed, renewed-IsWellFormed,
  finished-IsWellFormed, freed-IsWellFormed, stored-IsValid,
}

module _ (e : Env) (s : TaskLedger) (valid : IsValid s.tasks) where
  pub claim_task-IsValid : (id : ℕ) → IsValid (claim_task e id s).0.tasks
  unfolding claim_task
  claim_task-IsValid id = elim (Option-cases (lookup id s.tasks)) [
    | inl gone ↦ rw (gone, claim_task) valid
    | inr (t, there) ↦
        let ok = lookup-IsValid id s.tasks valid there in
        elim (Free-cases e id s there) [
          | inl free ↦ rw (claim_free e id s there free) (
              stored-IsValid e 0 id (leased e s id t) s (rescues t s) valid
                (unfold leased in (ok.0)) (leased-IsWellFormed e s id t ok.1))
          | inr held ↦ rw (claim_held e id s there held) valid
        ]
  ]

  pub renew_lease-IsValid : (id : ℕ) → IsValid (renew_lease e id s).0.tasks
  unfolding renew_lease
  renew_lease-IsValid id = elim (Option-cases (lookup id s.tasks)) [
    | inl gone ↦ rw (gone, renew_lease) valid
    | inr (t, there) ↦
        let ok = lookup-IsValid id s.tasks valid there in
        let kept =
          stored-IsValid e 0 id (renewed e s t) s s.tasks_rescued valid (unfold renewed in (ok.0))
            (renewed-IsWellFormed e s t ok.1) in
        elim (Bool-cases
          (not (is_some_eq t.leased_by s.our_key) || not (is_in_progress t.status))) [
            | inl refused ↦ rw (there, renew_lease, refused) valid
            | inr held ↦ rw (there, renew_lease, held) kept
          ]
  ]

  complete_task-IsValid :
      0 < e.now → (id : ℕ) (r : String) → IsValid (complete_task e id r s).0.tasks
  unfolding complete_task
  complete_task-IsValid later id r = elim (Option-cases (lookup id s.tasks)) [
    | inl gone ↦ rw (gone, complete_task) valid
    | inr (t, there) ↦
        let ok = lookup-IsValid id s.tasks valid there in
        let u = finished e r t in
        let told = gossip_task e 0 u (persist e (record s { tasks = insert id u s.tasks })) in
        let kept =
          stored-IsValid e 0 id u s s.tasks_rescued valid (unfold finished in (ok.0))
            (finished-IsWellFormed e r t later) in
        elim (Bool-cases (not (is_some_eq t.leased_by s.our_key))) [
          | inl refused ↦ rw (there, complete_task, refused) valid
          | inr held ↦
              rw (there, complete_task, held) (rw ((notify_submitter-Same e u told).tasks) kept)
        ]
  ]

  release_lease-IsValid : (id : ℕ) → IsValid (release_lease e id s).0.tasks
  unfolding release_lease
  release_lease-IsValid id = elim (Option-cases (lookup id s.tasks)) [
    | inl gone ↦ rw (gone, release_lease) valid
    | inr (t, there) ↦
        let ok = lookup-IsValid id s.tasks valid there in
        let kept =
          stored-IsValid e 0 id (freed t) s s.tasks_rescued valid (unfold freed in (ok.0))
            (freed-IsWellFormed t) in
        elim (Bool-cases (not (is_some_eq t.leased_by s.our_key))) [
          | inl refused ↦ rw (there, release_lease, refused) valid
          | inr held ↦ rw (there, release_lease, held) kept
        ]
  ]

  submit_task-IsValid :
      (c : Ciphers) (id : ℕ) (payload : String) (shard : ℕ) (key : Option ℕ)
      → IsValid (submit_task e c id payload shard key s).0.tasks
  unfolding submit_task
  submit_task-IsValid c id payload shard key =
      let u = submitted e id (sealed c shard payload) shard key in
      stored-IsValid e 0 id u s s.tasks_rescued valid (unfold submitted in refl)
        (unfold submitted in (ground arith))

sweep-lookup-none :
    (p : Task → Bool) (f : Task → Task) (k : ℕ) (d : Dict Task)
    → lookup k d ≡ none
    → lookup k (sweep p f d).0 ≡ none
sweep-lookup-none p f k d h = lookup-sweep p f k d ∙ rw h

sweep-IsValid :
    (p : Task → Bool) (f : Task → Task)
    → ((t : Task) → IsWellFormed t → IsWellFormed (f t))
    → ((t : Task) → (f t).task_id ≡ t.task_id)
    → (d : Dict Task) → IsValid d
    → IsValid (sweep p f d).0
unfolding sweep
sweep-IsValid p f w same [] valid = tt
sweep-IsValid p f w same ((k, t) ∷ d) valid =
    let rest = sweep-IsValid p f w same d valid.3 in
    let none_left = sweep-lookup-none p f k d valid.0 in
    elim (Bool-cases (p t)) [
      | inl yes_ ↦ rw yes_ (none_left, valid.1 ∙ sym (same t), w t valid.2, rest)
      | inr no_ ↦ rw no_ (none_left, valid.1, valid.2, rest)
    ]

recover_identity-IsValid :
    (e : Env) (s : TaskLedger) → IsValid s.tasks → IsValid (recover_identity e s).0.tasks
unfolding recover_identity
recover_identity-IsValid e s valid =
    rw ((finish_sweep-tasks e s (sweep (held_by s.our_key) (renewed e s) s.tasks)).0) (
      sweep-IsValid (held_by s.our_key) (renewed e s) (renewed-IsWellFormed e s)
        (λ t. unfold renewed in refl) s.tasks valid)

release_all_leases-IsValid :
    (e : Env) (s : TaskLedger) → IsValid s.tasks → IsValid (release_all_leases e s).0.tasks
unfolding release_all_leases
release_all_leases-IsValid e s valid =
    rw ((finish_sweep-tasks e s (sweep (held_by s.our_key) freed s.tasks)).0) (
      sweep-IsValid (held_by s.our_key) freed (λ t w. freed-IsWellFormed t)
        (λ t. unfold freed in refl) s.tasks valid)

-- A message that carries no task, or a well-formed one.
abbrev pub CarriesWellFormed : Option Task → Type 0
CarriesWellFormed none = Unit
CarriesWellFormed (some t) = IsWellFormed t

merge_body-IsValid :
    (e : Env) (msg : Update) (body : Option Task) (s : TaskLedger)
    → IsValid s.tasks
    → CarriesWellFormed body
    → IsValid (merge_body e msg body s).tasks
unfolding merge_body merge_update
merge_body-IsValid e msg none s valid w = valid
merge_body-IsValid e msg (some t) s valid w =
    let stored = persist e (record s { tasks = insert t.task_id t s.tasks }) in
    elim (Bool-cases (accepts t (lookup t.task_id s.tasks))) [
      | inl yes_ ↦
          rw (yes_, (forward-Same e msg stored).tasks)
            (insert-IsValid t.task_id t s.tasks valid refl w)
      | inr no_ ↦ rw no_ valid
    ]

handle_ledger_update-IsValid :
    (e : Env) (msg : Update) (s : TaskLedger)
    → IsValid s.tasks
    → CarriesWellFormed msg.task
    → IsValid (handle_ledger_update e msg s).tasks
unfolding handle_ledger_update
handle_ledger_update-IsValid e msg s valid w =
    let s' = record s { seen_ids = remember msg.msg_id s.seen_ids } in
    elim (Bool-cases (not (truthy msg.msg_id) || contains msg.msg_id s.seen_ids)) [
      | inl skip ↦ rw skip valid
      | inr fresh ↦ elim (Bool-cases (verify e.ed25519 msg)) [
        | inl good ↦ rw (fresh, good) (merge_body-IsValid e msg msg.task s' valid w)
        | inr forged ↦ rw (fresh, forged) valid
      ]
    ]

-- A call is admissible after time 0, and a message brings a well-formed task, if any.
abbrev pub IsAdmissible : Env → Call → Type 0
IsAdmissible e (receive msg) = CarriesWellFormed msg.task
IsAdmissible e _ = 0 < e.now

-- A call after time 0, or the receipt of a message that carries no task or a well-formed one, keeps a
-- well-formed ledger well formed.
pub perform-IsValid :
    (e : Env) (c : Call) (s : TaskLedger)
    → IsAdmissible e c
    → IsValid s.tasks
    → IsValid (perform e c s).tasks
unfolding perform
perform-IsValid e (submit c id payload shard key) s ok valid =
    submit_task-IsValid e s valid c id payload shard key
perform-IsValid e (claim id) s ok valid = claim_task-IsValid e s valid id
perform-IsValid e (renew id) s ok valid = renew_lease-IsValid e s valid id
perform-IsValid e (release id) s ok valid = release_lease-IsValid e s valid id
perform-IsValid e (complete id r) s ok valid = complete_task-IsValid e s valid ok id r
perform-IsValid e recover s ok valid = recover_identity-IsValid e s valid
perform-IsValid e release_all s ok valid = release_all_leases-IsValid e s valid
perform-IsValid e (receive msg) s ok valid = handle_ledger_update-IsValid e msg s valid ok
