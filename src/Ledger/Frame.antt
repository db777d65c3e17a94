-- ===== src/Ledger/Frame.antt =====
-- Gossip and notifications (whisper/ledger.py) leave the tasks, the file and the configuration alone.
use whisper_network.Common.{ℕ, ◌+◌, ◌≡◌, refl, ◌∙◌, List, [], ◌∷◌, arith}
use whisper_network.Wire.{Task, Update}
use whisper_network.Ledger.State.{
  Env, TaskLedger, fanout_raw, gossip_task, gossip_all, notify_key, notify_submitter,
}
use whisper_network.Ledger.Update.{forward}

-- What a call that only sends has in common with its start.
pub record Same (s s' : TaskLedger) : Type 0 where
  pub tasks : s'.tasks ≡ s.tasks
  pub disk : s'.disk ≡ s.disk
  pub our_key : s'.our_key ≡ s.our_key
  pub seen_ids : s'.seen_ids ≡ s.seen_ids
  pub rescued : s'.tasks_rescued ≡ s.tasks_rescued
  pub lease_duration : s'.lease_duration ≡ s.lease_duration

pub gossip_task-Same : (e : Env) (i : ℕ) (t : Task) (s : TaskLedger) → Same s (gossip_task e i t s)
unfolding gossip_task fanout_raw
gossip_task-Same e i t s = record {
  tasks = refl;
  disk = refl;
  our_key = refl;
  seen_ids = refl;
  rescued = refl;
  lease_duration = refl;
}

pub Same-trans : (s t u : TaskLedger) → Same s t → Same t u → Same s u
Same-trans s t u p q = record {
  tasks = q.tasks ∙ p.tasks;
  disk = q.disk ∙ p.disk;
  our_key = q.our_key ∙ p.our_key;
  seen_ids = q.seen_ids ∙ p.seen_ids;
  rescued = q.rescued ∙ p.rescued;
  lease_duration = q.lease_duration ∙ p.lease_duration;
}

pub gossip_all-Same :
    (e : Env) (i : ℕ) (ts : List Task) (s : TaskLedger) → Same s (gossip_all e i ts s)
unfolding gossip_all
gossip_all-Same e i [] s = record {
  tasks = refl;
  disk = refl;
  our_key = refl;
  seen_ids = refl;
  rescued = refl;
  lease_duration = refl;
}
gossip_all-Same e i (t ∷ ts) s =
    Same-trans s (gossip_task e i t s) (gossip_all e (i + 1) ts (gossip_task e i t s))
      (gossip_task-Same e i t s) (gossip_all-Same e (i + 1) ts (gossip_task e i t s))

pub notify_submitter-Same : (e : Env) (t : Task) (s : TaskLedger) → Same s (notify_submitter e t s)
unfolding notify_submitter notify_key
notify_submitter-Same e t s = record {
  tasks = ground arith;
  disk = ground arith;
  our_key = ground arith;
  seen_ids = ground arith;
  rescued = ground arith;
  lease_duration = ground arith;
}

pub forward-Same : (e : Env) (msg : Update) (s : TaskLedger) → Same s (forward e msg s)
unfolding forward fanout_raw
forward-Same e msg s = record {
  tasks = ground arith;
  disk = ground arith;
  our_key = ground arith;
  seen_ids = ground arith;
  rescued = ground arith;
  lease_duration = ground arith;
}
