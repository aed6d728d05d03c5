-- ===== src/Workqueue/Books.antt =====
-- `keep_books`, phase by phase: the acks, the errors and the idle workers that are destroyed.
pub mod Age
pub mod Reap
use mathlib.Core.List.{append_assoc, reverse-cons}
use resctl_demo.Prelude.{
  ℕ, ◌+◌, ◌<◌, ◌≡◌, ◌≢◌, refl, sym, ap, ◌∙◌, List, [], ◌∷◌, ◌++◌, reverse, true, false, Bool, arith,
  count, length, ◌==◌, update, subst, if◌then◌else◌,
}
use resctl_demo.Prelude.Outcome.{Outcome, ok, panicked, ◌>>=◌}
use resctl_demo.Workqueue.{
  System, running, exited, crashed, set_handle, take_join_handle, ack, process_acks, join_in, join,
  process_errors, drop_worker,
}
use resctl_demo.Workqueue.Map.{count-remove, pos-contains_key, contains_key, remove}
use resctl_demo.Workqueue.Invariant.{Inv, Recent, ack-Inv, Recent-mono}

-- The state once the acks `ids` are taken up.
abbrev pub acked : ℕ → List ℕ → System → System
acked now [] s = s
acked now (id ∷ ids) s = acked now ids (ack now id s)

pub process_acks_lem :
    (now : ℕ) (ids : List ℕ) (s : System)
    → Inv now ids s
    → process_acks now ids s ≡ ok (acked now ids s)
unfolding process_acks
process_acks_lem now [] s v = refl
process_acks_lem now (id ∷ ids) s v =
    rw (pos-contains_key id s.wq.workers (ground (arith, v.balance id)))
      (process_acks_lem now ids (ack now id s) (ack-Inv now id ids s v))

pub acked-Inv : (now : ℕ) (ids : List ℕ) (s : System) → Inv now ids s → Inv now [] (acked now ids s)
acked-Inv now [] s v = v
acked-Inv now (id ∷ ids) s v = acked-Inv now ids (ack now id s) (ack-Inv now id ids s v)

pub err_rx-acked : (now : ℕ) (ids : List ℕ) (s : System) → (acked now ids s).wq.err_rx ≡ s.wq.err_rx
unfolding ack
err_rx-acked now [] s = refl
err_rx-acked now (id ∷ ids) s = err_rx-acked now ids (ack now id s)

pub workers-acked :
    (now : ℕ) (ids : List ℕ) (s : System) → (acked now ids s).wq.workers ≡ s.wq.workers
unfolding ack
workers-acked now [] s = refl
workers-acked now (id ∷ ids) s = workers-acked now ids (ack now id s)

pub ack_rx-acked : (now : ℕ) (ids : List ℕ) (s : System) → (acked now ids s).wq.ack_rx ≡ s.wq.ack_rx
unfolding ack
ack_rx-acked now [] s = refl
ack_rx-acked now (id ∷ ids) s = ack_rx-acked now ids (ack now id s)

pub timeout-acked :
    (now : ℕ) (ids : List ℕ) (s : System) → (acked now ids s).wq.idle_timeout ≡ s.wq.idle_timeout
unfolding ack
timeout-acked now [] s = refl
timeout-acked now (id ∷ ids) s = timeout-acked now ids (ack now id s)

-- The workers that became idle stand before the others, the last one first.
pub idle-acked :
    (now : ℕ) (ids : List ℕ) (s : System)
    → (acked now ids s).wq.idle_workers ≡ reverse ids ++ s.wq.idle_workers
unfolding ack
idle-acked now [] s = refl
idle-acked now (id ∷ ids) s =
    idle-acked now ids (ack now id s)
    ∙ sym (rw (reverse-cons id ids) (append_assoc (reverse ids) (id ∷ []) s.wq.idle_workers))

-- When a worker was last active, once the acks `ids` are taken up at `now`.
abbrev pub seen : ℕ → List ℕ → System → ℕ → ℕ
seen now ids s x = if contains_key x ids then now else (s.wq.handles x).last_active_at

pub times-acked :
    (now : ℕ) (ids : List ℕ) (s : System) (x : ℕ)
    → ((acked now ids s).wq.handles x).last_active_at ≡ seen now ids s x
unfolding ack contains_key
times-acked now [] s x = refl
times-acked now (id ∷ ids) s x = ground (arith, times-acked now ids (ack now id s) x)

module _ (panics : ℕ → Bool) where
  -- An error that has arrived panics the caller.
  pub process_errors-panics :
      (now id : ℕ) (ids acks : List ℕ) (s : System)
      → Inv now acks s
      → s.wq.err_rx ≡ id ∷ ids
      → (t : System) → t ≡ record s { wq = record s.wq { err_rx = [] } }
      → process_errors panics (id ∷ ids) t ≡ panicked
  unfolding process_errors join
  process_errors-panics now id ids acks s v e t et =
      ground (arith, v.balance id, v.joinable id, v.dead id, pos-contains_key id s.wq.workers)
