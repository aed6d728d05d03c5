-- ===== src/Workqueue.antt =====
-- The worker pool of rd-hashd/src/workqueue.rs.
--
-- A `WorkerRef` is an `Rc<RefCell<WorkerHandle>>` and `wref_id` is its address, so a reference is
-- modelled by that number and `handles` is the store of the cells. The map `workers` sends each
-- address to the reference at that address, so it is the list of its keys. Whether a closure
-- panics is a parameter, and a closure is a number. `keep_books` drains what the channels hold when
-- it is called: what a thread sends during the call is as if it had been sent before or after it.
pub mod Map
pub mod Invariant
pub mod Threads
pub mod Books
pub mod Safety
pub mod Dispatch
pub mod Interleaving
mod Tests
use resctl_demo.Prelude.{
  ℕ, ◌-◌, List, [], ◌∷◌, ◌++◌, reverse, Bool, true, false, ltb, if◌then◌else◌, update,
}
use resctl_demo.Prelude.Outcome.{Outcome, ok, panicked, ◌>>=◌}
use Map.{contains_key, remove, insert}

pub record WorkerHandle : Type 0 where
  pub last_active_at : ℕ
  pub join_handle : Bool

pub record WorkQueue : Type 0 where
  pub idle_timeout : ℕ
  pub workers : List ℕ
  -- the head is the front
  pub idle_workers : List ℕ
  pub ack_rx : List ℕ
  pub err_rx : List ℕ
  pub handles : ℕ → WorkerHandle

pub data Thread : Type 0 where
  running exited crashed : Thread

-- A worker thread: the work sent to it that it has not finished, what it executes first, and
-- whether it runs.
pub record Worker : Type 0 where
  pub work_rx : List ℕ
  pub thread : Thread

-- The queue, and the threads by the address of their handles.
pub record System : Type 0 where
  pub wq : WorkQueue
  pub threads : ℕ → Worker

pub new : ℕ → System
new timeout = record {
  wq = record {
    idle_timeout = timeout;
    workers = [];
    idle_workers = [];
    ack_rx = [];
    err_rx = [];
    handles = λ id. record { last_active_at = 0; join_handle = false };
  };
  threads = λ id. record { work_rx = []; thread = exited };
}

pub set_thread : ℕ → Worker → System → System
set_thread id t s = record s { threads = update s.threads id t }

pub set_handle : ℕ → WorkerHandle → System → System
set_handle id h s = record s { wq = record s.wq { handles = update s.wq.handles id h } }

-- `wref.borrow_mut().join_handle.take().unwrap()`
pub take_join_handle : ℕ → System → Outcome System
unfolding set_handle
take_join_handle id s =
    if (s.wq.handles id).join_handle
    then ok (set_handle id (record (s.wq.handles id) { join_handle = false }) s)
    else panicked

-- `last_active_at = now`, and a place at the front of the idle list
pub ack : ℕ → ℕ → System → System
unfolding set_handle
ack now id s =
    let s' = set_handle id (record (s.wq.handles id) { last_active_at = now }) s in
    record s' { wq = record s'.wq { idle_workers = id ∷ s.wq.idle_workers } }

-- Every id is looked up, which panics if it is not there.
pub process_acks : ℕ → List ℕ → System → Outcome System
unfolding ack contains_key
process_acks now [] s = ok s
process_acks now (id ∷ ids) s =
    let more = process_acks now ids (ack now id s) in
    if contains_key id s.wq.workers then more else panicked

-- The worker leaves both collections; `rest` is what is left of the idle list.
pub drop_worker : ℕ → List ℕ → System → System
unfolding remove
drop_worker id rest s = record s {
  wq = record s.wq { workers = remove id s.wq.workers; idle_workers = rest };
}

module _ (panics : ℕ → Bool) where
  -- One round of the loop in `Worker::run`, with its first item of work at hand: an ack, or an
  -- error and the unwinding of the thread.
  pub execute : ℕ → ℕ → List ℕ → System → System
  unfolding set_thread
  execute id work rest s =
      if panics work
      then set_thread id (record { work_rx = rest; thread = crashed })
          (record s { wq = record s.wq { err_rx = s.wq.err_rx ++ id ∷ [] } })
      else set_thread id (record { work_rx = rest; thread = running })
          (record s { wq = record s.wq { ack_rx = s.wq.ack_rx ++ id ∷ [] } })

  -- A running thread with work executes its next item, any other waits.
  pub run_one : Thread → ℕ → List ℕ → System → System
  unfolding execute
  run_one running id (work ∷ rest) s = execute id work rest s
  run_one _ id _ s = s

  pub run : ℕ → System → System
  unfolding run_one
  run id s = run_one (s.threads id).thread id (s.threads id).work_rx s

  -- The thread of a dropped handle: it works off what was sent and leaves its loop.
  pub run_out : ℕ → List ℕ → System → System
  unfolding execute set_thread
  run_out id [] s = set_thread id (record { work_rx = []; thread = exited }) s
  run_out id (work ∷ rest) s =
      let more = run_out id rest (execute id work rest s) in
      if panics work then execute id work rest s else more

  -- `jh.join().unwrap()`, or the `if let Err(e) = jh.join()` whose body panics
  pub join_in : Thread → ℕ → System → Outcome System
  unfolding run_out
  join_in crashed id s = panicked
  join_in exited id s = ok s
  join_in running id s =
      let s' = run_out id (s.threads id).work_rx s in
      elim (s'.threads id).thread [ crashed ↦ panicked | _ ↦ ok s' ]

  pub join : ℕ → System → Outcome System
  unfolding join_in
  join id s = join_in (s.threads id).thread id s

  pub process_errors : List ℕ → System → Outcome System
  unfolding take_join_handle join contains_key remove
  process_errors [] s = ok s
  process_errors (id ∷ ids) s =
      if contains_key id s.wq.workers
      then take_join_handle id (record s { wq = record s.wq { workers = remove id s.wq.workers } })
        >>= (λ s'. join id s' >>= process_errors ids)
      else panicked

  -- Idle workers are destroyed from the back of the list, which is the head of `backs`, until one
  -- has not timed out. The handles that are taken are joined at the end.
  pub reap : ℕ → List ℕ → List ℕ → System → Outcome (List ℕ × System)
  unfolding take_join_handle drop_worker
  reap now [] jhs s = ok (jhs, s)
  reap now (id ∷ backs) jhs s =
      let more =
        take_join_handle id (drop_worker id (reverse backs) s)
        >>= reap now backs (jhs ++ id ∷ []) in
      if ltb (now - (s.wq.handles id).last_active_at) s.wq.idle_timeout then ok (jhs, s) else more

  pub join_all : List ℕ → System → Outcome System
  unfolding join
  join_all [] s = ok s
  join_all (id ∷ ids) s = join id s >>= join_all ids

  pub keep_books : ℕ → System → Outcome System
  unfolding process_acks process_errors reap join_all
  keep_books now s =
      process_acks now s.wq.ack_rx (record s { wq = record s.wq { ack_rx = [] } }) >>= λ a.
      process_errors a.wq.err_rx (record a { wq = record a.wq { err_rx = [] } }) >>= λ b.
      reap now (reverse b.wq.idle_workers) [] b >>= λ (jhs, c). join_all jhs c

-- The front of the idle list, or a new worker at the address `fresh`, made at `spawn_at`.
pub get_next_worker : ℕ → ℕ → System → ℕ × System
unfolding insert set_handle set_thread
get_next_worker spawn_at fresh s = elim s.wq.idle_workers [
  | id ∷ rest ↦ (id, record s { wq = record s.wq { idle_workers = rest } })
  | [] ↦ (
    fresh,
    set_thread fresh (record { work_rx = []; thread = running })
        (set_handle fresh (record { last_active_at = spawn_at; join_handle = true })
          (record s { wq = record s.wq { workers = insert fresh s.wq.workers } })),
  )
]

-- `work_tx.send(work).unwrap()`: the receiver is gone if the thread has ended.
pub send : ℕ → ℕ → System → Outcome System
unfolding set_thread
send id work s = elim (s.threads id).thread [
  | running ↦
      ok (set_thread id (record (s.threads id) { work_rx = (s.threads id).work_rx ++ work ∷ [] }) s)
  | _ ↦ panicked
]

module _ (panics : ℕ → Bool) where
  pub queue : ℕ → ℕ → ℕ → ℕ → System → Outcome System
  unfolding keep_books get_next_worker send
  queue now spawn_at fresh work s = keep_books panics now s >>= λ s'.
      let (id, s'') = get_next_worker spawn_at fresh s' in send id work s''
