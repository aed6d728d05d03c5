-- ===== src/Workqueue/Threads.antt =====
-- A round of `Worker::run` keeps the invariant: finished work becomes an ack, a panic an error.
use resctl_demo.Prelude.{ℕ, ◌≡◌, refl, List, [], ◌∷◌, Bool, arith, count-append}
use resctl_demo.Workqueue.{System, Thread, running, execute, run_one, run}
use resctl_demo.Workqueue.Invariant.{Inv}

module _ (panics : ℕ → Bool) (clock : ℕ) where
  execute-Inv :
      (id work : ℕ) (rest : List ℕ) (s : System)
      → (s.threads id).work_rx ≡ work ∷ rest
      → (s.threads id).thread ≡ running
      → Inv clock s.wq.ack_rx s
      → Inv clock (execute panics id work rest s).wq.ack_rx (execute panics id work rest s)
  unfolding execute
  execute-Inv id work rest s e r v = record {
    unique = λ x. ground (arith, v.unique x);
    balance = λ x. ground (
      arith,
      v.balance x,
      count-append x s.wq.ack_rx (id ∷ []),
      count-append x s.wq.err_rx (id ∷ []),
    );
    joinable = λ x h. ground (arith, v.joinable x);
    alive = λ x h z. ground (arith, v.alive x, count-append x s.wq.err_rx (id ∷ []));
    dead = λ x h. ground (
      arith,
      v.dead x,
      v.dead id,
      v.balance id,
      v.unique id,
      count-append x s.wq.err_rx (id ∷ []),
    );
    recent = ground (arith, v.recent);
  }

  run_one-Inv :
      (id : ℕ) (t : Thread) (work : List ℕ) (s : System)
      → (s.threads id).work_rx ≡ work
      → (s.threads id).thread ≡ t
      → Inv clock s.wq.ack_rx s
      → Inv clock (run_one panics t id work s).wq.ack_rx (run_one panics t id work s)
  unfolding run_one
  run_one-Inv id running (work ∷ rest) s e r v = execute-Inv id work rest s e r v
  run_one-Inv id _ _ s e r v = v

  pub run-Inv :
      (id : ℕ) (s : System)
      → Inv clock s.wq.ack_rx s
      → Inv clock (run panics id s).wq.ack_rx (run panics id s)
  unfolding run
  run-Inv id s v = run_one-Inv id _ _ s refl refl v
