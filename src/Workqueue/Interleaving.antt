-- ===== src/Workqueue/Interleaving.antt =====
-- The queue and its threads in any order of their steps.
use resctl_demo.Prelude.{ℕ, ◌≤◌, ◌≡◌, ◌≢◌, ◌↔◌, refl, List, [], ◌∷◌, Bool, arith, count, subst}
use resctl_demo.Prelude.Outcome.{ok, panicked}
use resctl_demo.Workqueue.{System, new, run, keep_books, queue}
use resctl_demo.Workqueue.Invariant.{Inv, new-Inv}
use resctl_demo.Workqueue.Threads.{run-Inv}
use resctl_demo.Workqueue.Safety.{keep_books-Kept, keep_books-panics}
use resctl_demo.Workqueue.Dispatch.{queue-Sent}

-- The states that the calls of one owner and the rounds of the threads reach, with the time of the
-- last call. Time does not run backwards, and the allocator hands out no address that is in use.
pub data Reach (panics : ℕ → Bool) (timeout : ℕ) : ℕ → System → Type 0 where
  started : (clock : ℕ) → Reach panics timeout clock (new timeout)
  ran :
      {clock : ℕ} {s : System}
      → Reach panics timeout clock s
      → (id : ℕ) → Reach panics timeout clock (run panics id s)
  kept :
      {clock : ℕ} {s t : System}
      → Reach panics timeout clock s
      → (now : ℕ) → clock ≤ now
      → keep_books panics now s ≡ ok t
      → Reach panics timeout now t
  queued :
      {clock : ℕ} {s t : System}
      → Reach panics timeout clock s
      → (now spawn_at fresh work : ℕ) → clock ≤ now
      → now ≤ spawn_at
      → count fresh s.wq.workers ≡ 0
      → queue panics now spawn_at fresh work s ≡ ok t
      → Reach panics timeout spawn_at t

module _ (panics : ℕ → Bool) (clock now : ℕ) (s t : System) (le : clock ≤ now)
    (v : Inv clock s.wq.ack_rx s) where
  kept-Inv :
      (errs : List ℕ) → s.wq.err_rx ≡ errs → keep_books panics now s ≡ ok t → Inv now t.wq.ack_rx t
  kept-Inv [] z e =
      let (k, eq, after) = keep_books-Kept panics now clock s le v z in
      let same : k ≡ t = cc in subst (λ u. Inv now u.wq.ack_rx u) same after.inv
  kept-Inv (id ∷ ids) z e = cc (keep_books-panics panics now clock s id ids le v z)

  queued-Inv :
      (spawn_at fresh work : ℕ) (errs : List ℕ)
      → s.wq.err_rx ≡ errs
      → now ≤ spawn_at
      → count fresh s.wq.workers ≡ 0
      → queue panics now spawn_at fresh work s ≡ ok t
      → Inv spawn_at t.wq.ack_rx t
  unfolding queue
  queued-Inv spawn_at fresh work [] z later unused e =
      let (k, u, _, eq, sent) =
        queue-Sent panics clock now spawn_at fresh work s le later v z unused in
      let same : u ≡ t = cc in subst (λ w. Inv spawn_at w.wq.ack_rx w) same sent.inv
  queued-Inv spawn_at fresh work (id ∷ ids) z later unused e =
      ground (arith, keep_books-panics panics now clock s id ids le v z)

-- In every reachable state each worker is in exactly one of four places: idle, with one item of
-- work, or with one ack or one error on the way; the idle ones run and are sorted by age.
pub Reach-Inv :
    (panics : ℕ → Bool) (timeout clock : ℕ) (s : System)
    → Reach panics timeout clock s
    → Inv clock s.wq.ack_rx s
unfolding new
Reach-Inv panics timeout _ _ (started clock) = new-Inv timeout clock
Reach-Inv panics timeout clock _ (ran {s = s} r id) =
    run-Inv panics clock id s (Reach-Inv panics timeout clock s r)
Reach-Inv panics timeout _ t (kept {clock = clock} {s = s} r now le e) =
    kept-Inv panics clock now s t le (Reach-Inv panics timeout clock s r) s.wq.err_rx refl e
Reach-Inv panics timeout _ t (queued {clock = clock} {s = s} r now spawn fresh work le later un e) =
    queued-Inv panics clock now s t le (Reach-Inv panics timeout clock s r) spawn fresh work
      s.wq.err_rx refl later un e

module _ (panics : ℕ → Bool) (clock now spawn_at fresh work : ℕ) (s : System)
    (v : Inv clock s.wq.ack_rx s) (le : clock ≤ now) (later : now ≤ spawn_at)
    (unused : count fresh s.wq.workers ≡ 0) where
  queue-ne-panicked : s.wq.err_rx ≡ [] → queue panics now spawn_at fresh work s ≢ panicked
  queue-ne-panicked z p =
      let (k, u, _, eq, sent) =
        queue-Sent panics clock now spawn_at fresh work s le later v z unused in
      cc

  queue-panicked :
      (errs : List ℕ)
      → s.wq.err_rx ≡ errs
      → errs ≢ []
      → queue panics now spawn_at fresh work s ≡ panicked
  unfolding queue
  queue-panicked [] z nz = absurd (nz refl)
  queue-panicked (id ∷ ids) z nz =
      ground (arith, keep_books-panics panics now clock s id ids le v z)

-- A call of `queue` in a reachable state panics exactly when some worker has reported an error. It
-- needs an address for a new handle that no worker has, and time that does not run backwards.
pub queue-panics_iff :
    (panics : ℕ → Bool) (timeout clock now spawn_at fresh work : ℕ) (s : System)
    → Reach panics timeout clock s
    → clock ≤ now
    → now ≤ spawn_at
    → count fresh s.wq.workers ≡ 0
    → (queue panics now spawn_at fresh work s ≡ panicked) ↔ (s.wq.err_rx ≢ [])
queue-panics_iff panics timeout clock now spawn_at fresh work s r le later un = (
  λ p z.
      queue-ne-panicked panics clock now spawn_at fresh work s (Reach-Inv panics timeout clock s r)
        le later un z p,
  queue-panicked panics clock now spawn_at fresh work s (Reach-Inv panics timeout clock s r) le
      later un s.wq.err_rx refl,
)
