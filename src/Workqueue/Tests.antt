-- ===== src/Workqueue/Tests.antt =====
-- Runs of the worker pool at concrete inputs.
use resctl_demo.Prelude.{ℕ, ◌≡◌, ◌↔◌, ◌≢◌, refl, [], ◌∷◌, Bool, arith, count, ◌==◌}
use resctl_demo.Prelude.Outcome.{Outcome, ok, panicked}
use resctl_demo.Workqueue.{System, new, run, keep_books, queue}
use resctl_demo.Workqueue.Invariant.{Inv}
use resctl_demo.Workqueue.Safety.{Kept, keep_books-Kept}
use resctl_demo.Workqueue.Dispatch.{Sent, queue-Sent}
use resctl_demo.Workqueue.Interleaving.{Reach, started, ran, queued, Reach-Inv, queue-panics_iff}

-- The work item 13 panics.
abbrev boom : ℕ → Bool
boom w = w == 13

abbrev or_new : Outcome System → System
or_new (ok s) = s
or_new panicked = new 5

-- Two workers, the first of which has finished its work.
abbrev two_workers : System
two_workers = run boom 100 (or_new (queue boom 2 2 200 8 (or_new (queue boom 1 1 100 7 (new 5)))))

two_workers-Reach : Reach boom 5 2 two_workers
unfolding new run queue
two_workers-Reach =
    ran
      (queued (queued (started 0) 1 1 100 7 (omega arith) (omega arith) refl refl) 2 2 200 8
        (omega arith) (omega arith) refl refl)
      100

reaped : (or_new (keep_books boom 8 (or_new (keep_books boom 3 two_workers)))).wq.workers ≡ 200 ∷ []
unfolding new run queue keep_books
reaped = refl

Reach-Inv_example : Inv 2 two_workers.wq.ack_rx two_workers
Reach-Inv_example = Reach-Inv boom 5 2 two_workers two_workers-Reach

no_errors : two_workers.wq.err_rx ≡ []
unfolding new run queue
no_errors = refl

only_two : count 300 two_workers.wq.workers ≡ 0
unfolding new run queue
only_two = refl

keep_books-Kept_example :
    (t : System) × (keep_books boom 3 two_workers ≡ ok t) × Kept boom 3 2 two_workers t
keep_books-Kept_example =
    keep_books-Kept boom 3 2 two_workers (omega arith) Reach-Inv_example no_errors

queue-Sent_example :
    (k : System) × (t : System) × Kept boom 3 2 two_workers k
    × (queue boom 3 3 300 9 two_workers ≡ ok t)
    × Sent 3 300 9 k t
queue-Sent_example =
    queue-Sent boom 2 3 3 300 9 two_workers (omega arith) (omega arith) Reach-Inv_example no_errors
      only_two

queue-panics_iff_example :
    (queue boom 3 3 300 9 two_workers ≡ panicked) ↔ (two_workers.wq.err_rx ≢ [])
queue-panics_iff_example =
    queue-panics_iff boom 5 2 3 3 300 9 two_workers two_workers-Reach (omega arith) (omega arith)
      only_two
