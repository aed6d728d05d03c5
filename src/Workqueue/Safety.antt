-- ===== src/Workqueue/Safety.antt =====
-- `keep_books` as a whole: it panics exactly when a worker has panicked, it destroys exactly the
-- workers that have been idle for too long, and what it joins can be joined.
use resctl_demo.Prelude.{
  ℕ, ◌+◌, ◌≤◌, ◌≡◌, refl, sym, ap, ◌∙◌, List, [], ◌∷◌, ◌++◌, reverse, Bool, arith, count, All,
  All-map, subst,
}
use resctl_demo.Prelude.Outcome.{Outcome, ok, panicked}
use mathlib.Core.List.{reverse-reverse}
use resctl_demo.Workqueue.{
  System, Thread, running, exited, crashed, set_thread, run_out, join_in, join, join_all,
  process_errors, keep_books,
}
use resctl_demo.Workqueue.Invariant.{Inv, Recent-mono}
use resctl_demo.Workqueue.Books.{
  acked, seen, process_acks_lem, acked-Inv, err_rx-acked, workers-acked, ack_rx-acked,
  timeout-acked, idle-acked, times-acked, process_errors-panics,
}
use resctl_demo.Workqueue.Books.Age.{fresh_only, fresh_only-same}
use resctl_demo.Workqueue.Books.Reap.{IsRetired, Reaped, reap-Reaped, times}

module _ (panics : ℕ → Bool) (now : ℕ) where
  joined : Thread → ℕ → System → System
  joined running id s = set_thread id (record { work_rx = []; thread = exited }) s
  joined _ id s = s

  join_in_lem :
      (t : Thread) (id : ℕ) (s : System)
      → (s.threads id).thread ≡ t
      → IsRetired s id
      → join_in panics t id s ≡ ok (joined t id s)
  unfolding join_in joined
  join_in_lem running id s e r = rw (r.1, join_in, run_out) (ground arith)
  join_in_lem exited id s e r = refl
  join_in_lem crashed id s e r = absurd (r.2 e)

  joined-Inv :
      (t : Thread) (id : ℕ) (s : System)
      → IsRetired s id
      → Inv now [] s
      → Inv now [] (joined t id s)
  unfolding joined set_thread
  joined-Inv running id s r v = record {
    unique = v.unique;
    balance = λ x. ground (arith, v.balance x, r.1);
    joinable = v.joinable;
    alive = λ x h z. ground (arith, v.alive x, r.0);
    dead = λ x h. ground (arith, v.dead x, v.balance x, r.0);
    recent = v.recent;
  }
  joined-Inv _ id s r v = v

  joined-IsRetired :
      (t : Thread) (id x : ℕ) (s : System) → IsRetired s x → IsRetired (joined t id s) x
  unfolding joined set_thread
  joined-IsRetired running id x s r = (r.0, ground (arith, r.1), ground (arith, r.2))
  joined-IsRetired _ id x s r = r

  wq-joined : (t : Thread) (id : ℕ) (s : System) → (joined t id s).wq ≡ s.wq
  unfolding joined set_thread
  wq-joined running id s = refl
  wq-joined _ id s = refl

  -- Retired workers are joined with no panic, and nothing of the queue changes.
  join_all_lem :
      (ids : List ℕ) (s : System)
      → All (IsRetired s) ids
      → Inv now [] s
      → (t : System) × (join_all panics ids s ≡ ok t) × (t.wq ≡ s.wq) × Inv now [] t
  unfolding join_all join
  join_all_lem [] s rs v = (s, refl, refl, v)
  join_all_lem (id ∷ ids) s rs v =
      let t = (s.threads id).thread in
      let (u, eq, same, inv) =
        join_all_lem ids (joined t id s)
          (All-map (IsRetired s) _ ids (λ x. joined-IsRetired t id x s) rs.1)
          (joined-Inv t id s rs.0 v) in
      (u, rw (join_in_lem t id s refl rs.0) eq, same ∙ wq-joined t id s, inv)

module _ (panics : ℕ → Bool) (now clock : ℕ) (s : System) where
  -- What a call of `keep_books` that returns leaves behind.
  pub record Kept (after : System) : Type 0 where
    pub inv : Inv now after.wq.ack_rx after
    pub err_rx : after.wq.err_rx ≡ []
    pub idle :
        after.wq.idle_workers
        ≡ fresh_only
            (seen now s.wq.ack_rx s)
            s.wq.idle_timeout
            now
            (reverse s.wq.ack_rx ++ s.wq.idle_workers)
    pub gone :
        (x : ℕ)
        → count x after.wq.workers + count x (reverse s.wq.ack_rx ++ s.wq.idle_workers)
          ≡ count x s.wq.workers + count x after.wq.idle_workers

  abbrev taken : System
  taken = acked now s.wq.ack_rx (record s { wq = record s.wq { ack_rx = [] } })

  start-Inv :
      clock ≤ now
      → Inv clock s.wq.ack_rx s
      → Inv now s.wq.ack_rx (record s { wq = record s.wq { ack_rx = [] } })
  start-Inv le v = record {
    unique = v.unique;
    balance = v.balance;
    joinable = v.joinable;
    alive = v.alive;
    dead = v.dead;
    recent = Recent-mono s.wq.handles clock now s.wq.idle_workers le v.recent;
  }

  taken-Inv : clock ≤ now → Inv clock s.wq.ack_rx s → Inv now [] taken
  taken-Inv le v = acked-Inv now s.wq.ack_rx _ (start-Inv le v)

  abbrev cleared : System
  cleared = record taken { wq = record taken.wq { err_rx = [] } }

  cleared-Inv : clock ≤ now → Inv clock s.wq.ack_rx s → s.wq.err_rx ≡ [] → Inv now [] cleared
  cleared-Inv le v z = record {
    unique = w.unique;
    balance = λ x. omega (arith, w.balance x, none_left x);
    joinable = w.joinable;
    alive = λ x h e. w.alive x h (none_left x);
    dead = λ x h. absurd (omega arith);
    recent = w.recent;
  }
    where
      w : Inv now [] taken
      w = taken-Inv le v

      none_left : (x : ℕ) → count x taken.wq.err_rx ≡ 0
      none_left x = ap (count x) (err_rx-acked now s.wq.ack_rx _ ∙ z)

  no_errors : s.wq.err_rx ≡ [] → process_errors panics taken.wq.err_rx cleared ≡ ok cleared
  unfolding process_errors
  no_errors z = ap (λ es. process_errors panics es cleared) (err_rx-acked now s.wq.ack_rx _ ∙ z)

  an_error :
      (id : ℕ) (ids : List ℕ)
      → clock ≤ now
      → Inv clock s.wq.ack_rx s
      → s.wq.err_rx ≡ id ∷ ids
      → process_errors panics taken.wq.err_rx cleared ≡ panicked
  an_error id ids le v z =
      let e = err_rx-acked now s.wq.ack_rx _ ∙ z in
      ap (λ es. process_errors panics es cleared) e
      ∙ process_errors-panics panics now id ids [] taken (taken-Inv le v) e cleared refl

  kept :
      (r : Outcome (List ℕ × System)) (p : Reaped now cleared r) (t : System)
      → t.wq ≡ p.after.wq
      → Inv now [] t
      → Kept t
  kept r p t same v = record {
    inv =
        subst (λ a. Inv now a t)
          (sym (ap (λ q. q.ack_rx) same ∙ p.ack_rx ∙ ack_rx-acked now s.wq.ack_rx _)) v;
    err_rx = ap (λ q. q.err_rx) same ∙ p.err_rx;
    idle =
        ap (λ q. q.idle_workers) same
        ∙ p.idle
        ∙ ap (λ n. fresh_only (times cleared) n now cleared.wq.idle_workers)
            (timeout-acked now s.wq.ack_rx _)
        ∙ ap (fresh_only (times cleared) s.wq.idle_timeout now) (idle-acked now s.wq.ack_rx _)
        ∙ fresh_only-same (seen now s.wq.ack_rx s) (times cleared) s.wq.idle_timeout now _
            (times-acked now s.wq.ack_rx _);
    gone = λ x. omega (
      arith,
      p.gone x,
      ap (λ q. count x q.workers) same,
      ap (λ q. count x q.idle_workers) same,
      ap (count x) (workers-acked now s.wq.ack_rx _),
      ap (count x) (idle-acked now s.wq.ack_rx _),
    );
  }

  -- With no error on the way the call returns, and the workers that it destroys are the idle ones,
  -- the newly idle among them, that have been idle for `idle_timeout` or longer.
  pub keep_books-Kept :
      clock ≤ now
      → Inv clock s.wq.ack_rx s
      → s.wq.err_rx ≡ []
      → (t : System) × (keep_books panics now s ≡ ok t) × Kept t
  unfolding keep_books
  keep_books-Kept le v z =
      let p =
        reap-Reaped panics now (reverse cleared.wq.idle_workers) [] cleared (cleared-Inv le v z)
          refl (sym (reverse-reverse cleared.wq.idle_workers)) tt in
      let (t, eq, same, inv) = join_all_lem panics now p.handles p.after p.retired p.inv in
      (
        t,
        rw (process_acks_lem now s.wq.ack_rx _ (start-Inv le v), no_errors z, p.eq) eq,
        kept _ p t same inv,
      )

  -- With an error on the way the caller panics.
  pub keep_books-panics :
      (id : ℕ) (ids : List ℕ)
      → clock ≤ now
      → Inv clock s.wq.ack_rx s
      → s.wq.err_rx ≡ id ∷ ids
      → keep_books panics now s ≡ panicked
  unfolding keep_books
  keep_books-panics id ids le v z =
      rw (process_acks_lem now s.wq.ack_rx _ (start-Inv le v), an_error id ids le v z)
