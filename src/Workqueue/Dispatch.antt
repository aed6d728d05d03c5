-- ===== src/Workqueue/Dispatch.antt =====
-- `queue`: who gets the work.
use resctl_demo.Prelude.{
  ℕ, ◌+◌, ◌≤◌, ◌<◌, ◌≡◌, refl, ap, List, [], ◌∷◌, ◌++◌, reverse, Bool, arith, count, length, ◌⊎◌,
  inl, inr, count-append, count-reverse, length-append, ◌==◌, if◌then◌else◌, true, subst,
}
use resctl_demo.Prelude.Outcome.{Outcome, ok}
use resctl_demo.Workqueue.{System, running, set_thread, set_handle, get_next_worker, send, queue}
use resctl_demo.Workqueue.Map.{insert, count-insert}
use resctl_demo.Workqueue.Invariant.{Inv, Recent, Recent-mono}
use resctl_demo.Workqueue.Books.Age.{count-fresh_only}
use resctl_demo.Workqueue.Books.{seen}
use resctl_demo.Workqueue.Safety.{Kept, keep_books-Kept}

-- `id` is the worker that got `work`: it runs, with nothing else to do. It is the idle worker that
-- was active last, or the new one.
pub record Sent (clock fresh work : ℕ) (before after : System) : Type 0 where
  pub inv : Inv clock after.wq.ack_rx after
  pub id : ℕ
  pub chosen :
      before.wq.idle_workers ≡ id ∷ after.wq.idle_workers
      ⊎ ((before.wq.idle_workers ≡ []) × (id ≡ fresh))
  pub work_rx : (after.threads id).work_rx ≡ work ∷ []
  pub thread : (after.threads id).thread ≡ running
  pub workers :
      (x : ℕ)
      → count x after.wq.workers
        ≡ count x before.wq.workers
          + (if length before.wq.idle_workers == 0 then count x (fresh ∷ []) else 0)

nil-of-length : (xs : List ℕ) → length xs ≡ 0 → xs ≡ []
nil-of-length [] h = refl
nil-of-length (x ∷ xs) h = absurd (omega arith)

dispatch : ℕ → ℕ → ℕ → System → Outcome System
unfolding get_next_worker send
dispatch spawn_at fresh work s = let (id, s') = get_next_worker spawn_at fresh s in send id work s'

module _ (now spawn_at fresh work : ℕ) (s : System) (later : now ≤ spawn_at)
    (v : Inv now s.wq.ack_rx s) (z : s.wq.err_rx ≡ []) (unused : count fresh s.wq.workers ≡ 0) where
  abbrev to_idle : ℕ → List ℕ → System
  to_idle id rest =
      set_thread id (record (s.threads id) { work_rx = (s.threads id).work_rx ++ work ∷ [] })
        (record s { wq = record s.wq { idle_workers = rest } })

  abbrev to_new : System
  to_new =
      set_thread fresh (record { work_rx = work ∷ []; thread = running })
        (set_thread fresh (record { work_rx = []; thread = running })
          (set_handle fresh (record { last_active_at = spawn_at; join_handle = true })
            (record s { wq = record s.wq { workers = insert fresh s.wq.workers } })))

  waiting :
      (id : ℕ) (rest : List ℕ)
      → s.wq.idle_workers ≡ id ∷ rest
      → (count id s.wq.err_rx ≡ 0) × (0 < count id s.wq.workers) × ((s.threads id).work_rx ≡ [])
  waiting id rest e = (
    ap (count id) z,
    ground (arith, v.balance id),
    nil-of-length (s.threads id).work_rx (ground (arith, v.balance id, v.unique id)),
  )

  to_idle-Inv :
      (id : ℕ) (rest : List ℕ)
      → s.wq.idle_workers ≡ id ∷ rest
      → Inv spawn_at s.wq.ack_rx (to_idle id rest)
  unfolding set_thread
  to_idle-Inv id rest e = record {
    unique = v.unique;
    balance = λ x.
        ground
          (arith, v.balance x, ap (count x) e, length-append (s.threads id).work_rx (work ∷ []));
    joinable = v.joinable;
    alive = λ x h n. ground (arith, v.alive x);
    dead = λ x h. ground (arith, v.dead x);
    recent =
        Recent-mono s.wq.handles (s.wq.handles id).last_active_at spawn_at rest
          (ground (arith, (subst (Recent s.wq.handles now) e v.recent).0))
          (subst (Recent s.wq.handles now) e v.recent).1;
  }

  dispatch-idle :
      (id : ℕ) (rest : List ℕ)
      → s.wq.idle_workers ≡ id ∷ rest
      → (t : System) × (dispatch spawn_at fresh work s ≡ ok t) × Sent spawn_at fresh work s t
  unfolding dispatch set_thread
  dispatch-idle id rest e =
      let (clear, there, nothing) = waiting id rest e in
      (
        to_idle id rest,
        ground (arith, v.alive id there clear),
        record {
          inv = to_idle-Inv id rest e;
          id = id;
          chosen = inl e;
          work_rx = ground (arith, nothing);
          thread = ground (arith, v.alive id there clear);
          workers = λ x. ground arith;
        },
      )

  to_new-Inv : s.wq.idle_workers ≡ [] → Inv spawn_at s.wq.ack_rx to_new
  unfolding set_thread set_handle
  to_new-Inv e = record {
    unique = λ x. ground (arith, v.unique x, count-insert x fresh s.wq.workers unused);
    balance = λ x. ground (
      arith,
      v.balance x,
      v.balance fresh,
      ap (count x) e,
      count-insert x fresh s.wq.workers unused,
    );
    joinable = λ x h. ground (arith, v.joinable x, count-insert x fresh s.wq.workers unused);
    alive = λ x h n. ground (arith, v.alive x, count-insert x fresh s.wq.workers unused);
    dead = λ x h. absurd (omega (arith, ap (count x) z));
    recent = rw e tt;
  }

  dispatch-new :
      s.wq.idle_workers ≡ []
      → (t : System) × (dispatch spawn_at fresh work s ≡ ok t) × Sent spawn_at fresh work s t
  unfolding dispatch set_thread set_handle
  dispatch-new e = (
    to_new,
    ground arith,
    record {
      inv = to_new-Inv e;
      id = fresh;
      chosen = inr (e, refl);
      work_rx = ground arith;
      thread = ground arith;
      workers = λ x. ground (arith, count-insert x fresh s.wq.workers unused, v.balance x);
    },
  )

  dispatch-Sent :
      (idle : List ℕ)
      → s.wq.idle_workers ≡ idle
      → (t : System) × (dispatch spawn_at fresh work s ≡ ok t) × Sent spawn_at fresh work s t
  dispatch-Sent (id ∷ rest) e = dispatch-idle id rest e
  dispatch-Sent [] e = dispatch-new e

module _ (panics : ℕ → Bool) (clock now spawn_at fresh work : ℕ) (s : System) where
  still_unused :
      (k : System)
      → Inv clock s.wq.ack_rx s
      → Kept panics now clock s k
      → count fresh s.wq.workers ≡ 0
      → count fresh k.wq.workers ≡ 0
  still_unused k v kept unused = omega (
    arith,
    v.balance fresh,
    kept.gone fresh,
    ap (count fresh) kept.idle,
    count-append fresh (reverse s.wq.ack_rx) s.wq.idle_workers,
    count-reverse fresh s.wq.ack_rx,
    count-fresh_only (seen now s.wq.ack_rx s) s.wq.idle_timeout now fresh
        (reverse s.wq.ack_rx ++ s.wq.idle_workers),
  )

  -- `queue` keeps its books and then gives the work to one worker, if no worker has panicked and
  -- the address of a new handle is that of no live one.
  pub queue-Sent :
      clock ≤ now
      → now ≤ spawn_at
      → Inv clock s.wq.ack_rx s
      → s.wq.err_rx ≡ []
      → count fresh s.wq.workers ≡ 0
      → (k : System) × (t : System) × Kept panics now clock s k
        × (queue panics now spawn_at fresh work s ≡ ok t)
        × Sent spawn_at fresh work k t
  unfolding queue dispatch
  queue-Sent le later v z unused =
      let (k, eq, kept) = keep_books-Kept panics now clock s le v z in
      let (t, sent, is_sent) =
        dispatch-Sent now spawn_at fresh work k later kept.inv kept.err_rx
          (still_unused k v kept unused) k.wq.idle_workers refl in
      (k, t, kept, rw eq sent, is_sent)
