-- ===== src/Workqueue/Invariant.antt =====
-- What holds of the queue and its threads between two calls: each worker is idle, has work, or has
-- an ack or an error on the way, and never two of these.
use resctl_demo.Prelude.{ℕ, ◌+◌, ◌≤◌, ◌<◌, ◌≡◌, List, [], ◌∷◌, true, arith, count, length, update}
use resctl_demo.Workqueue.{WorkerHandle, System, running, crashed, new, ack}

-- The idle list is ordered by the time of its last activity, the latest first and none past `bound`.
abbrev pub Recent : (ℕ → WorkerHandle) → ℕ → List ℕ → Type 0
Recent h bound [] = Unit {0}
Recent h bound (id ∷ rest) = ((h id).last_active_at ≤ bound) × Recent h (h id).last_active_at rest

-- `acks` are the acks on the way. They are those of `ack_rx`, but while `keep_books` works.
pub record Inv (clock : ℕ) (acks : List ℕ) (s : System) : Type 0 where
  pub unique : (id : ℕ) → count id s.wq.workers ≤ 1
  pub balance :
      (id : ℕ)
      → count id s.wq.workers
        ≡ count id s.wq.idle_workers
          + count id acks
          + count id s.wq.err_rx
          + length (s.threads id).work_rx
  pub joinable : (id : ℕ) → 0 < count id s.wq.workers → (s.wq.handles id).join_handle ≡ true
  pub alive :
      (id : ℕ)
      → 0 < count id s.wq.workers
      → count id s.wq.err_rx ≡ 0
      → (s.threads id).thread ≡ running
  pub dead : (id : ℕ) → 0 < count id s.wq.err_rx → (s.threads id).thread ≡ crashed
  pub recent : Recent s.wq.handles clock s.wq.idle_workers

Recent-update :
    (h : ℕ → WorkerHandle) (id : ℕ) (e : WorkerHandle) (bound : ℕ) (ids : List ℕ)
    → count id ids ≡ 0
    → Recent h bound ids
    → Recent (update h id e) bound ids
Recent-update h id e bound [] z r = tt
Recent-update h id e bound (x ∷ ids) z r =
    ground (arith, Recent-update h id e (h x).last_active_at ids)

pub Recent-mono :
    (h : ℕ → WorkerHandle) (a b : ℕ) (ids : List ℕ) → a ≤ b → Recent h a ids → Recent h b ids
Recent-mono h a b [] p r = tt
Recent-mono h a b (x ∷ ids) p r = (omega arith, r.1)

pub new-Inv : (timeout clock : ℕ) → Inv clock [] (new timeout)
unfolding new
new-Inv timeout clock = record {
  unique = λ id. omega arith;
  balance = λ id. omega arith;
  joinable = λ id h. absurd (omega arith);
  alive = λ id h z. absurd (omega arith);
  dead = λ id h. absurd (omega arith);
  recent = tt;
}

-- An ack that is taken up moves its worker to the front of the idle list.
pub ack-Inv :
    (now id : ℕ) (acks : List ℕ) (s : System) → Inv now (id ∷ acks) s → Inv now acks (ack now id s)
unfolding ack
ack-Inv now id acks s v = record {
  unique = v.unique;
  balance = λ x. ground (arith, v.balance x);
  joinable = λ x h. ground (arith, v.joinable x h);
  alive = v.alive;
  dead = v.dead;
  recent = ground (arith, fresh, Recent-mono s.wq.handles);
}
  where
    fresh : Recent (ack now id s).wq.handles now s.wq.idle_workers
    fresh =
        Recent-update s.wq.handles id _ now s.wq.idle_workers
          (ground (arith, v.balance id, v.unique id)) v.recent
