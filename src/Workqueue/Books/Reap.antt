-- ===== src/Workqueue/Books/Reap.antt =====
-- The last phase of `keep_books`: which idle workers are destroyed, and that joining them is safe.
use mathlib.Core.List.{reverse-cons}
use resctl_demo.Prelude.{
  ℕ, ◌+◌, ◌-◌, ◌≡◌, ◌≢◌, refl, sym, ap, ◌∙◌, List, [], ◌∷◌, ◌++◌, reverse, true, false, Bool, arith,
  count, length, ltb, inl, inr, Bool-cases, subst, All, All-map, All-append, count-append,
}
use resctl_demo.Prelude.Outcome.{Outcome, ok}
use resctl_demo.Workqueue.{System, crashed, set_handle, take_join_handle, drop_worker, reap}
use resctl_demo.Workqueue.Map.{count-remove}
use resctl_demo.Workqueue.Invariant.{Inv, Recent}
use resctl_demo.Workqueue.Books.Age.{
  fresh_only, Recent-init, Recent-same, fresh_only-same, fresh_only-stale, fresh_only-fresh,
}

abbrev pub times : System → ℕ → ℕ
times s x = (s.wq.handles x).last_active_at

-- A worker that is no longer in the map, whose thread waits or has ended.
abbrev pub IsRetired : System → ℕ → Type 0
IsRetired s id =
    (count id s.wq.workers ≡ 0) × ((s.threads id).work_rx ≡ []) × ((s.threads id).thread ≢ crashed)

abbrev retire : ℕ → List ℕ → System → System
retire id backs s =
    set_handle id (record (s.wq.handles id) { join_handle = false })
      (drop_worker id (reverse backs) s)

nil-of-length : {A : Type 0} (xs : List A) → length xs ≡ 0 → xs ≡ []
nil-of-length [] h = refl
nil-of-length (x ∷ xs) h = absurd (omega arith)

module _ (now : ℕ) (id : ℕ) (backs : List ℕ) (s : System) (v : Inv now [] s)
    (e : s.wq.idle_workers ≡ reverse backs ++ id ∷ []) where
  idle_count : (x : ℕ) → count x s.wq.idle_workers ≡ count x (reverse backs) + count x (id ∷ [])
  idle_count x = ap (count x) e ∙ count-append x (reverse backs) (id ∷ [])

  take-retire : take_join_handle id (drop_worker id (reverse backs) s) ≡ ok (retire id backs s)
  unfolding take_join_handle drop_worker
  take-retire = ground (arith, v.joinable id, v.balance id, idle_count id)

  retire-Inv : Inv now [] (retire id backs s)
  unfolding drop_worker set_handle
  retire-Inv = record {
    unique = λ x. ground (arith, v.unique x, count-remove x id s.wq.workers);
    balance =
        λ x. ground (arith, v.balance x, v.unique x, idle_count x, count-remove x id s.wq.workers);
    joinable = λ x h. ground (arith, v.joinable x, count-remove x id s.wq.workers);
    alive = λ x h z. ground (arith, v.alive x, count-remove x id s.wq.workers);
    dead = v.dead;
    recent =
        Recent-same s.wq.handles (retire id backs s).wq.handles now (reverse backs)
          (λ x. ground arith)
          (Recent-init s.wq.handles now (reverse backs) id
            (subst (Recent s.wq.handles now) e v.recent));
  }

  retire-IsRetired : IsRetired (retire id backs s) id
  unfolding drop_worker set_handle
  retire-IsRetired = (
    ground (arith, count-remove id id s.wq.workers),
    nil-of-length (s.threads id).work_rx (ground (arith, v.balance id, v.unique id, idle_count id)),
    λ c. ground (arith, v.alive id, v.balance id, v.unique id, idle_count id),
  )

  IsRetired-retire : (x : ℕ) → IsRetired s x → IsRetired (retire id backs s) x
  unfolding drop_worker set_handle
  IsRetired-retire x r = (ground (arith, r.0, count-remove x id s.wq.workers), r.1, r.2)

pub record Reaped (now : ℕ) (s : System) (r : Outcome (List ℕ × System)) : Type 0 where
  pub handles : List ℕ
  pub after : System
  pub eq : r ≡ ok (handles, after)
  pub inv : Inv now [] after
  pub err_rx : after.wq.err_rx ≡ []
  pub ack_rx : after.wq.ack_rx ≡ s.wq.ack_rx
  pub idle : after.wq.idle_workers ≡ fresh_only (times s) s.wq.idle_timeout now s.wq.idle_workers
  pub gone :
      (x : ℕ)
      → count x after.wq.workers + count x s.wq.idle_workers
        ≡ count x s.wq.workers + count x after.wq.idle_workers
  pub retired : All (IsRetired after) handles

module _ (panics : ℕ → Bool) (now : ℕ) where
  reap-stop :
      (id : ℕ) (backs jhs : List ℕ) (s : System)
      → Inv now [] s
      → s.wq.err_rx ≡ []
      → s.wq.idle_workers ≡ reverse backs ++ id ∷ []
      → All (IsRetired s) jhs
      → ltb (now - (s.wq.handles id).last_active_at) s.wq.idle_timeout ≡ true
      → Reaped now s (ok (jhs, s))
  reap-stop id backs jhs s v z e rs f = record {
    handles = jhs;
    after = s;
    eq = refl;
    inv = v;
    err_rx = z;
    ack_rx = refl;
    idle = rw e (
        sym (
          fresh_only-fresh s.wq.handles s.wq.idle_timeout now now (reverse backs) id
            (subst (Recent s.wq.handles now) e v.recent) f));
    gone = λ x. refl;
    retired = rs;
  }

  reap-more :
      (id : ℕ) (backs : List ℕ) (s : System) (r : Outcome (List ℕ × System))
      → s.wq.idle_workers ≡ reverse backs ++ id ∷ []
      → ltb (now - (s.wq.handles id).last_active_at) s.wq.idle_timeout ≡ false
      → Inv now [] s
      → Reaped now (retire id backs s) r
      → Reaped now s r
  unfolding drop_worker set_handle
  reap-more id backs s r e f v p = record {
    handles = p.handles;
    after = p.after;
    eq = p.eq;
    inv = p.inv;
    err_rx = p.err_rx;
    ack_rx = p.ack_rx;
    idle =
        p.idle
        ∙ fresh_only-same (times s) (times (retire id backs s)) s.wq.idle_timeout now
            (reverse backs) (λ x. ground arith)
        ∙ sym (rw e (fresh_only-stale (times s) s.wq.idle_timeout now (reverse backs) id f));
    gone = λ x. ground (
      arith,
      p.gone x,
      v.unique x,
      v.balance x,
      idle_count now id backs s v e x,
      count-remove x id s.wq.workers,
    );
    retired = p.retired;
  }

  pub reap-Reaped :
      (backs jhs : List ℕ) (s : System)
      → Inv now [] s
      → s.wq.err_rx ≡ []
      → s.wq.idle_workers ≡ reverse backs
      → All (IsRetired s) jhs
      → Reaped now s (reap panics now backs jhs s)
  unfolding reap
  reap-Reaped [] jhs s v z e rs = record {
    handles = jhs;
    after = s;
    eq = refl;
    inv = v;
    err_rx = z;
    ack_rx = refl;
    idle = rw e;
    gone = λ x. refl;
    retired = rs;
  }
  reap-Reaped (id ∷ backs) jhs s v z e rs =
      elim (Bool-cases (ltb (now - (s.wq.handles id).last_active_at) s.wq.idle_timeout)) [
        | inl f ↦ rw f (reap-stop id backs jhs s v z e' rs f)
        | inr f ↦
            rw (f, take-retire now id backs s v e')
              (reap-more id backs s _ e' f v (
                reap-Reaped backs (jhs ++ id ∷ []) (retire id backs s)
                  (retire-Inv now id backs s v e') z refl
                  (All-append _ jhs (id ∷ [])
                    (All-map _ _ jhs (IsRetired-retire now id backs s v e') rs)
                    (retire-IsRetired now id backs s v e', tt))))
      ]
    where
      e' : s.wq.idle_workers ≡ reverse backs ++ id ∷ []
      e' = e ∙ reverse-cons id backs
