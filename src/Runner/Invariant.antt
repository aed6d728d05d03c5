-- ===== src/Runner/Invariant.antt =====
-- The runner holds the service of the benchmark that it runs, and no other.
use resctl_demo.Prelude.{
  ℕ, ◌≡◌, refl, subst, Option, none, some, Bool, true, false, not, leb, if◌then◌else◌, arith,
  Bool-cases, inl, inr,
}
use resctl_demo.Prelude.Outcome.{Outcome, ok, panicked, ◌>>=◌}
use resctl_demo.Runner.{
  RunnerState, idle, running, bench_hashd, bench_io_cost, Config, Parts, Rd, Answer, Tried,
  become_idle, try, or_fail, or_panic,
}
use resctl_demo.Runner.Commands.{
  swappiness_from, apply_swappiness, zswap_from, apply_zswap_enabled, start_iocost, start_hashd,
  start_hashd_with_balloon, apply_idle, or_warn, apply_workloads, apply_running, apply_state,
  clear_warnings, is_idle, finish_cmd, ack_cmd, apply_cmd,
}

abbrev pub is_some {ℓ} : {A : Type ℓ} → Option A → Bool
is_some none = false
is_some (some a) = true

-- The services that a state goes with.
abbrev pub Fits : RunnerState → Bool → Bool → Type 0
Fits bench_hashd hashd iocost = (hashd ≡ true) × (iocost ≡ false)
Fits bench_io_cost hashd iocost = (hashd ≡ false) × (iocost ≡ true)
Fits _ hashd iocost = (hashd ≡ false) × (iocost ≡ false)

module _ {W Svc : Type 0} (cfg : Config) (p : Parts W Svc) where
  abbrev pub IsCoherent : Rd cfg p → Type 0
  IsCoherent d = Fits d.state (is_some d.hashd_svc) (is_some d.iocost_svc)

  -- Whatever it returns, it leaves data as they should be.
  abbrev pub Leaves {κ} : {A : Type κ} → (Rd cfg p → Type 0) → Outcome (A × Rd cfg p) → Type 0
  Leaves P panicked = Unit
  Leaves P (ok (a, d)) = P d

  -- Data with the same state and services.
  abbrev Same : Rd cfg p → Rd cfg p → Type 0
  Same d e = (e.state ≡ d.state) × (e.hashd_svc ≡ d.hashd_svc) × (e.iocost_svc ≡ d.iocost_svc)

  or_fail-Leaves :
      (P : Rd cfg p → Type 0) (t : Bool × Rd cfg p) (rest : Rd cfg p → Answer cfg p)
      → P t.1
      → ((d : Rd cfg p) → P d → Leaves P (rest d))
      → Leaves P (or_fail cfg p t rest)
  or_fail-Leaves P (true, d) rest h k = k d h
  or_fail-Leaves P (false, d) rest h k = h

  or_panic-Leaves :
      (P : Rd cfg p → Type 0) (t : Bool × Rd cfg p) (rest : Rd cfg p → Answer cfg p)
      → P t.1
      → ((d : Rd cfg p) → P d → Leaves P (rest d))
      → Leaves P (or_panic cfg p t rest)
  or_panic-Leaves P (true, d) rest h k = k d h
  or_panic-Leaves P (false, d) rest h k = tt

  tried-Leaves :
      (P : Rd cfg p → Type 0) (t : Tried cfg p) (rest : Rd cfg p → Answer cfg p)
      → Leaves P t
      → ((d : Rd cfg p) → P d → Leaves P (rest d))
      → Leaves P (t >>= λ t. or_fail cfg p t rest)
  tried-Leaves P panicked rest h k = tt
  tried-Leaves P (ok t) rest h k = or_fail-Leaves P t rest h k

  pub become_idle-IsCoherent : (d : Rd cfg p) → IsCoherent (become_idle cfg p d)
  unfolding become_idle
  become_idle-IsCoherent d = (refl, refl)

  -- A test, either way.
  if-Leaves :
      {A : Type 0} (P : Rd cfg p → Type 0) (b : Bool) (x y : Outcome (A × Rd cfg p))
      → Leaves P x
      → Leaves P y
      → Leaves P (if b then x else y)
  if-Leaves P true x y h k = h
  if-Leaves P false x y h k = k

  if_either :
      (P : Rd cfg p → Type 0) (b : Bool) (d e : Rd cfg p) → P d → P e → P (if b then d else e)
  if_either P true d e h k = h
  if_either P false d e h k = k

  swappiness_from-IsCoherent :
      (swappiness cur sr : Option ℕ) (d : Rd cfg p)
      → IsCoherent d
      → Leaves IsCoherent (swappiness_from cfg p swappiness cur sr d)
  unfolding swappiness_from try
  swappiness_from-IsCoherent swappiness none sr d h = h
  swappiness_from-IsCoherent swappiness (some cur) none d h = tt
  swappiness_from-IsCoherent swappiness (some cur) (some sr) d h = ground arith

  apply_swappiness-IsCoherent :
      (d : Rd cfg p) → IsCoherent d → Leaves IsCoherent (apply_swappiness cfg p d)
  unfolding apply_swappiness
  apply_swappiness-IsCoherent d h = if-Leaves IsCoherent (not cfg.enforce_mem) (ok (true, d)) _ h (
      swappiness_from-IsCoherent d.cmd.swappiness (p.read_swappiness d.parts) cfg.sr_swappiness d h)

  zswap_from-IsCoherent :
      (enabled cur sr : Option Bool) (d : Rd cfg p)
      → IsCoherent d
      → Leaves IsCoherent (zswap_from cfg p enabled cur sr d)
  unfolding zswap_from try
  zswap_from-IsCoherent enabled none sr d h = h
  zswap_from-IsCoherent enabled (some cur) none d h = tt
  zswap_from-IsCoherent enabled (some cur) (some sr) d h = ground arith

  apply_zswap_enabled-IsCoherent :
      (d : Rd cfg p) → IsCoherent d → Leaves IsCoherent (apply_zswap_enabled cfg p d)
  unfolding apply_zswap_enabled
  apply_zswap_enabled-IsCoherent d h =
      if-Leaves IsCoherent (not cfg.enforce_mem) (ok (true, d)) _ h (
        zswap_from-IsCoherent d.cmd.zswap_enabled (p.read_zswap_enabled d.parts)
          cfg.sr_zswap_enabled d h)

  -- Data of a runner without a benchmark.
  abbrev NoBench : Rd cfg p → Type 0
  NoBench d = (is_some d.hashd_svc ≡ false) × (is_some d.iocost_svc ≡ false)

  start_iocost-IsCoherent :
      (d : Rd cfg p) → IsCoherent d → NoBench d → Leaves IsCoherent (start_iocost cfg p d)
  unfolding start_iocost
  start_iocost-IsCoherent d h n = ground (arith, h, n)

  start_hashd-IsCoherent :
      (d : Rd cfg p) → IsCoherent d → NoBench d → Leaves IsCoherent (start_hashd cfg p d)
  unfolding start_hashd
  start_hashd-IsCoherent d h n = ground (arith, h, n)

  start_hashd_with_balloon-IsCoherent :
      (d : Rd cfg p)
      → IsCoherent d
      → NoBench d
      → Leaves IsCoherent (start_hashd_with_balloon cfg p d)
  unfolding start_hashd_with_balloon try
  start_hashd_with_balloon-IsCoherent d h n =
      elim (Bool-cases (p.set_balloon_size d.cmd.bench_hashd_balloon_size d.parts).0) [
        | inl e ↦ rw e (start_hashd-IsCoherent _ h n)
        | inr e ↦ rw e tt
      ]

  apply_idle-IsCoherent :
      (d : Rd cfg p) → IsCoherent d → NoBench d → Leaves IsCoherent (apply_idle cfg p d)
  unfolding apply_idle
  apply_idle-IsCoherent d h n =
      ground (arith, h, n, start_iocost-IsCoherent d h n, start_hashd_with_balloon-IsCoherent d h n)

  apply_running-IsCoherent :
      (d : Rd cfg p) → IsCoherent d → Leaves IsCoherent (apply_running cfg p d)
  unfolding apply_running apply_workloads or_warn try
  apply_running-IsCoherent d h = ground (arith, become_idle-IsCoherent d)

  apply_state-IsCoherent :
      (s : RunnerState) (d : Rd cfg p)
      → IsCoherent d
      → d.state ≡ s
      → Leaves IsCoherent (apply_state cfg p s d)
  unfolding apply_state
  apply_state-IsCoherent idle d h e =
      apply_idle-IsCoherent d h
        (subst (λ s. Fits s (is_some d.hashd_svc) (is_some d.iocost_svc)) e h)
  apply_state-IsCoherent running d h e = apply_running-IsCoherent d h
  apply_state-IsCoherent bench_hashd d h e =
      if_either IsCoherent (leb d.cmd.bench_hashd_seq d.bench.hashd_seq) _ d
        (become_idle-IsCoherent d) h
  apply_state-IsCoherent bench_io_cost d h e =
      if_either IsCoherent (leb d.cmd.bench_iocost_seq d.bench.iocost_seq) _ d
        (become_idle-IsCoherent d) h

  finish_cmd-IsCoherent :
      (t : Option Bool × Rd cfg p) → IsCoherent t.1 → Leaves IsCoherent (finish_cmd cfg p t)
  unfolding finish_cmd clear_warnings
  finish_cmd-IsCoherent (none, d) h = h
  finish_cmd-IsCoherent (some repeat, d) h = if_either IsCoherent (is_idle d.state) d _ h h

  then-Leaves :
      (a : Answer cfg p) (f : Option Bool × Rd cfg p → Answer cfg p)
      → Leaves IsCoherent a
      → ((t : Option Bool × Rd cfg p) → IsCoherent t.1 → Leaves IsCoherent (f t))
      → Leaves IsCoherent (a >>= f)
  then-Leaves panicked f h k = tt
  then-Leaves (ok t) f h k = k t h

  -- `apply_cmd` keeps the state and the services together, also when it returns an error.
  pub apply_cmd-IsCoherent : (d : Rd cfg p) → IsCoherent d → Leaves IsCoherent (apply_cmd cfg p d)
  unfolding apply_cmd ack_cmd
  apply_cmd-IsCoherent d h =
      tried-Leaves IsCoherent (apply_swappiness cfg p (ack_cmd cfg p d)) _
        (apply_swappiness-IsCoherent (ack_cmd cfg p d) h)
        (λ d h.
          tried-Leaves IsCoherent (apply_zswap_enabled cfg p d) _
            (apply_zswap_enabled-IsCoherent d h)
            (λ d h.
              then-Leaves (apply_state cfg p d.state d) (finish_cmd cfg p)
                (apply_state-IsCoherent d.state d h refl) finish_cmd-IsCoherent))
