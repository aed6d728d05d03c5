-- ===== src/Runner/Transitions.antt =====
-- The states that `apply_cmd` moves between, and the end of the loop around it.
use resctl_demo.Prelude.{
  ℕ, suc, ◌≡◌, ◌≢◌, refl, sym, ap, ◌∙◌, subst, Option, none, some, Bool, true, false, ◌||◌, ltb,
  if◌then◌else◌, arith, Bool-cases, inl, inr,
}
use resctl_demo.Prelude.Outcome.{Outcome, ok, panicked, ◌>>=◌}
use resctl_demo.Runner.{
  RunnerState, idle, running, bench_hashd, bench_io_cost, Cmd, BenchKnobs, Config, Parts, Rd,
  Answer, Tried, become_idle, try, or_fail,
}
use resctl_demo.Runner.Invariant.{Leaves}
use resctl_demo.Runner.Commands.{
  swappiness_from, apply_swappiness, zswap_from, apply_zswap_enabled, start_iocost, start_hashd,
  start_hashd_with_balloon, apply_idle, or_warn, apply_workloads, apply_running, apply_state,
  clear_warnings, finish_cmd, ack_cmd, apply_cmd, apply_cmds, again,
}

-- Whether a benchmark has been asked for that is newer than its result.
abbrev pub wants_iocost : Cmd → BenchKnobs → Bool
wants_iocost cmd bench = ltb bench.iocost_seq cmd.bench_iocost_seq

abbrev pub wants_hashd : Cmd → BenchKnobs → Bool
wants_hashd cmd bench = ltb bench.hashd_seq cmd.bench_hashd_seq

-- The state that follows when nothing fails.
abbrev pub next_state : Bool → Cmd → BenchKnobs → RunnerState → RunnerState
next_state force cmd bench idle =
    if wants_iocost cmd bench
    then bench_io_cost
    else (if wants_hashd cmd bench
        then (if ltb 0 bench.iocost_seq || force then bench_hashd else idle)
        else (if ltb 0 bench.hashd_seq || force then running else idle))
next_state force cmd bench running =
    if wants_hashd cmd bench || wants_iocost cmd bench then idle else running
next_state force cmd bench bench_hashd = if wants_hashd cmd bench then bench_hashd else idle
next_state force cmd bench bench_io_cost = if wants_iocost cmd bench then bench_io_cost else idle

-- The move that makes the loop go on: from idle to running.
abbrev pub begins : RunnerState → RunnerState → Bool
begins idle running = true
begins _ _ = false

begins_idle : (s t : RunnerState) → s ≢ idle → begins s t ≡ false
begins_idle idle t ne = absurd (ne refl)
begins_idle running t ne = refl
begins_idle bench_hashd t ne = refl
begins_idle bench_io_cost t ne = refl

begins_away : (s t : RunnerState) → begins s t ≡ true → t ≢ idle
begins_away s t e f = ground (arith, e, f)

module _ {W Svc : Type 0} (cfg : Config) (p : Parts W Svc) where
  -- What an answer and the data it leaves have to be.
  abbrev pub Gives : (Option Bool → Rd cfg p → Type 0) → Answer cfg p → Type 0
  Gives Q panicked = Unit
  Gives Q (ok (r, e)) = Q r e

  -- The state after an answer: the old one after an error.
  abbrev pub Ends : RunnerState → RunnerState → Bool → Option Bool → RunnerState → Type 0
  Ends old new repeat none state = state ≡ old
  Ends old new repeat (some b) state = (state ≡ new) × (b ≡ repeat)

  -- The answer and the data after a command, from the data before it.
  abbrev pub IsMove : Rd cfg p → RunnerState → Bool → Option Bool → Rd cfg p → Type 0
  IsMove d new repeat r e =
      Ends d.state new repeat r e.state × (e.cmd ≡ d.cmd) × (e.bench ≡ d.bench)

  abbrev pub IsNext : Rd cfg p → Option Bool → Rd cfg p → Type 0
  IsNext d =
      let new = next_state cfg.force_running d.cmd d.bench d.state in
      IsMove d new (begins d.state new)

  start_iocost-IsMove : (d : Rd cfg p) → Gives (IsMove d bench_io_cost false) (start_iocost cfg p d)
  unfolding start_iocost
  start_iocost-IsMove d = ground arith

  start_hashd-IsMove : (d : Rd cfg p) → Gives (IsMove d bench_hashd false) (start_hashd cfg p d)
  unfolding start_hashd
  start_hashd-IsMove d = ground arith

  with_balloon-IsMove :
      (d : Rd cfg p) → Gives (IsMove d bench_hashd false) (start_hashd_with_balloon cfg p d)
  unfolding start_hashd_with_balloon try
  with_balloon-IsMove d =
      elim (Bool-cases (p.set_balloon_size d.cmd.bench_hashd_balloon_size d.parts).0) [
        | inl e ↦ rw e (start_hashd-IsMove _)
        | inr e ↦ rw e tt
      ]

  apply_idle-IsNext :
      (d : Rd cfg p)
      → d.state ≡ idle
      → (let new = next_state cfg.force_running d.cmd d.bench idle in
          Gives (IsMove d new (begins idle new)) (apply_idle cfg p d))
  unfolding apply_idle
  apply_idle-IsNext d e = ground (arith, start_iocost-IsMove d, with_balloon-IsMove d)

  apply_running-IsNext :
      (d : Rd cfg p)
      → d.state ≡ running
      → (let new = next_state cfg.force_running d.cmd d.bench running in
          Gives (IsMove d new (begins running new)) (apply_running cfg p d))
  unfolding apply_running apply_workloads or_warn try become_idle
  apply_running-IsNext d e = ground arith

  apply_state-IsNext :
      (s : RunnerState) (d : Rd cfg p)
      → d.state ≡ s
      → (let new = next_state cfg.force_running d.cmd d.bench s in
          Gives (IsMove d new (begins s new)) (apply_state cfg p s d))
  unfolding apply_state become_idle
  apply_state-IsNext idle d e = apply_idle-IsNext d e
  apply_state-IsNext running d e = apply_running-IsNext d e
  apply_state-IsNext bench_hashd d e = ground arith
  apply_state-IsNext bench_io_cost d e = ground arith

  abbrev Core : Type 0
  Core = RunnerState × Cmd × BenchKnobs

  abbrev core : Rd cfg p → Core
  core d = (d.state, d.cmd, d.bench)

  abbrev Next : Core → Option Bool → Rd cfg p → Type 0
  Next (s, cmd, bench) r e =
      let new = next_state cfg.force_running cmd bench s in
      Ends s new (begins s new) r e.state × (e.cmd ≡ cmd) × (e.bench ≡ bench)

  finish_cmd-Next :
      (c : Core) (t : Option Bool × Rd cfg p) → Next c t.0 t.1 → Gives (Next c) (finish_cmd cfg p t)
  unfolding finish_cmd clear_warnings
  finish_cmd-Next c (none, d) h = h
  finish_cmd-Next c (some b, d) h = ground (arith, h)

  finished-Next :
      (c : Core) (a : Answer cfg p) → Gives (Next c) a → Gives (Next c) (a >>= finish_cmd cfg p)
  finished-Next c panicked h = tt
  finished-Next c (ok t) h = finish_cmd-Next c t h

  failed-Next : (c : Core) (d : Rd cfg p) → core d ≡ c → Next c none d
  failed-Next c d e = (ap (λ x. x.0) e, ap (λ x. x.1) e, ap (λ x. x.2) e)

  tried-Next :
      (c : Core) (t : Tried cfg p) (rest : Rd cfg p → Answer cfg p)
      → Leaves cfg p (λ d. core d ≡ c) t
      → ((d : Rd cfg p) → core d ≡ c → Gives (Next c) (rest d))
      → Gives (Next c) (t >>= λ t. or_fail cfg p t rest)
  tried-Next c panicked rest h k = tt
  tried-Next c (ok (true, d)) rest h k = k d h
  tried-Next c (ok (false, d)) rest h k = failed-Next c d h

  apply_swappiness-core :
      (d : Rd cfg p) → Leaves cfg p (λ e. core e ≡ core d) (apply_swappiness cfg p d)
  unfolding apply_swappiness swappiness_from try
  apply_swappiness-core d = ground arith

  apply_zswap_enabled-core :
      (d : Rd cfg p) → Leaves cfg p (λ e. core e ≡ core d) (apply_zswap_enabled cfg p d)
  unfolding apply_zswap_enabled zswap_from try
  apply_zswap_enabled-core d = ground arith

  -- Unless it panics, a command moves the runner to the state that its sequence numbers and those
  -- of the results call for, and asks to be repeated exactly when that is a move from idle to
  -- running; with an error the state stays. The commands and the results stay as they are.
  pub apply_cmd-IsNext : (d : Rd cfg p) → Gives (IsNext d) (apply_cmd cfg p d)
  unfolding apply_cmd ack_cmd
  apply_cmd-IsNext d =
      tried-Next (core d) (apply_swappiness cfg p (ack_cmd cfg p d)) _
        (apply_swappiness-core (ack_cmd cfg p d))
        (λ d1 e1.
          tried-Next (core d) (apply_zswap_enabled cfg p d1) _
            (subst (λ c. Leaves cfg p (λ e. core e ≡ c) (apply_zswap_enabled cfg p d1)) e1
              (apply_zswap_enabled-core d1))
            (λ d2 e2. finished-Next (core d) (apply_state cfg p d2.state d2) (
              subst (λ c. Gives (Next c) (apply_state cfg p d2.state d2)) e2
                (apply_state-IsNext d2.state d2 refl))))

  -- An answer at which the loop stops.
  abbrev Stops : Answer cfg p → Type 0
  Stops = Gives (λ r e. r ≢ some true)

  IsNext-Stops : (d : Rd cfg p) (a : Answer cfg p) → d.state ≢ idle → Gives (IsNext d) a → Stops a
  IsNext-Stops d panicked ne h = tt
  IsNext-Stops d (ok (none, e)) ne h = λ q. cc
  IsNext-Stops d (ok (some b, e)) ne h =
      λ q. let f = begins_idle d.state (next_state cfg.force_running d.cmd d.bench d.state) ne in cc

  ends_at :
      (fuel : ℕ) (d : Rd cfg p) (a : Answer cfg p)
      → apply_cmd cfg p d ≡ a
      → Stops a
      → (o : Outcome (Rd cfg p)) × (apply_cmds cfg p (suc fuel) d ≡ some o)
  unfolding apply_cmds again
  ends_at fuel d panicked q s = (panicked, ap (again cfg p (apply_cmds cfg p fuel)) q)
  ends_at fuel d (ok (none, e)) q s = (ok e, ap (again cfg p (apply_cmds cfg p fuel)) q)
  ends_at fuel d (ok (some false, e)) q s = (ok e, ap (again cfg p (apply_cmds cfg p fuel)) q)
  ends_at fuel d (ok (some true, e)) q s = absurd (s refl)

  repeats_at :
      (fuel : ℕ) (d : Rd cfg p) (a : Answer cfg p)
      → apply_cmd cfg p d ≡ a
      → Gives (IsNext d) a
      → (o : Outcome (Rd cfg p)) × (apply_cmds cfg p (suc (suc fuel)) d ≡ some o)
  unfolding apply_cmds again
  repeats_at fuel d panicked q h = (panicked, ap (again cfg p (apply_cmds cfg p (suc fuel))) q)
  repeats_at fuel d (ok (none, e)) q h = (ok e, ap (again cfg p (apply_cmds cfg p (suc fuel))) q)
  repeats_at fuel d (ok (some false, e)) q h =
      (ok e, ap (again cfg p (apply_cmds cfg p (suc fuel))) q)
  repeats_at fuel d (ok (some true, e)) q h =
      let left =
        begins_away d.state (next_state cfg.force_running d.cmd d.bench d.state) (sym h.0.1) in
      let (o, r) =
        ends_at fuel e (apply_cmd cfg p e) refl
          (IsNext-Stops e (apply_cmd cfg p e) (λ f. left (sym h.0.0 ∙ f)) (apply_cmd-IsNext e)) in
      (o, ap (again cfg p (apply_cmds cfg p (suc fuel))) q ∙ r)

  -- The loop around `apply_cmd` ends after two rounds at most, with data or a panic.
  pub apply_cmds-ends :
      (fuel : ℕ) (d : Rd cfg p)
      → (o : Outcome (Rd cfg p)) × (apply_cmds cfg p (suc (suc fuel)) d ≡ some o)
  apply_cmds-ends fuel d = repeats_at fuel d (apply_cmd cfg p d) refl (apply_cmd-IsNext d)
