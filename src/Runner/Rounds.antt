-- ===== src/Runner/Rounds.antt =====
-- What holds in every round of `Runner::run`.
use resctl_demo.Prelude.{
  ℕ, zero, suc, ◌≡◌, refl, sym, ◌∙◌, subst, Option, none, some, Bool, true, false, ◌&&◌, ◌||◌,
  arith,
}
use resctl_demo.Prelude.Outcome.{Outcome, ok, panicked, ◌>>=◌}
use resctl_demo.Runner.{
  RunnerState, idle, running, bench_hashd, bench_io_cost, Cmd, BenchKnobs, Config, Parts, Rd,
  Answer, try, new,
}
use resctl_demo.Runner.Commands.{or_warn, apply_cmd, apply_cmds, again}
use resctl_demo.Runner.Reload.{
  Reloaded, reload_bench, reload_cmd, reload_configs, reload_configs_in, reload_files,
  apply_configs, check_sideloader, apply_sideloader, maybe_reload, Loop, apply_pending,
  health_check, finish_round, round_from, round,
}
use resctl_demo.Runner.Invariant.{IsCoherent, Fits, is_some, Leaves, apply_cmd-IsCoherent}
use resctl_demo.Runner.Unwraps.{check_completions-Returns}

module _ {W Svc : Type 0} (cfg : Config) (p : Parts W Svc) where
  abbrev Held : Type 0
  Held = RunnerState × Option Svc × Option Svc

  abbrev held : Rd cfg p → Held
  held d = (d.state, d.hashd_svc, d.iocost_svc)

  held-IsCoherent : (d e : Rd cfg p) → held e ≡ held d → IsCoherent cfg p d → IsCoherent cfg p e
  held-IsCoherent d e h i = subst (λ x. Fits x.0 (is_some x.1) (is_some x.2)) (sym h) i

  reload_configs-held : (d : Rd cfg p) → held (reload_configs cfg p d).1 ≡ held d
  unfolding reload_configs reload_bench try
  reload_configs-held d = ground arith

  reload_in-held : (s : RunnerState) (d : Rd cfg p) → held (reload_configs_in cfg p s d).1 ≡ held d
  unfolding reload_configs_in
  reload_in-held idle d = reload_configs-held d
  reload_in-held running d = reload_configs-held d
  reload_in-held bench_hashd d = refl
  reload_in-held bench_io_cost d = refl

  reload_cmd-held : (d : Rd cfg p) → held (reload_cmd cfg p d).1 ≡ held d
  unfolding reload_cmd
  reload_cmd-held d = ground arith

  reload_files-held : (d : Rd cfg p) → held (reload_files cfg p d).1 ≡ held d
  unfolding reload_files
  reload_files-held d =
      reload_cmd-held (reload_configs_in cfg p d.state d).1 ∙ reload_in-held d.state d

  -- What it leaves if it does not panic.
  abbrev Keeps : Rd cfg p → Outcome (Rd cfg p) → Type 0
  Keeps d panicked = Unit
  Keeps d (ok e) = held e ≡ held d

  apply_configs-Keeps : (re : Reloaded) (d : Rd cfg p) → Keeps d (apply_configs cfg p re d)
  unfolding apply_configs or_warn try
  apply_configs-Keeps re d = ground arith

  check_sideloader-held :
      (re : Reloaded) (d : Rd cfg p) → held (check_sideloader cfg p re d).1 ≡ held d
  unfolding check_sideloader
  check_sideloader-held re d = ground arith

  apply_sideloader-Keeps : (n : ℕ) (t : Bool × Rd cfg p) → Keeps t.1 (apply_sideloader cfg p n t)
  unfolding apply_sideloader try
  apply_sideloader-Keeps n t = ground arith

  keep : (d e : Rd cfg p) (o : Outcome (Rd cfg p)) → Keeps e o → held e ≡ held d → Keeps d o
  keep d e panicked h k = tt
  keep d e (ok f) h k = h ∙ k

  bind-Leaves :
      {A : Type 0} (P : Rd cfg p → Type 0) (d : Rd cfg p) (o : Outcome (Rd cfg p))
      (f : Rd cfg p → Outcome (A × Rd cfg p))
      → Keeps d o
      → ((e : Rd cfg p) → held e ≡ held d → Leaves cfg p P (f e))
      → Leaves cfg p P (o >>= f)
  bind-Leaves P d panicked f h k = tt
  bind-Leaves P d (ok e) f h k = k e h

  maybe_reload-IsCoherent :
      (d : Rd cfg p) → IsCoherent cfg p d → Leaves cfg p (IsCoherent cfg p) (maybe_reload cfg p d)
  unfolding maybe_reload
  maybe_reload-IsCoherent d h =
      let re = (reload_files cfg p d).0 in
      let e = (reload_files cfg p d).1 in
      bind-Leaves (IsCoherent cfg p) d (apply_configs cfg p re e) _
        (keep d e (apply_configs cfg p re e) (apply_configs-Keeps re e) (reload_files-held d))
        (λ f k.
          let t = check_sideloader cfg p re f in
          bind-Leaves (IsCoherent cfg p) d (apply_sideloader cfg p d.cmd.cpu_headroom t) _
            (keep d t.1 _ (apply_sideloader-Keeps d.cmd.cpu_headroom t)
              (check_sideloader-held re f ∙ k))
            (λ g l. held-IsCoherent d g l h))

  abbrev Holds : Option (Outcome (Rd cfg p)) → Type 0
  Holds none = Unit
  Holds (some panicked) = Unit
  Holds (some (ok d)) = IsCoherent cfg p d

  again-Holds :
      (rest : Rd cfg p → Option (Outcome (Rd cfg p))) (a : Answer cfg p)
      → Leaves cfg p (IsCoherent cfg p) a
      → ((d : Rd cfg p) → IsCoherent cfg p d → Holds (rest d))
      → Holds (again cfg p rest a)
  unfolding again
  again-Holds rest panicked h k = tt
  again-Holds rest (ok (some true, d)) h k = k d h
  again-Holds rest (ok (some false, d)) h k = h
  again-Holds rest (ok (none, d)) h k = h

  apply_cmds-Holds :
      (fuel : ℕ) (d : Rd cfg p) → IsCoherent cfg p d → Holds (apply_cmds cfg p fuel d)
  unfolding apply_cmds
  apply_cmds-Holds zero d h = tt
  apply_cmds-Holds (suc fuel) d h =
      again-Holds _ (apply_cmd cfg p d) (apply_cmd-IsCoherent cfg p d h)
        (λ e k. apply_cmds-Holds fuel e k)

  apply_pending-Holds :
      (fuel : ℕ) (l : Loop cfg p) → IsCoherent cfg p l.pending → Holds (apply_pending cfg p fuel l)
  unfolding apply_pending
  apply_pending-Holds fuel l h = ground (arith, h, apply_cmds-Holds fuel l.pending h)

  health_check-held :
      (due verify : Bool) (d : Rd cfg p) → held (health_check cfg p due verify d) ≡ held d
  unfolding health_check
  health_check-held due verify d = ground arith

  -- The loop after a round, if there is one.
  abbrev LoopHolds : Outcome (Loop cfg p) → Type 0
  LoopHolds panicked = Unit
  LoopHolds (ok l) = IsCoherent cfg p l.pending

  loop-Holds :
      (o : Outcome (Bool × Rd cfg p)) (f : Bool → Bool)
      → Leaves cfg p (IsCoherent cfg p) o
      → LoopHolds
          (o >>= λ u. ok (record { pending = u.1; cmd_pending = u.0; verify_pending = f u.0 }))
  loop-Holds panicked f h = tt
  loop-Holds (ok u) f h = h

  finish_round-Holds :
      (due : Bool) (l : Loop cfg p) (d : Rd cfg p)
      → IsCoherent cfg p d
      → LoopHolds (finish_round cfg p due l d)
  unfolding finish_round
  finish_round-Holds due l d h =
      let (t, e, k) = check_completions-Returns cfg p d h in
      let checked = health_check cfg p due l.verify_pending t.1 in
      rw e (
        loop-Holds (maybe_reload cfg p checked) (λ b. b || (l.verify_pending && cfg.bypass))
          (maybe_reload-IsCoherent checked
            (held-IsCoherent t.1 checked (health_check-held due l.verify_pending t.1) k)))

  round_from-Holds :
      (due : Bool) (l m : Loop cfg p) (o : Option (Outcome (Rd cfg p)))
      → Holds o
      → round_from cfg p due l o ≡ some (ok m)
      → IsCoherent cfg p m.pending
  unfolding round_from
  round_from-Holds due l m none h e = cc
  round_from-Holds due l m (some panicked) h e = cc
  round_from-Holds due l m (some (ok d)) h e =
      let k = finish_round-Holds due l d h in
      let f : finish_round cfg p due l d ≡ ok m = cc in subst LoopHolds f k

  -- The states of the loop that rounds lead to, whatever the parts do.
  pub data Reach : Loop cfg p → Type 0 where
    started :
        (cmd : Cmd) (bench : BenchKnobs) (parts : W)
        → Reach (record {
          pending = new cfg p cmd bench parts;
          cmd_pending = true;
          verify_pending = false;
        })
    rounded :
        (l m : Loop cfg p) (due : Bool) → Reach l → round cfg p 2 due l ≡ some (ok m) → Reach m

  -- In every state that the loop comes to, the runner holds the service of the benchmark that it
  -- runs and no other: the one of hashd in its benchmark, the one of iocost in that, none while it
  -- is idle or runs workloads.
  pub Reach-IsCoherent : (l : Loop cfg p) → Reach l → IsCoherent cfg p l.pending
  unfolding round new
  Reach-IsCoherent _ (started cmd bench parts) = (refl, refl)
  Reach-IsCoherent _ (rounded l m due r e) =
      round_from-Holds due l m (apply_pending cfg p 2 l)
        (apply_pending-Holds 2 l (Reach-IsCoherent l r)) e
