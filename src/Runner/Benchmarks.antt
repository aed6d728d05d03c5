-- ===== src/Runner/Benchmarks.antt =====
-- A benchmark that has finished is not run again, and what it measured is applied.
use resctl_demo.Prelude.{
  ◌-◌, ◌<◌, ◌≡◌, ◌≢◌, refl, sym, ap, ◌∙◌, Option, none, some, Bool, true, false, arith,
}
use resctl_demo.Prelude.Outcome.{ok}
use resctl_demo.Prelude.Words.{u64_mod}
use resctl_demo.Systemd.{UnitState}
use resctl_demo.Runner.{
  RunnerState, idle, running, bench_hashd, bench_io_cost, Cmd, BenchKnobs, Config, Parts, Rd,
  Answer, become_idle, try, or_fail,
}
use resctl_demo.Runner.Completions.{
  update_hashd, update_iocost, finish_hashd, finish_iocost, check_unit, check_svc,
  check_completions_in, check_completions,
}
use resctl_demo.Runner.Transitions.{next_state}

module _ {W Svc : Type 0} (cfg : Config) (p : Parts W Svc) where
  -- An operation that never fails.
  abbrev pub Works : (W → Bool × W) → Type 0
  Works op = (w : W) → (op w).0 ≡ true

  -- What a finished benchmark leaves: an idle runner without services, and the results with the
  -- sequence number that was asked for.
  pub record IsDone (d e : Rd cfg p) : Type 0 where
    pub state : e.state ≡ idle
    pub services : (e.hashd_svc ≡ none) × (e.iocost_svc ≡ none)
    pub cmd : e.cmd ≡ d.cmd
    pub next : next_state cfg.force_running e.cmd e.bench idle ≢ d.state

  or_fail-works :
      (t : Bool × Rd cfg p) (rest : Rd cfg p → Answer cfg p)
      → t.0 ≡ true
      → or_fail cfg p t rest ≡ rest t.1
  or_fail-works (true, d) rest e = refl
  or_fail-works (false, d) rest e = cc

  -- The results are there, with the sequence number asked for.
  update_hashd-Works :
      (d : Rd cfg p)
      → d.cmd.bench_hashd_seq < u64_mod - 1
      → Works p.load_hashd_result
      → Works p.copy_hashd_result
      → (let t = update_hashd cfg p d in
          (t.0 ≡ true) × (t.1.cmd ≡ d.cmd) × (t.1.bench.hashd_seq ≡ d.cmd.bench_hashd_seq))
  unfolding update_hashd try
  update_hashd-Works d small loads copies =
      ground (arith, small, loads d.parts, copies (p.load_hashd_result d.parts).1)

  update_iocost-Works :
      (d : Rd cfg p)
      → Works p.load_iocost_result
      → (let t = update_iocost cfg p d in
          (t.0 ≡ true) × (t.1.cmd ≡ d.cmd) × (t.1.bench.iocost_seq ≡ d.cmd.bench_iocost_seq))
  unfolding update_iocost try
  update_iocost-Works d loads = ground (arith, loads d.parts)

  not_hashd :
      (cmd : Cmd) (bench : BenchKnobs)
      → bench.hashd_seq ≡ cmd.bench_hashd_seq
      → next_state cfg.force_running cmd bench idle ≢ bench_hashd
  not_hashd cmd bench e = λ q. ground (arith, e, q)

  not_iocost :
      (cmd : Cmd) (bench : BenchKnobs)
      → bench.iocost_seq ≡ cmd.bench_iocost_seq
      → next_state cfg.force_running cmd bench idle ≢ bench_io_cost
  not_iocost cmd bench e = λ q. ground (arith, e, q)

  finish_hashd-IsDone :
      (d : Rd cfg p)
      → d.state ≡ bench_hashd
      → d.cmd.bench_hashd_seq < u64_mod - 1
      → Works p.load_hashd_result
      → Works p.copy_hashd_result
      → Works p.save_bench
      → (e : Rd cfg p) × (finish_hashd cfg p d ≡ ok (some false, e)) × IsDone d e
  unfolding finish_hashd try become_idle
  finish_hashd-IsDone d s small loads copies saves =
      let (works, same, seq) = update_hashd-Works d small loads copies in
      let u = (update_hashd cfg p d).1 in
      let saved = (try cfg p p.save_bench u).1 in
      (
        become_idle cfg p saved,
        or_fail-works (update_hashd cfg p d) _ works
            ∙ or_fail-works (try cfg p p.save_bench u) _ (saves u.parts),
        record {
          state = refl;
          services = (refl, refl);
          cmd = same;
          next =
              λ q. not_hashd u.cmd u.bench (seq ∙ ap (λ c. c.bench_hashd_seq) (sym same)) (q ∙ s);
        },
      )

  finish_iocost-IsDone :
      (d : Rd cfg p)
      → d.state ≡ bench_io_cost
      → Works p.load_iocost_result
      → Works p.save_bench
      → Works p.apply_iocost
      → (e : Rd cfg p) × (finish_iocost cfg p d ≡ ok (some false, e)) × IsDone d e
  unfolding finish_iocost try become_idle
  finish_iocost-IsDone d s loads saves applies =
      let (works, same, seq) = update_iocost-Works d loads in
      let u = (update_iocost cfg p d).1 in
      let saved = (try cfg p p.save_bench u).1 in
      let applied = (try cfg p p.apply_iocost saved).1 in
      (
        become_idle cfg p applied,
        or_fail-works (update_iocost cfg p d) _ works
            ∙ or_fail-works (try cfg p p.save_bench u) _ (saves u.parts)
            ∙ or_fail-works (try cfg p p.apply_iocost saved) _ (applies saved.parts),
        record {
          state = refl;
          services = (refl, refl);
          cmd = same;
          next =
              λ q. not_iocost u.cmd u.bench (seq ∙ ap (λ c. c.bench_iocost_seq) (sym same)) (q ∙ s);
        },
      )

  -- The service of the benchmark that runs.
  abbrev pub bench_svc : RunnerState → Rd cfg p → Option Svc
  bench_svc bench_hashd d = d.hashd_svc
  bench_svc bench_io_cost d = d.iocost_svc
  bench_svc _ d = none

  exited_svc :
      (svc : Svc) (finish : Rd cfg p → Answer cfg p) (d : Rd cfg p)
      → (p.refresh svc d.parts).0 ≡ some UnitState.exited
      → check_svc cfg p (some svc) finish d
        ≡ finish (record d { parts = (p.refresh svc d.parts).1 })
  unfolding check_svc check_unit
  exited_svc svc finish d x = ground (arith, x)

  finished_in :
      (s : RunnerState) (d : Rd cfg p) (svc : Svc)
      → d.state ≡ s
      → bench_svc s d ≡ some svc
      → (p.refresh svc d.parts).0 ≡ some UnitState.exited
      → d.cmd.bench_hashd_seq < u64_mod - 1
      → Works p.load_hashd_result
      → Works p.copy_hashd_result
      → Works p.load_iocost_result
      → Works p.apply_iocost
      → Works p.save_bench
      → (e : Rd cfg p) × (check_completions_in cfg p s d ≡ ok (some false, e)) × IsDone d e
  unfolding check_completions_in
  finished_in idle d svc e b x small lh ch li ai sb = cc
  finished_in running d svc e b x small lh ch li ai sb = cc
  finished_in bench_hashd d svc e b x small lh ch li ai sb =
      let (f, q, done) =
        finish_hashd-IsDone (record d { parts = (p.refresh svc d.parts).1 }) e small lh ch sb in
      (
        f,
        ap (λ o. check_svc cfg p o (finish_hashd cfg p) d) b
            ∙ exited_svc svc (finish_hashd cfg p) d x
            ∙ q,
        record { state = done.state; services = done.services; cmd = done.cmd; next = done.next },
      )
  finished_in bench_io_cost d svc e b x small lh ch li ai sb =
      let (f, q, done) =
        finish_iocost-IsDone (record d { parts = (p.refresh svc d.parts).1 }) e li sb ai in
      (
        f,
        ap (λ o. check_svc cfg p o (finish_iocost cfg p) d) b
            ∙ exited_svc svc (finish_iocost cfg p) d x
            ∙ q,
        record { state = done.state; services = done.services; cmd = done.cmd; next = done.next },
      )

  -- When the service of the benchmark has exited, its results can be read, copied, applied and saved,
  -- and the sequence number asked for the hashd benchmark is less than the greatest `u64`, which
  -- stands for running that benchmark in a loop, the runner becomes idle without services, and the
  -- same commands do not start that benchmark again.
  pub check_completions-IsDone :
      (d : Rd cfg p) (svc : Svc)
      → bench_svc d.state d ≡ some svc
      → (p.refresh svc d.parts).0 ≡ some UnitState.exited
      → d.cmd.bench_hashd_seq < u64_mod - 1
      → Works p.load_hashd_result
      → Works p.copy_hashd_result
      → Works p.load_iocost_result
      → Works p.apply_iocost
      → Works p.save_bench
      → (e : Rd cfg p) × (check_completions cfg p d ≡ ok (some false, e)) × IsDone d e
  unfolding check_completions
  check_completions-IsDone d svc = finished_in d.state d svc refl
