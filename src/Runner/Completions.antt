-- ===== src/Runner/Completions.antt =====
-- `RunnerData::check_completions` of rd-agent/src/cmd.rs, with the updates of rd-agent/src/bench.rs.
use resctl_demo.Prelude.{◌-◌, Option, none, some, Bool, true, false, ◌==◌, if◌then◌else◌}
use resctl_demo.Prelude.Outcome.{ok, panicked}
use resctl_demo.Prelude.Words.{u64_mod, add64}
use resctl_demo.Systemd.{UnitState}
use resctl_demo.Runner.{
  RunnerState, bench_hashd, bench_io_cost, Config, Parts, Rd, Answer, become_idle, try, or_fail,
}

module _ {W Svc : Type 0} (cfg : Config) (p : Parts W Svc) where
  -- `bench::update_hashd`: the sequence number is set before the files are copied.
  unfoldable pub update_hashd : Rd cfg p → Bool × Rd cfg p
  unfolding try
  update_hashd d =
      let (success, d) = try cfg p p.load_hashd_result d in
      if success
      then try cfg p p.copy_hashd_result (record d {
        bench = record d.bench {
          hashd_seq =
              if d.cmd.bench_hashd_seq == u64_mod - 1
              then add64 d.bench.hashd_seq 1
              else d.cmd.bench_hashd_seq;
        };
      })
      else (false, d)

  -- `bench::update_iocost`
  unfoldable pub update_iocost : Rd cfg p → Bool × Rd cfg p
  unfolding try
  update_iocost d =
      let (success, d) = try cfg p p.load_iocost_result d in
      if success
      then (true, record d { bench = record d.bench { iocost_seq = d.cmd.bench_iocost_seq } })
      else (false, d)

  unfoldable pub finish_hashd : Rd cfg p → Answer cfg p
  unfolding update_hashd try become_idle
  finish_hashd d =
      or_fail cfg p (update_hashd d)
        λ d. or_fail cfg p (try cfg p p.save_bench d) λ d. ok (some false, become_idle cfg p d)

  unfoldable pub finish_iocost : Rd cfg p → Answer cfg p
  unfolding update_iocost try become_idle
  finish_iocost d = or_fail cfg p (update_iocost d) λ d.
      or_fail cfg p (try cfg p p.save_bench d)
        λ d. or_fail cfg p (try cfg p p.apply_iocost d) λ d. ok (some false, become_idle cfg p d)

  unfoldable pub check_unit : UnitState → (Rd cfg p → Answer cfg p) → Rd cfg p → Answer cfg p
  unfolding become_idle
  check_unit UnitState.running finish d = ok (some false, d)
  check_unit UnitState.exited finish d = finish d
  check_unit _ finish d = ok (some false, become_idle cfg p d)

  -- The service is unwrapped, which panics if there is none.
  unfoldable pub check_svc : Option Svc → (Rd cfg p → Answer cfg p) → Rd cfg p → Answer cfg p
  unfolding check_unit
  check_svc none finish d = panicked
  check_svc (some svc) finish d =
      let (state, w) = p.refresh svc d.parts in
      elim state [
        | none ↦ ok (none, record d { parts = w })
        | some state ↦ check_unit state finish (record d { parts = w })
      ]

  unfoldable pub check_completions_in : RunnerState → Rd cfg p → Answer cfg p
  unfolding check_svc finish_hashd finish_iocost
  check_completions_in bench_hashd d = check_svc d.hashd_svc finish_hashd d
  check_completions_in bench_io_cost d = check_svc d.iocost_svc finish_iocost d
  check_completions_in _ d = ok (some false, d)

  unfoldable pub check_completions : Rd cfg p → Answer cfg p
  unfolding check_completions_in
  check_completions d = check_completions_in d.state d
