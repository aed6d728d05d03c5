-- ===== src/Runner/Tests.antt =====
-- The runner with parts that always work and services that are numbers; the parts keep a log of
-- what they are told.
use resctl_demo.Prelude.{ℕ, ◌≡◌, refl, List, [], ◌∷◌, none, some, Bool, true, false, arith}
use resctl_demo.Prelude.Outcome.{Outcome, ok}
use resctl_demo.Systemd.{UnitState}
use resctl_demo.Runner.{
  idle, running, bench_hashd, Cmd, BenchKnobs, Config, Parts, RunnerData, Rd, new, become_idle, try,
}
use resctl_demo.Runner.Commands.{apply_cmd, apply_cmds}
use resctl_demo.Runner.Completions.{check_completions}
use resctl_demo.Runner.Reload.{Loop, round}
use resctl_demo.Runner.Invariant.{IsCoherent}
use resctl_demo.Runner.Unwraps.{Returns, check_completions-Returns}
use resctl_demo.Runner.Transitions.{Gives, IsNext, apply_cmd-IsNext, apply_cmds-ends}
use resctl_demo.Runner.Rounds.{Reach, Reach-IsCoherent, started, rounded}
use resctl_demo.Runner.Benchmarks.{IsDone, check_completions-IsDone}

abbrev Log : Type 0
Log = List ℕ

abbrev does : ℕ → Log → Bool × Log
does n log = (true, n ∷ log)

abbrev parts : Parts Log ℕ
parts = record {
  commit_ack = λ seq log. log;
  read_swappiness = λ log. some 60;
  write_swappiness = λ n. does 1;
  read_zswap_enabled = λ log. some true;
  write_zswap_enabled = λ b. does 2;
  start_iocost_bench = λ log. (some 1, 3 ∷ log);
  set_balloon_size = λ size. does 4;
  stop_oomd = λ log. 5 ∷ log;
  start_hashd_bench = λ cmd log. (some 2, 6 ∷ log);
  mark_bench_start = λ log. 7 ∷ log;
  apply_hashd = λ cmd. does 8;
  apply_sysloads = λ cmd. does 9;
  apply_sideloads = λ cmd. does 10;
  balloon_size = λ cmd. 0;
  stop_hashd = λ log. 11 ∷ log;
  stop_side = λ log. 12 ∷ log;
  drop_svc = λ svc log. 13 ∷ log;
  refresh = λ svc log. (some UnitState.exited, log);
  load_hashd_result = does 14;
  copy_hashd_result = does 15;
  load_iocost_result = does 16;
  save_bench = does 17;
  apply_iocost = does 18;
  reload_bench = λ log. (none, log);
  reload_slice = λ log. (false, log);
  reload_side_def = λ log. (false, log);
  reload_oomd = λ log. (false, log);
  reload_cmd = λ log. (none, log);
  apply_slices = does 19;
  apply_oomd = does 20;
  controlls_disabled = λ log. false;
  sideloader_is_running = λ log. true;
  stop_sideloader = λ log. 21 ∷ log;
  apply_sideloader = λ cmd. does 22;
  verify_and_fix_slices = λ log. 23 ∷ log;
  set_iosched = λ log. 24 ∷ log;
}

abbrev config : Config
config = record {
  enforce_mem = true;
  enforce_oomd = true;
  enforce_all = true;
  enforce_io = true;
  bypass = false;
  force_running = false;
  sr_swappiness = some 60;
  sr_zswap_enabled = some true;
}

-- Both benchmarks are asked for.
abbrev both : Cmd
both = record {
  cmd_seq = 1;
  bench_hashd_seq = 1;
  bench_hashd_balloon_size = 0;
  bench_iocost_seq = 1;
  swappiness = none;
  zswap_enabled = none;
  cpu_headroom = 20;
  rest = 0;
}

abbrev no_results : BenchKnobs
no_results = record { hashd_seq = 0; iocost_seq = 0 }

abbrev start : Loop config parts
start = record {
  pending = new config parts both no_results [];
  cmd_pending = true;
  verify_pending = false;
}

abbrev after_round : Loop config parts → Loop config parts
after_round l = elim (round config parts 2 false l) [ some (ok m) ↦ m | _ ↦ l ]

-- The states of the first rounds: each benchmark finishes in the round that starts it.
first : (after_round start).pending.state ≡ idle
unfolding new round try become_idle
first = refl

second : (after_round (after_round start)).pending.bench ≡ record { hashd_seq = 1; iocost_seq = 1 }
unfolding new round try become_idle
second = refl

third : (after_round (after_round (after_round start))).pending.state ≡ running
unfolding new round try become_idle
third = refl

first-Reach : Reach config parts (after_round start)
unfolding new round try become_idle
first-Reach = rounded start (after_round start) false (started both no_results []) refl

Reach-IsCoherent_example : IsCoherent config parts (after_round start).pending
Reach-IsCoherent_example = Reach-IsCoherent config parts (after_round start) first-Reach

abbrev in_hashd : RunnerData Log ℕ
in_hashd = record (new config parts both (record { hashd_seq = 0; iocost_seq = 1 }) []) {
  state = bench_hashd;
  hashd_svc = some 2;
  force_apply = true;
}

check_completions-IsDone_example :
    (e : Rd config parts) × (check_completions config parts in_hashd ≡ ok (some false, e))
    × IsDone config parts in_hashd e
unfolding new
check_completions-IsDone_example =
    check_completions-IsDone config parts in_hashd 2 refl refl (omega arith) (λ w. refl) (λ w. refl)
      (λ w. refl) (λ w. refl) (λ w. refl)

check_completions-Returns_example :
    Returns config parts (IsCoherent config parts) (check_completions config parts in_hashd)
unfolding new
check_completions-Returns_example = check_completions-Returns config parts in_hashd (refl, refl)

-- All is to be configured anew, after a benchmark.
abbrev after_bench : RunnerData Log ℕ
after_bench = record in_hashd { state = idle; hashd_svc = none }

apply_cmd-IsNext_example :
    Gives config parts (IsNext config parts in_hashd) (apply_cmd config parts in_hashd)
apply_cmd-IsNext_example = apply_cmd-IsNext config parts in_hashd

apply_cmds-ends_example :
    (o : Outcome (Rd config parts)) × (apply_cmds config parts 2 in_hashd ≡ some o)
apply_cmds-ends_example = apply_cmds-ends config parts 0 in_hashd
