-- ===== src/Runner.antt =====
-- The runner of rd-agent: rd-agent/src/cmd.rs, `RunnerData` and `Runner::run`, and the sequence
-- numbers that rd-agent/src/bench.rs sets.
--
-- What the runner drives, the services, the rest of its parts and the machine, is a state `W` with
-- the operations of `Parts`. An operation that can fail says whether it succeeded; what it did to
-- `W` is kept either way. `none` is an error that `apply_cmd` returns.
pub mod Commands
pub mod Completions
pub mod Reload
pub mod Invariant
pub mod Unwraps
pub mod Transitions
pub mod Rounds
pub mod Benchmarks
pub mod Due
pub mod Quiet
mod Tests
use resctl_demo.Prelude.{
  ℕ, zero, suc, ◌-◌, min, Option, none, some, Bool, true, false, ◌&&◌, ◌||◌, not, ltb, leb, ◌==◌,
  if◌then◌else◌,
}
use resctl_demo.Systemd.{UnitState}
use resctl_demo.Prelude.Outcome.{Outcome, ok, panicked, ◌>>=◌}
use resctl_demo.Prelude.Words.{u64_mod, add64}

pub data RunnerState : Type 0 where
  idle running bench_hashd bench_io_cost : RunnerState

-- What the runner itself reads of the commands, and the rest.
pub record Cmd : Type 0 where
  pub cmd_seq : ℕ
  pub bench_hashd_seq : ℕ
  pub bench_hashd_balloon_size : ℕ
  pub bench_iocost_seq : ℕ
  pub swappiness : Option ℕ
  pub zswap_enabled : Option Bool
  pub cpu_headroom : ℕ
  pub rest : ℕ

pub record BenchKnobs : Type 0 where
  pub hashd_seq : ℕ
  pub iocost_seq : ℕ

pub record Config : Type 0 where
  pub enforce_mem : Bool
  pub enforce_oomd : Bool
  pub enforce_all : Bool
  pub enforce_io : Bool
  pub bypass : Bool
  pub force_running : Bool
  pub sr_swappiness : Option ℕ
  pub sr_zswap_enabled : Option Bool

pub record Parts (W Svc : Type 0) : Type 0 where
  pub commit_ack : ℕ → W → W
  pub read_swappiness : W → Option ℕ
  pub write_swappiness : ℕ → W → Bool × W
  pub read_zswap_enabled : W → Option Bool
  pub write_zswap_enabled : Bool → W → Bool × W
  pub start_iocost_bench : W → Option Svc × W
  pub set_balloon_size : ℕ → W → Bool × W
  pub stop_oomd : W → W
  pub start_hashd_bench : Cmd → W → Option Svc × W
  pub mark_bench_start : W → W
  pub apply_hashd : Cmd → W → Bool × W
  pub apply_sysloads : Cmd → W → Bool × W
  pub apply_sideloads : Cmd → W → Bool × W
  -- `total_memory()` times the balloon ratio
  pub balloon_size : Cmd → ℕ
  pub stop_hashd : W → W
  pub stop_side : W → W
  pub drop_svc : Svc → W → W
  pub refresh : Svc → W → Option UnitState × W
  -- the arguments and parameters that the hashd benchmark has left
  pub load_hashd_result : W → Bool × W
  pub copy_hashd_result : W → Bool × W
  -- the result of the iocost benchmark, on the right device
  pub load_iocost_result : W → Bool × W
  pub save_bench : W → Bool × W
  pub apply_iocost : W → Bool × W
  -- `some` for a file that was there anew and could be read
  pub reload_bench : W → Option BenchKnobs × W
  pub reload_slice : W → Bool × W
  pub reload_side_def : W → Bool × W
  pub reload_oomd : W → Bool × W
  pub reload_cmd : W → Option Cmd × W
  pub apply_slices : W → Bool × W
  pub apply_oomd : W → Bool × W
  pub controlls_disabled : W → Bool
  pub sideloader_is_running : W → Bool
  pub stop_sideloader : W → W
  pub apply_sideloader : Cmd → W → Bool × W
  pub verify_and_fix_slices : W → W
  pub set_iosched : W → W

pub record RunnerData (W Svc : Type 0) : Type 0 where
  pub state : RunnerState
  pub warned_bench : Bool
  pub warned_init : Bool
  pub force_apply : Bool
  pub hashd_svc : Option Svc
  pub iocost_svc : Option Svc
  pub cmd : Cmd
  pub bench : BenchKnobs
  pub ack_seq : ℕ
  pub parts : W

module _ {W Svc : Type 0} (cfg : Config) (p : Parts W Svc) where
  abbrev pub Rd : Type 0
  Rd = RunnerData W Svc

  -- Whether a call succeeded, and what it left.
  abbrev pub Tried : Type 0
  Tried = Outcome (Bool × Rd)

  -- What `apply_cmd` and `check_completions` return, `none` for an error, and what they leave.
  abbrev pub Answer : Type 0
  Answer = Outcome (Option Bool × Rd)

  unfoldable pub drop_svc_in : Option Svc → W → W
  drop_svc_in none w = w
  drop_svc_in (some svc) w = p.drop_svc svc w

  unfoldable pub become_idle : Rd → Rd
  unfolding drop_svc_in
  become_idle d = record d {
    hashd_svc = none;
    iocost_svc = none;
    state = idle;
    parts = p.stop_side (p.stop_hashd (drop_svc_in d.iocost_svc (drop_svc_in d.hashd_svc d.parts)));
  }

  unfoldable pub new : Cmd → BenchKnobs → W → Rd
  new cmd bench parts = record {
    state = idle;
    warned_bench = false;
    warned_init = false;
    force_apply = false;
    hashd_svc = none;
    iocost_svc = none;
    cmd = cmd;
    bench = bench;
    ack_seq = 0;
    parts = parts;
  }

  -- A part's operation that can fail.
  unfoldable pub try : (W → Bool × W) → Rd → Bool × Rd
  try op d = let (success, w) = op d.parts in (success, record d { parts = w })

  -- The `?` operator.
  abbrev pub or_fail : Bool × Rd → (Rd → Answer) → Answer
  or_fail (true, d) rest = rest d
  or_fail (false, d) rest = ok (none, d)

  -- A failure that panics.
  abbrev pub or_panic : Bool × Rd → (Rd → Answer) → Answer
  or_panic (true, d) rest = rest d
  or_panic (false, d) rest = panicked
