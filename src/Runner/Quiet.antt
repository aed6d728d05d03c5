-- ===== src/Runner/Quiet.antt =====
-- What is reloaded and configured anew, and that benchmarks are left alone.
use resctl_demo.Prelude.{◌≡◌, Bool, false, ◌||◌}
use resctl_demo.Prelude.Outcome.{ok}
use resctl_demo.Runner.{RunnerState, bench_hashd, bench_io_cost, Config, Parts, Rd}
use resctl_demo.Runner.Commands.{unwrap_or}
use resctl_demo.Runner.Reload.{Reloaded, reload_bench, reload_cmd, apply_configs}
use resctl_demo.Runner.Due.{is_anew, due, configure_all}

module _ {W Svc : Type 0} (cfg : Config) (p : Parts W Svc) where
  -- The files are read in turn, each of which may change the state of the parts.
  abbrev read_slice : W → Bool × W
  read_slice w = p.reload_slice (p.reload_bench w).1

  abbrev read_oomd : W → Bool × W
  read_oomd w = p.reload_oomd (p.reload_side_def (read_slice w).1).1

  -- The file of the commands is read last.
  abbrev CmdRead : W → Rd cfg p → Rd cfg p → Type 0
  CmdRead w d e = (e.parts ≡ (p.reload_cmd w).1) × (e.cmd ≡ unwrap_or (p.reload_cmd w).0 d.cmd)

  abbrev pub Untouched : Rd cfg p → Reloaded × Rd cfg p → Type 0
  Untouched d (re, e) =
      (apply_configs cfg p re e ≡ ok e)
      × (e.force_apply ≡ d.force_apply)
      × (e.bench ≡ d.bench)
      × CmdRead d.parts d e

  abbrev pub Configured : Rd cfg p → Reloaded × Rd cfg p → Type 0
  Configured d (re, e) =
      (let all = is_anew (p.reload_bench d.parts).0 || d.force_apply in
        let parts = due cfg.enforce_oomd all (read_slice d.parts).0 (read_oomd d.parts).0 in
        apply_configs cfg p re e ≡ configure_all cfg p parts e)
      × (e.force_apply ≡ false)
      × (e.bench ≡ unwrap_or (p.reload_bench d.parts).0 d.bench)
      × CmdRead (read_oomd d.parts).1 d e

  -- What is reloaded in a state, and what applying it comes to.
  abbrev pub Reloads : RunnerState → Rd cfg p → Reloaded × Rd cfg p → Type 0
  Reloads bench_hashd d t = Untouched d t
  Reloads bench_io_cost d t = Untouched d t
  Reloads _ d t = Configured d t

  with_cmd : Reloaded × Rd cfg p → Reloaded × Rd cfg p
  unfolding reload_cmd
  with_cmd (re, e) = (record re { re_cmd = (reload_cmd cfg p e).0 }, (reload_cmd cfg p e).1)
