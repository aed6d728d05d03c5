-- ===== src/Runner/Reload.antt =====
-- `RunnerData::maybe_reload` and the loop of `Runner::run` of rd-agent/src/cmd.rs.
use resctl_demo.Prelude.{
  ℕ, Option, none, some, Bool, true, false, ◌&&◌, ◌||◌, not, ◌==◌, if◌then◌else◌,
}
use resctl_demo.Prelude.Outcome.{Outcome, ok, panicked, ◌>>=◌}
use resctl_demo.Runner.{RunnerState, idle, running, Config, Parts, Rd, try}
use resctl_demo.Runner.Commands.{or_warn, is_idle, apply_cmds}
use resctl_demo.Runner.Completions.{check_completions}

-- Which files are to be applied anew: `re_bench`, `re_slice`, `re_oomd` and `re_cmd`.
pub record Reloaded : Type 0 where
  pub re_bench : Bool
  pub re_slice : Bool
  pub re_oomd : Bool
  pub re_cmd : Bool

module _ {W Svc : Type 0} (cfg : Config) (p : Parts W Svc) where
  unfoldable pub reload_bench : Rd cfg p → Bool × Rd cfg p
  reload_bench d =
      let (file, w) = p.reload_bench d.parts in
      elim file [
        | none ↦ (false, record d { parts = w })
        | some bench ↦ (true, record d { bench = bench; parts = w })
      ]

  unfoldable pub reload_cmd : Rd cfg p → Bool × Rd cfg p
  reload_cmd d =
      let (file, w) = p.reload_cmd d.parts in
      elim file [
        | none ↦ (false, record d { parts = w })
        | some cmd ↦ (true, record d { cmd = cmd; parts = w })
      ]

  -- All files but that of the commands, with `force_apply`.
  unfoldable pub reload_configs : Rd cfg p → Reloaded × Rd cfg p
  unfolding reload_bench try
  reload_configs d =
      let force = d.force_apply in
      let (re_bench, d) = reload_bench (record d { force_apply = false }) in
      let (re_slice, d) = try cfg p p.reload_slice d in
      let (re_side, d) = try cfg p p.reload_side_def d in
      let (re_oomd, d) = try cfg p p.reload_oomd d in
      (
        record {
          re_bench = re_bench || force;
          re_slice = re_slice || force;
          re_oomd = re_oomd || force;
          re_cmd = false;
        },
        d,
      )

  -- While a benchmark runs, the files are not read.
  unfoldable pub reload_configs_in : RunnerState → Rd cfg p → Reloaded × Rd cfg p
  unfolding reload_configs
  reload_configs_in idle d = reload_configs d
  reload_configs_in running d = reload_configs d
  reload_configs_in _ d =
      (record { re_bench = false; re_slice = false; re_oomd = false; re_cmd = false }, d)

  unfoldable pub reload_files : Rd cfg p → Reloaded × Rd cfg p
  unfolding reload_configs_in reload_cmd
  reload_files d =
      let (re, d) = reload_configs_in d.state d in
      let (re_cmd, d) = reload_cmd d in (record re { re_cmd = re_cmd }, d)

  -- The failures of the first two are warned about, that of the third panics.
  unfoldable pub apply_configs : Reloaded → Rd cfg p → Outcome (Rd cfg p)
  unfolding or_warn try
  apply_configs re d =
      let d = if re.re_bench then or_warn cfg p p.apply_iocost d else d in
      let d = if re.re_bench || re.re_slice then or_warn cfg p p.apply_slices d else d in
      if (re.re_bench || re.re_oomd) && cfg.enforce_oomd
      then (let (success, d) = try cfg p p.apply_oomd d in if success then ok d else panicked)
      else ok d

  -- Whether the sideloader is to be started, which is stopped when a controller is forced off.
  unfoldable pub check_sideloader : Reloaded → Rd cfg p → Bool × Rd cfg p
  check_sideloader re d =
      if re.re_slice
      then (if p.controlls_disabled d.parts
          then (
            false,
            if p.sideloader_is_running d.parts
                then record d { parts = p.stop_sideloader d.parts }
                else d,
          )
          else (not (p.sideloader_is_running d.parts), d))
      else (false, d)

  unfoldable pub apply_sideloader : ℕ → Bool × Rd cfg p → Outcome (Rd cfg p)
  unfolding try
  apply_sideloader last_cpu_headroom (start, d) =
      if (not (d.cmd.cpu_headroom == last_cpu_headroom) || start) && cfg.enforce_all
      then (let (success, d) = try cfg p (p.apply_sideloader d.cmd) d in
          if success then ok d else panicked)
      else ok d

  unfoldable pub any_reloaded : Reloaded → Bool
  any_reloaded re = re.re_bench || (re.re_cmd || re.re_slice)

  unfoldable pub maybe_reload : Rd cfg p → Outcome (Bool × Rd cfg p)
  unfolding reload_files apply_configs check_sideloader apply_sideloader any_reloaded
  maybe_reload d =
      let (re, e) = reload_files d in
      apply_configs re e >>= λ e.
      apply_sideloader d.cmd.cpu_headroom (check_sideloader re e) >>= λ e. ok (any_reloaded re, e)

  -- What the loop of `run` keeps between its rounds.
  pub record Loop : Type 0 where
    pub pending : Rd cfg p
    pub cmd_pending : Bool
    pub verify_pending : Bool

  -- Commands are applied when there are any, and always while idle.
  unfoldable pub apply_pending : ℕ → Loop → Option (Outcome (Rd cfg p))
  unfolding apply_cmds
  apply_pending fuel l =
      if l.cmd_pending || is_idle l.pending.state
      then apply_cmds cfg p fuel l.pending
      else some (ok l.pending)

  -- The health check, when it is due or after a reload.
  unfoldable pub health_check : Bool → Bool → Rd cfg p → Rd cfg p
  health_check due verify_pending d =
      if not cfg.bypass && (due || verify_pending)
      then record d {
        parts =
            let w = p.verify_and_fix_slices d.parts in
            if cfg.enforce_io then p.set_iosched w else w;
      }
      else d

  -- What follows the commands in a round, `due` telling whether the health check is.
  unfoldable pub finish_round : Bool → Loop → Rd cfg p → Outcome Loop
  unfolding check_completions health_check maybe_reload
  finish_round due l d = check_completions cfg p d >>= λ t.
      maybe_reload (health_check due l.verify_pending t.1) >>= λ u. ok (record {
        pending = u.1;
        cmd_pending = u.0;
        verify_pending = u.0 || (l.verify_pending && cfg.bypass);
      })

  unfoldable pub round_from : Bool → Loop → Option (Outcome (Rd cfg p)) → Option (Outcome Loop)
  unfolding finish_round
  round_from due l none = none
  round_from due l (some o) = some (o >>= λ d. finish_round due l d)

  unfoldable pub round : ℕ → Bool → Loop → Option (Outcome Loop)
  unfolding apply_pending round_from
  round fuel due l = round_from due l (apply_pending fuel l)
