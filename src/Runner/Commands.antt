-- ===== src/Runner/Commands.antt =====
-- `RunnerData::apply_cmd` of rd-agent/src/cmd.rs, and the loop around it.
use resctl_demo.Prelude.{
  ℕ, zero, suc, min, Option, none, some, Bool, true, false, ◌||◌, not, ltb, leb, ◌==◌,
  if◌then◌else◌,
}
use resctl_demo.Prelude.Outcome.{Outcome, ok, panicked, ◌>>=◌}
use resctl_demo.Runner.{
  RunnerState, idle, running, bench_hashd, bench_io_cost, Config, Parts, Rd, Tried, Answer,
  become_idle, try, or_fail, or_panic,
}

abbrev pub unwrap_or {ℓ} : {A : Type ℓ} → Option A → A → A
unwrap_or none a = a
unwrap_or (some b) a = b

abbrev pub same_bool : Bool → Bool → Bool
same_bool true b = b
same_bool false b = not b

abbrev pub is_idle : RunnerState → Bool
is_idle idle = true
is_idle _ = false

module _ {W Svc : Type 0} (cfg : Config) (p : Parts W Svc) where
  unfoldable pub swappiness_from : Option ℕ → Option ℕ → Option ℕ → Rd cfg p → Tried cfg p
  unfolding try
  swappiness_from swappiness none sr d = ok (false, d)
  swappiness_from swappiness (some cur) none d = panicked
  swappiness_from swappiness (some cur) (some sr) d =
      let target = min (unwrap_or swappiness sr) 200 in
      if cur == target then ok (true, d) else ok (try cfg p (p.write_swappiness target) d)

  unfoldable pub apply_swappiness : Rd cfg p → Tried cfg p
  unfolding swappiness_from
  apply_swappiness d =
      if not cfg.enforce_mem
      then ok (true, d)
      else swappiness_from d.cmd.swappiness (p.read_swappiness d.parts) cfg.sr_swappiness d

  unfoldable pub zswap_from : Option Bool → Option Bool → Option Bool → Rd cfg p → Tried cfg p
  unfolding try
  zswap_from enabled none sr d = ok (false, d)
  zswap_from enabled (some cur) none d = panicked
  zswap_from enabled (some cur) (some sr) d =
      let target = unwrap_or enabled sr in
      if same_bool cur target then ok (true, d) else ok (try cfg p (p.write_zswap_enabled target) d)

  unfoldable pub apply_zswap_enabled : Rd cfg p → Tried cfg p
  unfolding zswap_from
  apply_zswap_enabled d =
      if not cfg.enforce_mem
      then ok (true, d)
      else zswap_from d.cmd.zswap_enabled (p.read_zswap_enabled d.parts) cfg.sr_zswap_enabled d

  -- An idle runner starts the iocost benchmark,
  unfoldable pub start_iocost : Rd cfg p → Answer cfg p
  start_iocost d =
      let (svc, w) = p.start_iocost_bench d.parts in
      elim svc [
        | none ↦ ok (none, record d { parts = w })
        | some svc ↦ ok (
          some false,
          record d { parts = w; iocost_svc = some svc; state = bench_io_cost; force_apply = true },
        )
      ]

  -- or the hashd benchmark, with the balloon set and oomd stopped before it,
  unfoldable pub start_hashd : Rd cfg p → Answer cfg p
  start_hashd d =
      let (svc, w) = p.start_hashd_bench d.cmd d.parts in
      elim svc [
        | none ↦ ok (none, record d { parts = w })
        | some svc ↦ ok (
          some false,
          record d {
            parts = p.mark_bench_start w;
            hashd_svc = some svc;
            state = bench_hashd;
            force_apply = true;
          },
        )
      ]

  unfoldable pub start_hashd_with_balloon : Rd cfg p → Answer cfg p
  unfolding try start_hashd
  start_hashd_with_balloon d =
      or_panic cfg p (try cfg p (p.set_balloon_size d.cmd.bench_hashd_balloon_size) d)
        (λ d. start_hashd (record d { parts = p.stop_oomd d.parts }))

  -- or runs, or stays idle and warns once.
  unfoldable pub apply_idle : Rd cfg p → Answer cfg p
  unfolding start_iocost start_hashd_with_balloon
  apply_idle d =
      if ltb d.bench.iocost_seq d.cmd.bench_iocost_seq
      then start_iocost d
      else (if ltb d.bench.hashd_seq d.cmd.bench_hashd_seq
          then (if ltb 0 d.bench.iocost_seq || cfg.force_running
              then start_hashd_with_balloon d
              else ok (some false, record d { warned_bench = true }))
          else (if ltb 0 d.bench.hashd_seq || cfg.force_running
              then ok (some true, record d { state = running })
              else ok (some false, record d { warned_init = true })))

  -- A failure that is warned about.
  unfoldable pub or_warn : (W → Bool × W) → Rd cfg p → Rd cfg p
  unfolding try
  or_warn op d = (try cfg p op d).1

  unfoldable pub apply_workloads : Rd cfg p → Bool × Rd cfg p
  unfolding try
  apply_workloads d = try cfg p (p.apply_hashd d.cmd) d

  unfoldable pub apply_running : Rd cfg p → Answer cfg p
  unfolding become_idle apply_workloads or_warn try
  apply_running d =
      if ltb d.bench.hashd_seq d.cmd.bench_hashd_seq
        || ltb d.bench.iocost_seq d.cmd.bench_iocost_seq
      then ok (some false, become_idle cfg p d)
      else or_panic cfg p (apply_workloads d) (λ d.
        let d = or_warn (p.apply_sideloads d.cmd) (or_warn (p.apply_sysloads d.cmd) d) in
        or_panic cfg p (try cfg p (p.set_balloon_size (p.balloon_size d.cmd)) d)
          (λ d. ok (some false, d)))

  unfoldable pub apply_state : RunnerState → Rd cfg p → Answer cfg p
  unfolding apply_idle apply_running become_idle
  apply_state idle d = apply_idle d
  apply_state running d = apply_running d
  apply_state bench_hashd d =
      ok
        (some false, if leb d.cmd.bench_hashd_seq d.bench.hashd_seq then become_idle cfg p d else d)
  apply_state bench_io_cost d =
      ok (
        some false,
        if leb d.cmd.bench_iocost_seq d.bench.iocost_seq then become_idle cfg p d else d,
      )

  unfoldable pub clear_warnings : Rd cfg p → Rd cfg p
  clear_warnings d =
      if is_idle d.state then d else record d { warned_bench = false; warned_init = false }

  -- An error returns before the warnings are cleared.
  unfoldable pub finish_cmd : Option Bool × Rd cfg p → Answer cfg p
  unfolding clear_warnings
  finish_cmd (none, d) = ok (none, d)
  finish_cmd (some repeat, d) = ok (some repeat, clear_warnings d)

  unfoldable pub ack_cmd : Rd cfg p → Rd cfg p
  ack_cmd d = record d { ack_seq = d.cmd.cmd_seq; parts = p.commit_ack d.cmd.cmd_seq d.parts }

  unfoldable pub apply_cmd : Rd cfg p → Answer cfg p
  unfolding ack_cmd apply_swappiness apply_zswap_enabled apply_state finish_cmd
  apply_cmd d = apply_swappiness (ack_cmd d) >>= λ t.
      or_fail cfg p t λ d.
        apply_zswap_enabled d >>= λ t. or_fail cfg p t λ d. apply_state d.state d >>= finish_cmd

  -- What the loop makes of an answer: only `Ok(true)` goes on.
  unfoldable pub again :
      (Rd cfg p → Option (Outcome (Rd cfg p))) → Answer cfg p → Option (Outcome (Rd cfg p))
  again rest panicked = some panicked
  again rest (ok (some true, d)) = rest d
  again rest (ok (some false, d)) = some (ok d)
  again rest (ok (none, d)) = some (ok d)

  -- The loop around `apply_cmd`; `none` when the fuel is out.
  unfoldable pub apply_cmds : ℕ → Rd cfg p → Option (Outcome (Rd cfg p))
  unfolding again apply_cmd
  apply_cmds zero d = none
  apply_cmds (suc fuel) d = again (λ d. apply_cmds fuel d) (apply_cmd d)
