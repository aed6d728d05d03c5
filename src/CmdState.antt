-- ===== src/CmdState.antt =====
-- The commands of resctl-demo's documents: `CmdState` of resctl-demo/src/command.rs, and
-- `exec_one_cmd` and its callers in resctl-demo/src/doc.rs.
--
-- A floating-point number is a parameter `F` with the operations used. Of the screen there is the
-- main graph. Two instances of rd-hashd are a pair.
pub mod Files
pub mod Run
pub mod Runs
pub mod Documents
pub mod Shown
pub mod ReadBack
mod Tests
use resctl_demo.Prelude.{
  ℕ, List, [], ◌∷◌, Option, none, some, Bool, true, false, ltb, ◌==◌, if◌then◌else◌,
}
use resctl_demo.Prelude.Outcome.{Outcome, ok, panicked, ◌>>=◌}
use resctl_demo.Prelude.Words.{add64}
use resctl_demo.Text.{Text, text, text_ord}
use resctl_demo.BTreeMap.{insert, remove}
use resctl_demo.Jobs.{u64_max}
use resctl_demo.Hashd.{HashdCmd}
use resctl_demo.Markup.{RdSwitch, RdKnob, RdReset, RdCmd, lookup}

pub record CmdState (F : Type 0) : Type 0 where
  pub bench_hashd_next : ℕ
  pub bench_iocost_next : ℕ
  pub bench_hashd_cur : ℕ
  pub bench_iocost_cur : ℕ
  pub hashd : HashdCmd F × HashdCmd F
  pub sideloads : List (Text × Text)
  pub sysloads : List (Text × Text)
  pub sys_cpu_ratio : F
  pub sys_io_ratio : F
  pub mem_margin : F
  pub balloon_ratio : F
  pub cpu_headroom : F
  pub cpu : Bool
  pub mem : Bool
  pub io : Bool
  pub oomd : Bool
  pub oomd_work_mempress : Bool
  pub oomd_work_senpai : Bool
  pub oomd_sys_mempress : Bool
  pub oomd_sys_senpai : Bool

-- The defaults, and what is done with the values of knobs.
pub record KnobOps (F : Type 0) : Type 0 where
  pub below_one : F → Bool
  pub hundred : F
  -- `(wbps * val).round() as u64`
  pub log_bps : F → ℕ
  pub dfl_hashd : HashdCmd F
  pub dfl_sys_cpu_ratio : F
  pub dfl_sys_io_ratio : F
  pub dfl_mem_margin : F
  pub dfl_balloon_ratio : F
  pub dfl_cpu_headroom : F

module _ {F : Type 0} where
  -- `BenchNeeded` starts the benchmarks that never ran, on or off.
  unfoldable pub switch : RdSwitch → Bool → CmdState F → CmdState F
  switch RdSwitch.bench_hashd is_on cs = record cs {
    bench_hashd_next = add64 cs.bench_hashd_cur (if is_on then 1 else 0);
  }
  switch RdSwitch.bench_hashd_loop is_on cs = record cs {
    bench_hashd_next = if is_on then u64_max else cs.bench_hashd_cur;
  }
  switch RdSwitch.bench_io_cost is_on cs = record cs {
    bench_iocost_next = add64 cs.bench_iocost_cur (if is_on then 1 else 0);
  }
  switch RdSwitch.bench_needed is_on cs = record cs {
    bench_hashd_next = if cs.bench_hashd_cur == 0 then 1 else cs.bench_hashd_next;
    bench_iocost_next = if cs.bench_iocost_cur == 0 then 1 else cs.bench_iocost_next;
  }
  switch RdSwitch.hashd_a is_on cs = record cs {
    hashd = (record cs.hashd.0 { active = is_on }, cs.hashd.1);
  }
  switch RdSwitch.hashd_b is_on cs = record cs {
    hashd = (cs.hashd.0, record cs.hashd.1 { active = is_on });
  }
  switch (RdSwitch.sideload tag i) is_on cs = record cs {
    sideloads = if is_on then insert tag i cs.sideloads else remove tag cs.sideloads;
  }
  switch (RdSwitch.sysload tag i) is_on cs = record cs {
    sysloads = if is_on then insert tag i cs.sysloads else remove tag cs.sysloads;
  }
  switch RdSwitch.cpu_res_ctl is_on cs = record cs { cpu = is_on }
  switch RdSwitch.mem_res_ctl is_on cs = record cs { mem = is_on }
  switch RdSwitch.io_res_ctl is_on cs = record cs { io = is_on }
  switch RdSwitch.oomd is_on cs = record cs { oomd = is_on }
  switch RdSwitch.oomd_work_mem_pressure is_on cs = record cs { oomd_work_mempress = is_on }
  switch RdSwitch.oomd_work_senpai is_on cs = record cs { oomd_work_senpai = is_on }
  switch RdSwitch.oomd_sys_mem_pressure is_on cs = record cs { oomd_sys_mempress = is_on }
  switch RdSwitch.oomd_sys_senpai is_on cs = record cs { oomd_sys_senpai = is_on }

  abbrev with_a : (HashdCmd F → HashdCmd F) → CmdState F → CmdState F
  with_a f cs = record cs { hashd = (f cs.hashd.0, cs.hashd.1) }

  abbrev with_b : (HashdCmd F → HashdCmd F) → CmdState F → CmdState F
  with_b f cs = record cs { hashd = (cs.hashd.0, f cs.hashd.1) }

module _ {F : Type 0} (ops : KnobOps F) where
  -- The deviation of one is a hundred, which is as good as uniform.
  abbrev stdev : F → Option F
  stdev v = some (if ops.below_one v then v else ops.hundred)

  unfoldable pub set_knob : RdKnob → F → CmdState F → CmdState F
  set_knob RdKnob.hashd_a_load v cs = with_a (λ h. record h { rps_target_ratio = v }) cs
  set_knob RdKnob.hashd_b_load v cs = with_b (λ h. record h { rps_target_ratio = v }) cs
  set_knob RdKnob.hashd_a_lat_target_pct v cs = with_a (λ h. record h { lat_target_pct = v }) cs
  set_knob RdKnob.hashd_b_lat_target_pct v cs = with_b (λ h. record h { lat_target_pct = v }) cs
  set_knob RdKnob.hashd_a_lat_target v cs = with_a (λ h. record h { lat_target = v }) cs
  set_knob RdKnob.hashd_b_lat_target v cs = with_b (λ h. record h { lat_target = v }) cs
  set_knob RdKnob.hashd_a_mem v cs = with_a (λ h. record h { mem_ratio = some v }) cs
  set_knob RdKnob.hashd_b_mem v cs = with_b (λ h. record h { mem_ratio = some v }) cs
  set_knob RdKnob.hashd_a_file_addr_stdev v cs =
      with_a (λ h. record h { file_addr_stdev = stdev v }) cs
  set_knob RdKnob.hashd_a_anon_addr_stdev v cs =
      with_a (λ h. record h { anon_addr_stdev = stdev v }) cs
  set_knob RdKnob.hashd_b_file_addr_stdev v cs =
      with_b (λ h. record h { file_addr_stdev = stdev v }) cs
  set_knob RdKnob.hashd_b_anon_addr_stdev v cs =
      with_b (λ h. record h { anon_addr_stdev = stdev v }) cs
  set_knob RdKnob.hashd_a_file v cs = with_a (λ h. record h { file_ratio = v }) cs
  set_knob RdKnob.hashd_b_file v cs = with_b (λ h. record h { file_ratio = v }) cs
  set_knob RdKnob.hashd_a_file_max v cs = with_a (λ h. record h { file_max_ratio = v }) cs
  set_knob RdKnob.hashd_b_file_max v cs = with_b (λ h. record h { file_max_ratio = v }) cs
  set_knob RdKnob.hashd_a_log_bps v cs = with_a (λ h. record h { log_bps = ops.log_bps v }) cs
  set_knob RdKnob.hashd_b_log_bps v cs = with_b (λ h. record h { log_bps = ops.log_bps v }) cs
  set_knob RdKnob.hashd_a_weight v cs = with_a (λ h. record h { weight = v }) cs
  set_knob RdKnob.hashd_b_weight v cs = with_b (λ h. record h { weight = v }) cs
  set_knob RdKnob.sys_cpu_ratio v cs = record cs { sys_cpu_ratio = v }
  set_knob RdKnob.sys_io_ratio v cs = record cs { sys_io_ratio = v }
  set_knob RdKnob.mem_margin v cs = record cs { mem_margin = v }
  set_knob RdKnob.balloon v cs = record cs { balloon_ratio = v }
  set_knob RdKnob.cpu_headroom v cs = record cs { cpu_headroom = v }
