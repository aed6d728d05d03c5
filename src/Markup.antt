-- ===== src/Markup.antt =====
-- The documents of resctl-demo: resctl-demo/src/doc/markup_rd.rs.
--
-- A floating-point number is a parameter `F` with the operations used, in `KnobValues`. An `anyhow`
-- error is `none`, inside an outcome where the code may panic. Slices of strings are by their bytes
-- in UTF-8.
pub mod Bytes
pub mod Names
pub mod Cmds
pub mod Styled
pub mod Tokens
pub mod Lines
pub mod Docs
pub mod Commands
pub mod Runnable
pub mod Grouped
pub mod Sound
pub mod Tests
use resctl_demo.Prelude.{ℕ, List, [], ◌∷◌, Option, none, some, Bool, if◌then◌else◌}
use resctl_demo.Text.{Text, text, cmp_text}
use resctl_demo.BTreeMap.{is_eq}

pub data RdSwitch : Type 0 where
  bench_hashd : RdSwitch
  bench_hashd_loop : RdSwitch
  bench_io_cost : RdSwitch
  bench_needed : RdSwitch
  hashd_a : RdSwitch
  hashd_b : RdSwitch
  sideload : Text → Text → RdSwitch
  sysload : Text → Text → RdSwitch
  cpu_res_ctl : RdSwitch
  mem_res_ctl : RdSwitch
  io_res_ctl : RdSwitch
  oomd : RdSwitch
  oomd_work_mem_pressure : RdSwitch
  oomd_work_senpai : RdSwitch
  oomd_sys_mem_pressure : RdSwitch
  oomd_sys_senpai : RdSwitch

pub data RdKnob : Type 0 where
  hashd_a_load : RdKnob
  hashd_b_load : RdKnob
  hashd_a_lat_target_pct : RdKnob
  hashd_b_lat_target_pct : RdKnob
  hashd_a_lat_target : RdKnob
  hashd_b_lat_target : RdKnob
  hashd_a_mem : RdKnob
  hashd_b_mem : RdKnob
  hashd_a_file_addr_stdev : RdKnob
  hashd_a_anon_addr_stdev : RdKnob
  hashd_b_file_addr_stdev : RdKnob
  hashd_b_anon_addr_stdev : RdKnob
  hashd_a_file : RdKnob
  hashd_b_file : RdKnob
  hashd_a_file_max : RdKnob
  hashd_b_file_max : RdKnob
  hashd_a_log_bps : RdKnob
  hashd_b_log_bps : RdKnob
  hashd_a_weight : RdKnob
  hashd_b_weight : RdKnob
  sys_cpu_ratio : RdKnob
  sys_io_ratio : RdKnob
  mem_margin : RdKnob
  balloon : RdKnob
  cpu_headroom : RdKnob

pub data RdReset : Type 0 where
  benches : RdReset
  hashds : RdReset
  hashd_params : RdReset
  sideloads : RdReset
  sysloads : RdReset
  res_ctl : RdReset
  res_ctl_params : RdReset
  oomds : RdReset
  graphs : RdReset
  all_workloads : RdReset
  secondaries : RdReset
  protections : RdReset
  everything : RdReset
  params : RdReset
  all_with_params : RdReset
  prep : RdReset

-- `RdCmd`, with the commands of a group.
mutual
  pub data RdCmd (F : Type 0) : Type 0 where
    id : Text → RdCmd F
    on : RdSwitch → RdCmd F
    off : RdSwitch → RdCmd F
    toggle : RdSwitch → RdCmd F
    knob : RdKnob → F → RdCmd F
    graph : Text → RdCmd F
    reset : RdReset → RdCmd F
    jump : Text → RdCmd F
    group : RdCmds F → RdCmd F

  pub data RdCmds (F : Type 0) : Type 0 where
    nil : RdCmds F
    cons : RdCmd F → RdCmds F → RdCmds F

pub record KnobValues (F : Type 0) : Type 0 where
  pub zero : F
  pub one : F
  pub minus_one : F
  pub le : F → F → Bool
  pub lt : F → F → Bool
  pub parse : Text → Option F

abbrev pub same : Text → Text → Bool
same a b = is_eq (cmp_text a b)

abbrev pub lookup {ℓ} : {A : Type ℓ} → Text → List (Text × A) → Option A
lookup name [] = none
lookup name ((key, a) ∷ table) = if same name key then some a else lookup name table
