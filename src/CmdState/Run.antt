-- ===== src/CmdState/Run.antt =====
-- Running commands: `exec_one_cmd`, `exec_cmd`, `exec_toggle` and what `show_doc` runs, in
-- resctl-demo/src/doc.rs. Waiting for the agent before something is turned on changes nothing here.
use resctl_demo.Prelude.{List, [], ◌∷◌, Option, none, some, Bool, true, false, if◌then◌else◌}
use resctl_demo.Prelude.Outcome.{Outcome, ok, panicked, ◌>>=◌}
use resctl_demo.Text.{Text, text}
use resctl_demo.Markup.{RdReset, RdCmd, RdCmds, lookup}
use resctl_demo.CmdState.{CmdState, KnobOps, switch, set_knob}
use resctl_demo.CmdState.Files.{Files, FileOps, refresh, apply}

pub data GraphTag : Type 0 where
  hashd_a : GraphTag
  hashd_b : GraphTag
  cpu_util : GraphTag
  mem_util : GraphTag
  io_util : GraphTag
  read_bps : GraphTag
  write_bps : GraphTag
  swap_util : GraphTag
  cpu_psi_some : GraphTag
  cpu_psi_some2 : GraphTag
  mem_psi_some : GraphTag
  io_psi_some : GraphTag
  mem_psi_full : GraphTag
  io_psi_full : GraphTag
  read_lat : GraphTag
  write_lat : GraphTag
  io_cost : GraphTag
  rps_cpu : GraphTag
  rps_mem : GraphTag

-- The tags by their names.
abbrev pub all_tags : List (Text × GraphTag)
all_tags =
    (text "HashdA", GraphTag.hashd_a)
    ∷ (text "HashdB", GraphTag.hashd_b)
    ∷ (text "CpuUtil", GraphTag.cpu_util)
    ∷ (text "MemUtil", GraphTag.mem_util)
    ∷ (text "IoUtil", GraphTag.io_util)
    ∷ (text "ReadBps", GraphTag.read_bps)
    ∷ (text "WriteBps", GraphTag.write_bps)
    ∷ (text "SwapUtil", GraphTag.swap_util)
    ∷ (text "CpuPsiSome", GraphTag.cpu_psi_some)
    ∷ (text "CpuPsiSome2", GraphTag.cpu_psi_some2)
    ∷ (text "MemPsiSome", GraphTag.mem_psi_some)
    ∷ (text "IoPsiSome", GraphTag.io_psi_some)
    ∷ (text "MemPsiFull", GraphTag.mem_psi_full)
    ∷ (text "IoPsiFull", GraphTag.io_psi_full)
    ∷ (text "ReadLat", GraphTag.read_lat)
    ∷ (text "WriteLat", GraphTag.write_lat)
    ∷ (text "IoCost", GraphTag.io_cost)
    ∷ (text "RpsCpu", GraphTag.rps_cpu)
    ∷ (text "RpsMem", GraphTag.rps_mem)
    ∷ []

module _ {F : Type 0} where
  abbrev reset_benches : CmdState F → CmdState F
  reset_benches cs = record cs {
    bench_hashd_next = cs.bench_hashd_cur;
    bench_iocost_next = cs.bench_iocost_cur;
  }

  abbrev reset_hashds : CmdState F → CmdState F
  reset_hashds cs = record cs {
    hashd = (record cs.hashd.0 { active = false }, record cs.hashd.1 { active = false });
  }

  abbrev reset_secondaries : CmdState F → CmdState F
  reset_secondaries cs = record cs { sideloads = []; sysloads = [] }

  abbrev reset_resctl : CmdState F → CmdState F
  reset_resctl cs = record cs { cpu = true; mem = true; io = true }

  abbrev reset_oomd : CmdState F → CmdState F
  reset_oomd cs = record cs {
    oomd = true;
    oomd_work_mempress = true;
    oomd_work_senpai = false;
    oomd_sys_mempress = true;
    oomd_sys_senpai = false;
  }

  -- without the graph
  abbrev reset_all : CmdState F → CmdState F
  reset_all cs = reset_oomd (reset_resctl (reset_secondaries (reset_hashds (reset_benches cs))))

module _ {F : Type 0} (ops : KnobOps F) where
  abbrev reset_hashd_params : CmdState F → CmdState F
  reset_hashd_params cs = record cs {
    hashd = (
      record ops.dfl_hashd { active = cs.hashd.0.active },
      record ops.dfl_hashd { active = cs.hashd.1.active },
    );
  }

  abbrev reset_resctl_params : CmdState F → CmdState F
  reset_resctl_params cs = record cs {
    sys_cpu_ratio = ops.dfl_sys_cpu_ratio;
    sys_io_ratio = ops.dfl_sys_io_ratio;
    mem_margin = ops.dfl_mem_margin;
    balloon_ratio = ops.dfl_balloon_ratio;
    cpu_headroom = ops.dfl_cpu_headroom;
  }

  -- without the graph
  abbrev reset_prep : CmdState F → CmdState F
  reset_prep cs =
      reset_resctl_params (reset_hashd_params (reset_oomd (reset_resctl (reset_secondaries cs))))

  unfoldable pub reset_state : RdReset → CmdState F → CmdState F
  reset_state RdReset.benches cs = reset_benches cs
  reset_state RdReset.hashds cs = reset_hashds cs
  reset_state RdReset.hashd_params cs = reset_hashd_params cs
  reset_state RdReset.sideloads cs = record cs { sideloads = [] }
  reset_state RdReset.sysloads cs = record cs { sysloads = [] }
  reset_state RdReset.res_ctl cs = reset_resctl cs
  reset_state RdReset.res_ctl_params cs = reset_resctl_params cs
  reset_state RdReset.oomds cs = reset_oomd cs
  reset_state RdReset.graphs cs = cs
  reset_state RdReset.secondaries cs = reset_secondaries cs
  reset_state RdReset.all_workloads cs = reset_secondaries (reset_hashds cs)
  reset_state RdReset.protections cs = reset_oomd (reset_resctl cs)
  reset_state RdReset.everything cs = reset_all cs
  reset_state RdReset.params cs = reset_resctl_params (reset_hashd_params cs)
  reset_state RdReset.all_with_params cs = reset_resctl_params (reset_hashd_params (reset_all cs))
  reset_state RdReset.prep cs = reset_prep cs

abbrev clears_graph : RdReset → Bool
clears_graph RdReset.graphs = true
clears_graph RdReset.everything = true
clears_graph RdReset.all_with_params = true
clears_graph RdReset.prep = true
clears_graph rs = false

-- The state of the commands, the main graph, and the files.
pub record Demo (F : Type 0) : Type 0 where
  pub cs : CmdState F
  pub main_graph : GraphTag
  pub files : Files F

abbrev pub find_tag : Text → Option GraphTag
find_tag [] = some GraphTag.hashd_a
find_tag (c ∷ cs) = lookup (c ∷ cs) all_tags

module _ {F : Type 0} (ops : KnobOps F) (fops : FileOps F) where
  unfoldable pub exec_match : RdCmd F → Demo F → Outcome (Demo F)
  unfolding switch set_knob reset_state
  exec_match (RdCmd.on sw) d = ok (record d { cs = switch sw true d.cs })
  exec_match (RdCmd.off sw) d = ok (record d { cs = switch sw false d.cs })
  exec_match (RdCmd.knob k v) d = ok (record d { cs = set_knob ops k v d.cs })
  exec_match (RdCmd.graph name) d = elim (find_tag name) [
    | none ↦ panicked
    | some tag ↦ ok (record d { main_graph = tag })
  ]
  exec_match (RdCmd.reset rs) d = ok (record d {
    cs = reset_state ops rs d.cs;
    main_graph = if clears_graph rs then GraphTag.hashd_a else d.main_graph;
  })
  exec_match cmd d = panicked

  -- The commands are written to the files, from which the state is read again.
  unfoldable pub apply_and_refresh : Demo F → Demo F
  unfolding apply refresh
  apply_and_refresh d =
      let files = apply fops d.cs d.files in record d { cs = refresh fops files; files = files }

  unfoldable pub exec_one_cmd : RdCmd F → Demo F → Outcome (Demo F)
  unfolding exec_match apply_and_refresh
  exec_one_cmd cmd d = exec_match cmd d >>= λ d. ok (apply_and_refresh d)

  unfoldable pub exec_group : RdCmds F → Demo F → Outcome (Demo F)
  unfolding exec_one_cmd
  exec_group RdCmds.nil d = ok d
  exec_group (RdCmds.cons cmd cmds) d = exec_one_cmd cmd d >>= λ d. exec_group cmds d

  unfoldable pub exec_cmd : RdCmd F → Demo F → Outcome (Demo F)
  unfolding exec_group
  exec_cmd (RdCmd.group cmds) d = exec_group cmds d
  exec_cmd cmd d = exec_one_cmd cmd d

  unfoldable pub exec_toggle : RdCmd F → Bool → Demo F → Outcome (Demo F)
  unfolding exec_cmd
  exec_toggle (RdCmd.toggle sw) val d = exec_cmd (if val then RdCmd.on sw else RdCmd.off sw) d
  exec_toggle cmd val d = panicked

  -- The commands after a document is left.
  unfoldable pub exec_post : List (RdCmd F) → Demo F → Outcome (Demo F)
  unfolding exec_cmd
  exec_post [] d = ok d
  exec_post (cmd ∷ cmds) d = exec_cmd cmd d >>= λ d. exec_post cmds d

  -- The commands before a document is shown, and where these jump to.
  unfoldable pub exec_pre : List (RdCmd F) → Demo F → Outcome (Demo F × Option Text)
  unfolding exec_cmd
  exec_pre [] d = ok (d, none)
  exec_pre (cmd ∷ cmds) d = elim cmd [
    | RdCmd.jump target ↦ ok (d, some target)
    | other ↦ exec_cmd other d >>= λ d. exec_pre cmds d
  ]
