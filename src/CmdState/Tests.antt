-- ===== src/CmdState/Tests.antt =====
-- The commands at concrete inputs.
use resctl_demo.Prelude.{ℕ, ◌-◌, ◌*◌, ◌/◌, ◌≡◌, refl, [], none, true, false, ltb, arith, ◌==◌}
use resctl_demo.Prelude.Outcome.{ok, panicked}
use resctl_demo.Text.{text, cmp_text}
use resctl_demo.Hashd.{HashdCmd}
use resctl_demo.Markup.{RdSwitch, RdCmd, RdCmds}
use resctl_demo.Markup.Tests.{values, view, lines, doc, lines-doc}
use resctl_demo.CmdState.{KnobOps}
use resctl_demo.CmdState.Files.{Files, FileOps, MemoryKnob, refresh, apply}
use resctl_demo.CmdState.Run.{Demo, GraphTag, exec_toggle, exec_cmd}
use resctl_demo.CmdState.Shown.{IsSynced, shown, chosen, exec_toggle-shown}
use resctl_demo.CmdState.ReadBack.{read_back, refresh-apply}
use resctl_demo.CmdState.Documents.{HasGraphs, DocEnds, parse_doc-DocEnds}

abbrev hashd : HashdCmd ℕ
hashd = record {
  active = false;
  lat_target_pct = 90;
  lat_target = 75;
  rps_target_ratio = 100;
  mem_ratio = none;
  file_addr_stdev = none;
  anon_addr_stdev = none;
  file_ratio = 25;
  file_max_ratio = 25;
  log_bps = 1000;
  weight = 100;
}

abbrev ops : KnobOps ℕ
ops = record {
  below_one = λ v. ltb v 100;
  hundred = 10000;
  log_bps = λ v. v;
  dfl_hashd = hashd;
  dfl_sys_cpu_ratio = 10;
  dfl_sys_io_ratio = 10;
  dfl_mem_margin = 25;
  dfl_balloon_ratio = 0;
  dfl_cpu_headroom = 20;
}

abbrev fops : FileOps ℕ
fops = record {
  total_memory = 1000;
  ratio = λ a b. a * 100 / b;
  round_mul = λ x n. x * n / 100;
  rest_mul = λ x n. (100 - x) * n / 100;
  is_one = λ x. x == 100;
  ten = 1000;
  dfl_balloon_size = 7;
}

abbrev files : Files ℕ
files = record {
  cmd = record {
    cmd_seq = 3;
    bench_hashd_seq = 1;
    bench_hashd_balloon_size = 0;
    bench_hashd_args = [];
    bench_iocost_seq = 0;
    cpu_headroom = 20;
    hashd = (hashd, hashd);
    sysloads = [];
    sideloads = [];
    balloon_ratio = 0;
  };
  slices = record {
    disable_cpu = 0;
    disable_mem = 9;
    disable_io = 0;
    work_cpu_weight = 100;
    work_io_weight = 500;
    sys_cpu_weight = 10;
    sys_io_weight = 50;
    work_mem_low = MemoryKnob.bytes 750;
  };
  oomd = record {
    disable_seq = 0;
    work_mem_disable_seq = 0;
    work_senpai = false;
    sys_mem_disable_seq = 0;
    sys_senpai = false;
  };
  hashd_seq = 1;
  iocost_seq = 0;
  report_seq = 9;
}

abbrev demo : Demo ℕ
demo = record { cs = refresh fops files; main_graph = GraphTag.hashd_a; files = files }

demo-IsSynced : IsSynced demo
unfolding refresh
demo-IsSynced = record {
  hashd = refl;
  iocost = refl;
  hashd_lt = omega arith;
  iocost_lt = omega arith;
  reported = omega arith;
}

exec_toggle-shown_example :
    (d' : Demo ℕ) × (exec_toggle ops fops (RdCmd.toggle RdSwitch.mem_res_ctl) true demo ≡ ok d')
    × (shown RdSwitch.mem_res_ctl d'.cs ≡ chosen RdSwitch.mem_res_ctl true demo.cs)
    × IsSynced d'
exec_toggle-shown_example = exec_toggle-shown ops fops RdSwitch.mem_res_ctl true demo demo-IsSynced

refresh-apply_example : refresh fops (apply fops demo.cs files) ≡ read_back fops demo.cs files
refresh-apply_example = refresh-apply fops demo.cs files (omega arith)

doc-HasGraphs : HasGraphs doc
unfolding cmp_text
doc-HasGraphs = record {
  pre = (refl, tt);
  post = (refl, tt);
  groups = (tt, (tt, (tt, ((refl, tt), tt))));
}

parse_doc-DocEnds_example : DocEnds ops fops doc demo
parse_doc-DocEnds_example =
    parse_doc-DocEnds values ops fops view lines doc demo refl lines-doc doc-HasGraphs

-- A group may have a jump, which does not run.
jump_in_group :
    exec_cmd ops fops (RdCmd.group (RdCmds.cons (RdCmd.jump (text "index")) RdCmds.nil)) demo
    ≡ panicked
unfolding exec_cmd
jump_in_group = refl
