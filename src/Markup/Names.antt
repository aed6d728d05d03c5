-- ===== src/Markup/Names.antt =====
-- The names of switches, knobs and resets in a command: the tables of `RdCmd::parse` in
-- resctl-demo/src/doc/markup_rd.rs.
use resctl_demo.Prelude.{List, [], ◌∷◌}
use resctl_demo.Text.{Text, text}
use resctl_demo.Markup.{RdSwitch, RdKnob, RdReset}

abbrev pub switches : List (Text × RdSwitch)
switches =
    (text "bench-hashd", RdSwitch.bench_hashd)
    ∷ (text "bench-hashd-loop", RdSwitch.bench_hashd_loop)
    ∷ (text "bench-iocost", RdSwitch.bench_io_cost)
    ∷ (text "bench-needed", RdSwitch.bench_needed)
    ∷ (text "hashd", RdSwitch.hashd_a)
    ∷ (text "hashd-A", RdSwitch.hashd_a)
    ∷ (text "hashd-B", RdSwitch.hashd_b)
    ∷ (text "cpu-resctl", RdSwitch.cpu_res_ctl)
    ∷ (text "mem-resctl", RdSwitch.mem_res_ctl)
    ∷ (text "io-resctl", RdSwitch.io_res_ctl)
    ∷ (text "oomd", RdSwitch.oomd)
    ∷ (text "oomd-work-mem-pressure", RdSwitch.oomd_work_mem_pressure)
    ∷ (text "oomd-work-senpai", RdSwitch.oomd_work_senpai)
    ∷ (text "oomd-sys-mem-pressure", RdSwitch.oomd_sys_mem_pressure)
    ∷ (text "oomd-sys-senpai", RdSwitch.oomd_sys_senpai)
    ∷ []

abbrev pub knobs : List (Text × RdKnob)
knobs =
    (text "hashd-load", RdKnob.hashd_a_load)
    ∷ (text "hashd-A-load", RdKnob.hashd_a_load)
    ∷ (text "hashd-lat-target-pct", RdKnob.hashd_a_lat_target_pct)
    ∷ (text "hashd-A-lat-target-pct", RdKnob.hashd_a_lat_target_pct)
    ∷ (text "hashd-lat-target", RdKnob.hashd_a_lat_target)
    ∷ (text "hashd-A-lat-target", RdKnob.hashd_a_lat_target)
    ∷ (text "hashd-mem", RdKnob.hashd_a_mem)
    ∷ (text "hashd-A-mem", RdKnob.hashd_a_mem)
    ∷ (text "hashd-file-addr-stdev", RdKnob.hashd_a_file_addr_stdev)
    ∷ (text "hashd-A-file-addr-stdev", RdKnob.hashd_a_file_addr_stdev)
    ∷ (text "hashd-anon-addr-stdev", RdKnob.hashd_a_anon_addr_stdev)
    ∷ (text "hashd-A-anon-addr-stdev", RdKnob.hashd_a_anon_addr_stdev)
    ∷ (text "hashd-file", RdKnob.hashd_a_file)
    ∷ (text "hashd-A-file", RdKnob.hashd_a_file)
    ∷ (text "hashd-file-max", RdKnob.hashd_a_file_max)
    ∷ (text "hashd-A-file-max", RdKnob.hashd_a_file_max)
    ∷ (text "hashd-log-bps", RdKnob.hashd_a_log_bps)
    ∷ (text "hashd-A-write", RdKnob.hashd_a_log_bps)
    ∷ (text "hashd-weight", RdKnob.hashd_a_weight)
    ∷ (text "hashd-A-weight", RdKnob.hashd_a_weight)
    ∷ (text "hashd-B-load", RdKnob.hashd_b_load)
    ∷ (text "hashd-B-lat-target-pct", RdKnob.hashd_b_lat_target_pct)
    ∷ (text "hashd-B-lat-target", RdKnob.hashd_b_lat_target)
    ∷ (text "hashd-B-mem", RdKnob.hashd_b_mem)
    ∷ (text "hashd-B-file-addr-stdev", RdKnob.hashd_b_file_addr_stdev)
    ∷ (text "hashd-B-anon-addr-stdev", RdKnob.hashd_b_anon_addr_stdev)
    ∷ (text "hashd-B-file", RdKnob.hashd_b_file)
    ∷ (text "hashd-B-file-max", RdKnob.hashd_b_file_max)
    ∷ (text "hashd-B-log-bps", RdKnob.hashd_b_log_bps)
    ∷ (text "hashd-B-weight", RdKnob.hashd_b_weight)
    ∷ (text "sys-cpu-ratio", RdKnob.sys_cpu_ratio)
    ∷ (text "sys-io-ratio", RdKnob.sys_io_ratio)
    ∷ (text "mem-margin", RdKnob.mem_margin)
    ∷ (text "balloon", RdKnob.balloon)
    ∷ (text "cpu-headroom", RdKnob.cpu_headroom)
    ∷ []

abbrev pub resets : List (Text × RdReset)
resets =
    (text "benches", RdReset.benches)
    ∷ (text "hashds", RdReset.hashds)
    ∷ (text "hashd-params", RdReset.hashd_params)
    ∷ (text "sideloads", RdReset.sideloads)
    ∷ (text "sysloads", RdReset.sysloads)
    ∷ (text "resctl", RdReset.res_ctl)
    ∷ (text "resctl-params", RdReset.res_ctl_params)
    ∷ (text "oomd", RdReset.oomds)
    ∷ (text "graph", RdReset.graphs)
    ∷ (text "secondaries", RdReset.secondaries)
    ∷ (text "all-workloads", RdReset.all_workloads)
    ∷ (text "protections", RdReset.protections)
    ∷ (text "all", RdReset.everything)
    ∷ (text "params", RdReset.params)
    ∷ (text "all-with-params", RdReset.all_with_params)
    ∷ (text "prep", RdReset.prep)
    ∷ []
