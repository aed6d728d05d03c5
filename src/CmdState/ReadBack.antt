-- ===== src/CmdState/ReadBack.antt =====
-- What comes back from the files of the agent: `apply` and then `refresh` of
-- resctl-demo/src/command.rs.
use resctl_demo.Prelude.{◌≡◌, ◌<◌, ◌-◌, max, min, Bool}
use resctl_demo.CmdState.{CmdState}
use resctl_demo.CmdState.Files.{Files, FileOps, refresh, apply, full_load}
use resctl_demo.CmdState.Shown.{ltb-disabled_by}

module _ {F : Type 0} (fops : FileOps F) where
  -- The same commands, but for what the files hold otherwise: the runs of the benchmarks, full loads
  -- that are more than full, and weights and bytes that are whole numbers.
  abbrev pub read_back : CmdState F → Files F → CmdState F
  read_back cs af = record cs {
    bench_hashd_cur = af.hashd_seq;
    bench_iocost_cur = af.iocost_seq;
    hashd = (full_load fops cs.hashd.0, full_load fops cs.hashd.1);
    sys_cpu_ratio =
        fops.ratio (max (fops.round_mul cs.sys_cpu_ratio af.slices.work_cpu_weight) 1)
          af.slices.work_cpu_weight;
    sys_io_ratio =
        fops.ratio (max (fops.round_mul cs.sys_io_ratio af.slices.work_io_weight) 1)
          af.slices.work_io_weight;
    mem_margin =
        fops.ratio
          (fops.total_memory
            - min (fops.rest_mul cs.mem_margin fops.total_memory) fops.total_memory)
          fops.total_memory;
  }

  -- What is applied is read back.
  pub refresh-apply :
      (cs : CmdState F) (af : Files F)
      → 0 < af.report_seq
      → refresh fops (apply fops cs af) ≡ read_back cs af
  unfolding refresh apply
  refresh-apply cs af h =
      let back = λ (on : Bool). ltb-disabled_by on af.report_seq h in
      λ i. record (read_back cs af) {
        cpu = back cs.cpu i;
        mem = back cs.mem i;
        io = back cs.io i;
        oomd = back cs.oomd i;
        oomd_work_mempress = back cs.oomd_work_mempress i;
        oomd_sys_mempress = back cs.oomd_sys_mempress i;
      }
