-- ===== src/CmdState/Files.antt =====
-- The files of the agent: `refresh` and `apply` of resctl-demo/src/command.rs. `Files` has the
-- fields that are used. Saving a file is left out.
use resctl_demo.Prelude.{ℕ, ◌-◌, List, [], Bool, ltb, ◌==◌, min, max, if◌then◌else◌}
use resctl_demo.Prelude.Words.{add64}
use resctl_demo.Text.{Text}
use resctl_demo.Hashd.{HashdCmd}
use resctl_demo.CmdState.{CmdState}

pub data MemoryKnob : Type 0 where
  no_bytes : MemoryKnob
  bytes : ℕ → MemoryKnob

pub record CmdFile (F : Type 0) : Type 0 where
  pub cmd_seq : ℕ
  pub bench_hashd_seq : ℕ
  pub bench_hashd_balloon_size : ℕ
  pub bench_hashd_args : List Text
  pub bench_iocost_seq : ℕ
  pub cpu_headroom : F
  pub hashd : HashdCmd F × HashdCmd F
  pub sysloads : List (Text × Text)
  pub sideloads : List (Text × Text)
  pub balloon_ratio : F

-- `disable_seqs`, the two slices, and the memory protection of one
pub record SliceFile : Type 0 where
  pub disable_cpu : ℕ
  pub disable_mem : ℕ
  pub disable_io : ℕ
  pub work_cpu_weight : ℕ
  pub work_io_weight : ℕ
  pub sys_cpu_weight : ℕ
  pub sys_io_weight : ℕ
  pub work_mem_low : MemoryKnob

pub record OomdFile : Type 0 where
  pub disable_seq : ℕ
  pub work_mem_disable_seq : ℕ
  pub work_senpai : Bool
  pub sys_mem_disable_seq : ℕ
  pub sys_senpai : Bool

-- The files with commands; `bench` and the report have the last runs and the number of the report.
pub record Files (F : Type 0) : Type 0 where
  pub cmd : CmdFile F
  pub slices : SliceFile
  pub oomd : OomdFile
  pub hashd_seq : ℕ
  pub iocost_seq : ℕ
  pub report_seq : ℕ

pub record FileOps (F : Type 0) : Type 0 where
  pub total_memory : ℕ
  -- `a as f64 / b as f64`
  pub ratio : ℕ → ℕ → F
  -- `(x * n as f64).round() as u32`
  pub round_mul : F → ℕ → ℕ
  -- `((1.0 - x) * n as f64).max(0.0) as u64`
  pub rest_mul : F → ℕ → ℕ
  pub is_one : F → Bool
  pub ten : F
  pub dfl_balloon_size : ℕ

-- `nr_bytes(false)`
abbrev pub nr_bytes : MemoryKnob → ℕ
nr_bytes MemoryKnob.no_bytes = 0
nr_bytes (MemoryKnob.bytes n) = n

-- The number of a report that has something disabled until the next one.
abbrev pub disabled_by : Bool → ℕ → ℕ
disabled_by on seq = if on then 0 else seq

module _ {F : Type 0} (ops : FileOps F) where
  unfoldable pub refresh : Files F → CmdState F
  refresh af = record {
    bench_hashd_next = af.cmd.bench_hashd_seq;
    bench_iocost_next = af.cmd.bench_iocost_seq;
    bench_hashd_cur = af.hashd_seq;
    bench_iocost_cur = af.iocost_seq;
    hashd = af.cmd.hashd;
    sideloads = af.cmd.sideloads;
    sysloads = af.cmd.sysloads;
    sys_cpu_ratio = ops.ratio af.slices.sys_cpu_weight af.slices.work_cpu_weight;
    sys_io_ratio = ops.ratio af.slices.sys_io_weight af.slices.work_io_weight;
    mem_margin =
        ops.ratio (ops.total_memory - min (nr_bytes af.slices.work_mem_low) ops.total_memory)
          ops.total_memory;
    balloon_ratio = af.cmd.balloon_ratio;
    cpu_headroom = af.cmd.cpu_headroom;
    cpu = ltb af.slices.disable_cpu af.report_seq;
    mem = ltb af.slices.disable_mem af.report_seq;
    io = ltb af.slices.disable_io af.report_seq;
    oomd = ltb af.oomd.disable_seq af.report_seq;
    oomd_work_mempress = ltb af.oomd.work_mem_disable_seq af.report_seq;
    oomd_work_senpai = af.oomd.work_senpai;
    oomd_sys_mempress = ltb af.oomd.sys_mem_disable_seq af.report_seq;
    oomd_sys_senpai = af.oomd.sys_senpai;
  }

  -- All of the load is ten times of it.
  abbrev pub full_load : HashdCmd F → HashdCmd F
  full_load h = record h {
    rps_target_ratio = if ops.is_one h.rps_target_ratio then ops.ten else h.rps_target_ratio;
  }

  abbrev apply_cmd : CmdState F → CmdFile F → CmdFile F
  apply_cmd cs cmd =
      let same_bench = cs.bench_hashd_next == cmd.bench_hashd_seq in
      record {
        cmd_seq = add64 cmd.cmd_seq 1;
        bench_hashd_seq = cs.bench_hashd_next;
        bench_hashd_balloon_size =
            if same_bench then cmd.bench_hashd_balloon_size else ops.dfl_balloon_size;
        bench_hashd_args = if same_bench then cmd.bench_hashd_args else [];
        bench_iocost_seq = cs.bench_iocost_next;
        cpu_headroom = cs.cpu_headroom;
        hashd = (full_load cs.hashd.0, full_load cs.hashd.1);
        sysloads = cs.sysloads;
        sideloads = cs.sideloads;
        balloon_ratio = cs.balloon_ratio;
      }

  abbrev apply_slices : CmdState F → ℕ → SliceFile → SliceFile
  apply_slices cs seq slices = record slices {
    disable_cpu = disabled_by cs.cpu seq;
    disable_mem = disabled_by cs.mem seq;
    disable_io = disabled_by cs.io seq;
    sys_cpu_weight = max (ops.round_mul cs.sys_cpu_ratio slices.work_cpu_weight) 1;
    sys_io_weight = max (ops.round_mul cs.sys_io_ratio slices.work_io_weight) 1;
    work_mem_low = MemoryKnob.bytes (ops.rest_mul cs.mem_margin ops.total_memory);
  }

  abbrev apply_oomd : CmdState F → ℕ → OomdFile
  apply_oomd cs seq = record {
    disable_seq = disabled_by cs.oomd seq;
    work_mem_disable_seq = disabled_by cs.oomd_work_mempress seq;
    work_senpai = cs.oomd_work_senpai;
    sys_mem_disable_seq = disabled_by cs.oomd_sys_mempress seq;
    sys_senpai = cs.oomd_sys_senpai;
  }

  -- The three files are written when they changed, which comes to the same.
  unfoldable pub apply : CmdState F → Files F → Files F
  apply cs af = record af {
    cmd = apply_cmd cs af.cmd;
    slices = apply_slices cs af.report_seq af.slices;
    oomd = apply_oomd cs af.report_seq;
  }
