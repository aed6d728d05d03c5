-- ===== src/CmdState/Shown.antt =====
-- What the screen shows of the commands: `refresh_toggles` of resctl-demo/src/doc.rs, and what comes
-- back from the files of the agent in resctl-demo/src/command.rs.
use resctl_demo.Prelude.{
  ℕ, List, ap₂, ◌+◌, ◌≡◌, ◌<◌, refl, sym, ap, ◌∙◌, Bool, true, false, ◌||◌, ◌==◌, ltb, arith,
  if◌then◌else◌,
}
use resctl_demo.Prelude.Outcome.{ok}
use resctl_demo.Prelude.Words.{add64, add64-lt}
use resctl_demo.Prelude.Order.{cmp_refl}
use resctl_demo.Text.{Text, text_ord}
use resctl_demo.BTreeMap.{get, insert, remove, is_some, get-insert, get-remove}
use resctl_demo.Jobs.{u64_max}
use resctl_demo.Markup.{RdSwitch, RdCmd}
use resctl_demo.CmdState.{CmdState, KnobOps, switch}
use resctl_demo.CmdState.Files.{FileOps, refresh, apply, disabled_by}
use resctl_demo.CmdState.Run.{
  Demo, exec_match, apply_and_refresh, exec_one_cmd, exec_cmd, exec_toggle,
}

-- Whether the box of a switch is checked.
unfoldable pub shown : {F : Type 0} → RdSwitch → CmdState F → Bool
shown RdSwitch.bench_hashd cs = ltb cs.bench_hashd_cur cs.bench_hashd_next
shown RdSwitch.bench_hashd_loop cs = cs.bench_hashd_next == u64_max
shown RdSwitch.bench_io_cost cs = ltb cs.bench_iocost_cur cs.bench_iocost_next
shown RdSwitch.bench_needed cs = cs.bench_hashd_cur == 0 || cs.bench_iocost_cur == 0
shown RdSwitch.hashd_a cs = cs.hashd.0.active
shown RdSwitch.hashd_b cs = cs.hashd.1.active
shown (RdSwitch.sideload tag i) cs = is_some (get tag cs.sideloads)
shown (RdSwitch.sysload tag i) cs = is_some (get tag cs.sysloads)
shown RdSwitch.cpu_res_ctl cs = cs.cpu
shown RdSwitch.mem_res_ctl cs = cs.mem
shown RdSwitch.io_res_ctl cs = cs.io
shown RdSwitch.oomd cs = cs.oomd
shown RdSwitch.oomd_work_mem_pressure cs = cs.oomd_work_mempress
shown RdSwitch.oomd_work_senpai cs = cs.oomd_work_senpai
shown RdSwitch.oomd_sys_mem_pressure cs = cs.oomd_sys_mempress
shown RdSwitch.oomd_sys_senpai cs = cs.oomd_sys_senpai

-- A report comes after what was disabled by an earlier one.
pub ltb-disabled_by : (on : Bool) (seq : ℕ) → 0 < seq → ltb (disabled_by on seq) seq ≡ on
ltb-disabled_by on seq h = ground (arith, h)

get-insert_same :
    (tag i : Text) (m : List (Text × Text)) → is_some (get tag (insert tag i m)) ≡ true
get-insert_same tag i m = ground (arith, get-insert tag tag i m, cmp_refl tag)

get-remove_same : (tag : Text) (m : List (Text × Text)) → is_some (get tag (remove tag m)) ≡ false
get-remove_same tag m = ground (arith, get-remove tag tag m, cmp_refl tag)

-- The last run before the one that is wanted, or none wanted.
ltb-add64 : (n : ℕ) (on : Bool) → n + 1 < u64_max → ltb n (add64 n (if on then 1 else 0)) ≡ on
ltb-add64 n true h = ground (arith, add64-lt n 1, h)
ltb-add64 n false h = ground (arith, add64-lt n 0, h)

is_max : (n : ℕ) (on : Bool) → n + 1 < u64_max → ((if on then u64_max else n) == u64_max) ≡ on
is_max n true h = ground arith
is_max n false h = ground (arith, h)

-- The numbers of the last runs are those of the files, and there are later numbers. There was a
-- report.
pub record IsSynced {F : Type 0} (d : Demo F) : Type 0 where
  pub hashd : d.cs.bench_hashd_cur ≡ d.files.hashd_seq
  pub iocost : d.cs.bench_iocost_cur ≡ d.files.iocost_seq
  pub hashd_lt : d.files.hashd_seq + 1 < u64_max
  pub iocost_lt : d.files.iocost_seq + 1 < u64_max
  pub reported : 0 < d.files.report_seq

abbrev pub chosen : {F : Type 0} → RdSwitch → Bool → CmdState F → Bool
chosen RdSwitch.bench_needed val cs = shown RdSwitch.bench_needed cs
chosen sw val cs = val

module _ {F : Type 0} (ops : KnobOps F) (fops : FileOps F) where
  abbrev after_switch : RdSwitch → Bool → Demo F → Demo F
  after_switch sw val d = apply_and_refresh ops fops (record d { cs = switch sw val d.cs })

  shown-switch :
      (sw : RdSwitch) (val : Bool) (d : Demo F)
      → IsSynced d
      → shown sw (after_switch sw val d).cs ≡ chosen sw val d.cs
  unfolding shown apply_and_refresh apply refresh switch
  shown-switch RdSwitch.bench_hashd val d h =
      ap (λ n. ltb d.files.hashd_seq (add64 n (if val then 1 else 0))) h.hashd
      ∙ ltb-add64 d.files.hashd_seq val h.hashd_lt
  shown-switch RdSwitch.bench_hashd_loop val d h =
      ap (λ n. (if val then u64_max else n) == u64_max) h.hashd
      ∙ is_max d.files.hashd_seq val h.hashd_lt
  shown-switch RdSwitch.bench_io_cost val d h =
      ap (λ n. ltb d.files.iocost_seq (add64 n (if val then 1 else 0))) h.iocost
      ∙ ltb-add64 d.files.iocost_seq val h.iocost_lt
  shown-switch RdSwitch.bench_needed val d h =
      ap₂ (λ m n. m == 0 || n == 0) (sym h.hashd) (sym h.iocost)
  shown-switch RdSwitch.hashd_a val d h = refl
  shown-switch RdSwitch.hashd_b val d h = refl
  shown-switch (RdSwitch.sideload tag i) true d h = get-insert_same tag i d.cs.sideloads
  shown-switch (RdSwitch.sideload tag i) false d h = get-remove_same tag d.cs.sideloads
  shown-switch (RdSwitch.sysload tag i) true d h = get-insert_same tag i d.cs.sysloads
  shown-switch (RdSwitch.sysload tag i) false d h = get-remove_same tag d.cs.sysloads
  shown-switch RdSwitch.cpu_res_ctl val d h = ltb-disabled_by val d.files.report_seq h.reported
  shown-switch RdSwitch.mem_res_ctl val d h = ltb-disabled_by val d.files.report_seq h.reported
  shown-switch RdSwitch.io_res_ctl val d h = ltb-disabled_by val d.files.report_seq h.reported
  shown-switch RdSwitch.oomd val d h = ltb-disabled_by val d.files.report_seq h.reported
  shown-switch RdSwitch.oomd_work_mem_pressure val d h =
      ltb-disabled_by val d.files.report_seq h.reported
  shown-switch RdSwitch.oomd_work_senpai val d h = refl
  shown-switch RdSwitch.oomd_sys_mem_pressure val d h =
      ltb-disabled_by val d.files.report_seq h.reported
  shown-switch RdSwitch.oomd_sys_senpai val d h = refl

  after_switch-IsSynced :
      (sw : RdSwitch) (val : Bool) (d : Demo F) → IsSynced d → IsSynced (after_switch sw val d)
  unfolding apply_and_refresh apply refresh
  after_switch-IsSynced sw val d h = record {
    hashd = refl;
    iocost = refl;
    hashd_lt = h.hashd_lt;
    iocost_lt = h.iocost_lt;
    reported = h.reported;
  }

  exec_toggle-eq :
      (sw : RdSwitch) (val : Bool) (d : Demo F)
      → exec_toggle ops fops (RdCmd.toggle sw) val d ≡ ok (after_switch sw val d)
  unfolding exec_toggle exec_cmd exec_one_cmd exec_match
  exec_toggle-eq sw true d = refl
  exec_toggle-eq sw false d = refl

  -- A box that is checked or not runs its command and is shown that way afterwards, after the
  -- commands are written to the files of the agent and read from these again. The box for the
  -- benchmarks that are needed stays as it was. The state agrees with the files and there was a
  -- report, which holds again afterwards.
  pub exec_toggle-shown :
      (sw : RdSwitch) (val : Bool) (d : Demo F)
      → IsSynced d
      → (d' : Demo F) × (exec_toggle ops fops (RdCmd.toggle sw) val d ≡ ok d')
        × (shown sw d'.cs ≡ chosen sw val d.cs)
        × IsSynced d'
  exec_toggle-shown sw val d h = (
    after_switch sw val d,
    exec_toggle-eq sw val d,
    shown-switch sw val d h,
    after_switch-IsSynced sw val d h,
  )
