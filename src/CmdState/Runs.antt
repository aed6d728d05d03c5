-- ===== src/CmdState/Runs.antt =====
-- The commands of the documents that are read run: resctl-demo/src/doc.rs with
-- resctl-demo/src/doc/markup_rd.rs.
use resctl_demo.Prelude.{
  ◌≡◌, inl, inr, refl, sym, ap, subst, List, [], ◌∷◌, none, some, Bool, true, false, arith, All,
  ◌||◌, Option-cases,
}
use resctl_demo.Prelude.Outcome.{Outcome, ok, panicked, ◌>>=◌}
use resctl_demo.Markup.{RdCmd, RdCmds, KnobValues}
use resctl_demo.Markup.Docs.{is_valid}
use resctl_demo.Markup.Runnable.{Runs, AllRun}
use resctl_demo.CmdState.{KnobOps}
use resctl_demo.CmdState.Files.{FileOps}
use resctl_demo.CmdState.Run.{
  Demo, find_tag, exec_match, exec_one_cmd, exec_cmd, exec_group, exec_post, exec_pre,
  apply_and_refresh,
}

module _ {F : Type 0} where
  abbrev pub has_graph : RdCmd F → Bool
  has_graph (RdCmd.graph name) = elim (find_tag name) [ none ↦ false | some tag ↦ true ]
  has_graph cmd = true

  -- The graphs of the commands are known.
  abbrev pub HaveGraphs : List (RdCmd F) → Type 0
  HaveGraphs cmds = All (λ cmd. has_graph cmd ≡ true) cmds

  abbrev pub GroupHasGraphs : RdCmds F → Type 0
  GroupHasGraphs RdCmds.nil = Unit
  GroupHasGraphs (RdCmds.cons cmd cmds) = (has_graph cmd ≡ true) × GroupHasGraphs cmds

  abbrev pub is_jump : RdCmd F → Bool
  is_jump (RdCmd.jump target) = true
  is_jump cmd = false

  abbrev pub any_jump : List (RdCmd F) → Bool
  any_jump [] = false
  any_jump (cmd ∷ cmds) = is_jump cmd || any_jump cmds

  abbrev pub group_jumps : RdCmds F → Bool
  group_jumps RdCmds.nil = false
  group_jumps (RdCmds.cons cmd cmds) = is_jump cmd || group_jumps cmds

-- A run that panics exactly if it has a jump.
abbrev pub Ends : {A : Type 0} → Bool → Outcome A → Type 0
Ends {A} true o = o ≡ panicked
Ends {A} false o = (a : A) × (o ≡ ok a)

Ends-then :
    {A B : Type 0} (b c : Bool) (o : Outcome A) (f : A → Outcome B)
    → Ends b o
    → ((a : A) → Ends c (f a))
    → Ends (b || c) (o >>= f)
Ends-then true c o f e h = ap (λ o. o >>= f) e
Ends-then false c o f (a, e) h = subst (λ o. Ends c (o >>= f)) (sym e) (h a)

module _ {F : Type 0} (vals : KnobValues F) (ops : KnobOps F) (fops : FileOps F) where
  exec_one_cmd-Ends :
      (cmd : RdCmd F) (d : Demo F)
      → Runs vals cmd
      → has_graph cmd ≡ true
      → Ends (is_jump cmd) (exec_one_cmd ops fops cmd d)
  unfolding exec_one_cmd exec_match is_valid
  exec_one_cmd-Ends (RdCmd.id i) d r g = absurd (ground (arith, r))
  exec_one_cmd-Ends (RdCmd.on sw) d r g = (_, refl)
  exec_one_cmd-Ends (RdCmd.off sw) d r g = (_, refl)
  exec_one_cmd-Ends (RdCmd.toggle sw) d r g = absurd (ground (arith, r))
  exec_one_cmd-Ends (RdCmd.knob k v) d r g = (_, refl)
  exec_one_cmd-Ends (RdCmd.graph name) d r g = elim (Option-cases (find_tag name)) [
    | inl e ↦ absurd (ground (arith, g, e))
    | inr (tag, e) ↦ (
      apply_and_refresh ops fops (record d { main_graph = tag }),
      ap
          (λ t.
            (elim t [ none ↦ panicked | some tag ↦ ok (record d { main_graph = tag }) ]) >>= λ d.
            ok (apply_and_refresh ops fops d))
          e,
    )
  ]
  exec_one_cmd-Ends (RdCmd.reset rs) d r g = (_, refl)
  exec_one_cmd-Ends (RdCmd.jump target) d r g = refl
  exec_one_cmd-Ends (RdCmd.group cmds) d r g = absurd (ground (arith, r))

  -- A command that runs is no group.
  exec_cmd-one :
      (cmd : RdCmd F) (d : Demo F)
      → Runs vals cmd
      → exec_cmd ops fops cmd d ≡ exec_one_cmd ops fops cmd d
  unfolding exec_cmd is_valid
  exec_cmd-one (RdCmd.group cmds) d r = absurd (ground (arith, r))
  exec_cmd-one (RdCmd.id i) d r = refl
  exec_cmd-one (RdCmd.on sw) d r = refl
  exec_cmd-one (RdCmd.off sw) d r = refl
  exec_cmd-one (RdCmd.toggle sw) d r = refl
  exec_cmd-one (RdCmd.knob k v) d r = refl
  exec_cmd-one (RdCmd.graph name) d r = refl
  exec_cmd-one (RdCmd.reset rs) d r = refl
  exec_cmd-one (RdCmd.jump target) d r = refl

  pub exec_cmd-Ends :
      (cmd : RdCmd F) (d : Demo F)
      → Runs vals cmd
      → has_graph cmd ≡ true
      → Ends (is_jump cmd) (exec_cmd ops fops cmd d)
  exec_cmd-Ends cmd d r g =
      subst (Ends (is_jump cmd)) (sym (exec_cmd-one cmd d r)) (exec_one_cmd-Ends cmd d r g)

  pub exec_post-Ends :
      (cmds : List (RdCmd F)) (d : Demo F)
      → All (Runs vals) cmds
      → HaveGraphs cmds
      → Ends (any_jump cmds) (exec_post ops fops cmds d)
  unfolding exec_post
  exec_post-Ends [] d r g = (d, refl)
  exec_post-Ends (cmd ∷ cmds) d (r, rs) (g, gs) =
      Ends-then (is_jump cmd) (any_jump cmds) (exec_cmd ops fops cmd d) (exec_post ops fops cmds)
        (exec_cmd-Ends cmd d r g) (λ d. exec_post-Ends cmds d rs gs)

  pub exec_group-Ends :
      (cmds : RdCmds F) (d : Demo F)
      → AllRun vals cmds
      → GroupHasGraphs cmds
      → Ends (group_jumps cmds) (exec_group ops fops cmds d)
  unfolding exec_group
  exec_group-Ends RdCmds.nil d r g = (d, refl)
  exec_group-Ends (RdCmds.cons cmd cmds) d (r, rs) (g, gs) =
      Ends-then (is_jump cmd) (group_jumps cmds) (exec_one_cmd ops fops cmd d)
        (exec_group ops fops cmds) (exec_one_cmd-Ends cmd d r g) (λ d. exec_group-Ends cmds d rs gs)

  pub exec_pre_other :
      (cmd : RdCmd F) (cmds : List (RdCmd F)) (d : Demo F)
      → is_jump cmd ≡ false
      → exec_pre ops fops (cmd ∷ cmds) d
        ≡ (exec_cmd ops fops cmd d >>= λ d. exec_pre ops fops cmds d)
  unfolding exec_pre
  exec_pre_other (RdCmd.group cmds) ds d j = refl
  exec_pre_other (RdCmd.id i) cmds d j = refl
  exec_pre_other (RdCmd.on sw) cmds d j = refl
  exec_pre_other (RdCmd.off sw) cmds d j = refl
  exec_pre_other (RdCmd.toggle sw) cmds d j = refl
  exec_pre_other (RdCmd.knob k v) cmds d j = refl
  exec_pre_other (RdCmd.graph name) cmds d j = refl
  exec_pre_other (RdCmd.reset rs) cmds d j = refl
  exec_pre_other (RdCmd.jump target) cmds d j = absurd (ground (arith, j))
