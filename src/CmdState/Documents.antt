-- ===== src/CmdState/Documents.antt =====
-- What becomes of the commands of a document that is read: `RdDoc::parse` of
-- resctl-demo/src/doc/markup_rd.rs with `show_doc` and `exec_cmd` of resctl-demo/src/doc.rs.
use resctl_demo.Prelude.{
  ◌≡◌, inl, inr, refl, sym, subst, List, [], ◌∷◌, Option, none, some, true, false, arith, All,
  Bool-cases, ◌∙◌,
}
use resctl_demo.Prelude.Outcome.{Outcome, ok, panicked, ◌>>=◌}
use resctl_demo.Text.{Text}
use resctl_demo.Markup.{RdCmd, KnobValues}
use resctl_demo.Markup.Docs.{RdDoc, RdPara, parse_doc}
use resctl_demo.Markup.Runnable.{Runs}
use resctl_demo.CmdState.{KnobOps}
use resctl_demo.CmdState.Files.{FileOps}
use resctl_demo.CmdState.Run.{Demo, exec_cmd, exec_post, exec_pre}
use resctl_demo.Markup.Styled.{AgentView}
use resctl_demo.Markup.Lines.{paragraphs}
use resctl_demo.Markup.Runnable.{ShowsPara}
use resctl_demo.Markup.Sound.{Reads, parse_doc-Reads}
use resctl_demo.CmdState.Runs.{
  is_jump, HaveGraphs, GroupHasGraphs, any_jump, group_jumps, Ends, exec_post-Ends, exec_group-Ends,
  exec_cmd-Ends, exec_pre_other,
}

module _ {F : Type 0} where
  abbrev pub first_jump : List (RdCmd F) → Option Text
  first_jump [] = none
  first_jump (RdCmd.jump target ∷ cmds) = some target
  first_jump (cmd ∷ cmds) = first_jump cmds

  first_jump-skip :
      (cmd : RdCmd F) (cmds : List (RdCmd F))
      → is_jump cmd ≡ false
      → first_jump (cmd ∷ cmds) ≡ first_jump cmds
  first_jump-skip (RdCmd.id i) cmds j = refl
  first_jump-skip (RdCmd.on sw) cmds j = refl
  first_jump-skip (RdCmd.off sw) cmds j = refl
  first_jump-skip (RdCmd.toggle sw) cmds j = refl
  first_jump-skip (RdCmd.knob k v) cmds j = refl
  first_jump-skip (RdCmd.graph name) cmds j = refl
  first_jump-skip (RdCmd.reset rs) cmds j = refl
  first_jump-skip (RdCmd.group g) cmds j = refl
  first_jump-skip (RdCmd.jump target) cmds j = absurd (ground (arith, j))

  abbrev pub ParaHasGraphs : RdPara F → Type 0
  ParaHasGraphs (RdPara.prompt p (RdCmd.group cmds)) = GroupHasGraphs cmds
  ParaHasGraphs p = Unit

  -- The graphs are known of all commands that run outside of prompts or in groups.
  pub record HasGraphs (doc : RdDoc F) : Type 0 where
    pub pre : HaveGraphs doc.pre_cmds
    pub post : HaveGraphs doc.post_cmds
    pub groups : All ParaHasGraphs doc.body

module _ {F : Type 0} (ops : KnobOps F) (fops : FileOps F) where
  abbrev pub PreRuns : List (RdCmd F) → Outcome (Demo F × Option Text) → Type 0
  PreRuns cmds panicked = ⊥
  PreRuns cmds (ok (d, target)) = target ≡ first_jump cmds

  abbrev pub GroupEnds : Demo F → RdPara F → Type 0
  GroupEnds d (RdPara.prompt p (RdCmd.group cmds)) =
      Ends (group_jumps cmds) (exec_cmd ops fops (RdCmd.group cmds) d)
  GroupEnds d p = Unit

  pub record DocEnds (doc : RdDoc F) (d : Demo F) : Type 0 where
    pub pre : PreRuns doc.pre_cmds (exec_pre ops fops doc.pre_cmds d)
    pub post : Ends (any_jump doc.post_cmds) (exec_post ops fops doc.post_cmds d)
    pub groups : All (GroupEnds d) doc.body

module _ {F : Type 0} (vals : KnobValues F) (ops : KnobOps F) (fops : FileOps F) where
  later-PreRuns :
      (cmd : RdCmd F) (cmds : List (RdCmd F)) (o : Outcome (Demo F × Option Text))
      → is_jump cmd ≡ false
      → PreRuns ops fops cmds o
      → PreRuns ops fops (cmd ∷ cmds) o
  later-PreRuns cmd cmds panicked j h = h
  later-PreRuns cmd cmds (ok (d, target)) j h = h ∙ sym (first_jump-skip cmd cmds j)

  then-PreRuns :
      (cmd : RdCmd F) (cmds : List (RdCmd F)) (o : Outcome (Demo F))
      → is_jump cmd ≡ false
      → Ends false o
      → ((d : Demo F) → PreRuns ops fops cmds (exec_pre ops fops cmds d))
      → PreRuns ops fops (cmd ∷ cmds) (o >>= λ d. exec_pre ops fops cmds d)
  then-PreRuns cmd cmds o j (d, e) h =
      subst (λ o. PreRuns ops fops (cmd ∷ cmds) (o >>= λ d. exec_pre ops fops cmds d)) (sym e)
        (later-PreRuns cmd cmds (exec_pre ops fops cmds d) j (h d))

  jump-PreRuns :
      (cmd : RdCmd F) (cmds : List (RdCmd F)) (d : Demo F)
      → is_jump cmd ≡ true
      → PreRuns ops fops (cmd ∷ cmds) (exec_pre ops fops (cmd ∷ cmds) d)
  unfolding exec_pre
  jump-PreRuns (RdCmd.jump target) cmds d j = refl
  jump-PreRuns (RdCmd.id i) cmds d j = absurd (ground (arith, j))
  jump-PreRuns (RdCmd.on sw) cmds d j = absurd (ground (arith, j))
  jump-PreRuns (RdCmd.off sw) cmds d j = absurd (ground (arith, j))
  jump-PreRuns (RdCmd.toggle sw) cmds d j = absurd (ground (arith, j))
  jump-PreRuns (RdCmd.knob k v) cmds d j = absurd (ground (arith, j))
  jump-PreRuns (RdCmd.graph name) cmds d j = absurd (ground (arith, j))
  jump-PreRuns (RdCmd.reset rs) cmds d j = absurd (ground (arith, j))
  jump-PreRuns (RdCmd.group g) cmds d j = absurd (ground (arith, j))

  exec_pre-PreRuns :
      (cmds : List (RdCmd F)) (d : Demo F)
      → All (Runs vals) cmds
      → HaveGraphs cmds
      → PreRuns ops fops cmds (exec_pre ops fops cmds d)
  unfolding exec_pre
  exec_pre-PreRuns [] d r g = refl
  exec_pre-PreRuns (cmd ∷ cmds) d (r, rs) (g, gs) = elim (Bool-cases (is_jump cmd)) [
    | inl e ↦ jump-PreRuns cmd cmds d e
    | inr e ↦
        subst (PreRuns ops fops (cmd ∷ cmds)) (sym (exec_pre_other vals ops fops cmd cmds d e)) (
          then-PreRuns cmd cmds (exec_cmd ops fops cmd d) e
            (subst (λ b. Ends b (exec_cmd ops fops cmd d)) e
              (exec_cmd-Ends vals ops fops cmd d r g))
            (λ d. exec_pre-PreRuns cmds d rs gs))
  ]

  group-GroupEnds :
      (d : Demo F) (p : RdPara F) → ShowsPara vals p → ParaHasGraphs p → GroupEnds ops fops d p
  unfolding exec_cmd
  group-GroupEnds d (RdPara.words indent t) s g = tt
  group-GroupEnds d (RdPara.prompt p (RdCmd.group cmds)) s g =
      exec_group-Ends vals ops fops cmds d s g
  group-GroupEnds d (RdPara.prompt p (RdCmd.id i)) s g = tt
  group-GroupEnds d (RdPara.prompt p (RdCmd.on sw)) s g = tt
  group-GroupEnds d (RdPara.prompt p (RdCmd.off sw)) s g = tt
  group-GroupEnds d (RdPara.prompt p (RdCmd.toggle sw)) s g = tt
  group-GroupEnds d (RdPara.prompt p (RdCmd.knob k v)) s g = tt
  group-GroupEnds d (RdPara.prompt p (RdCmd.graph name)) s g = tt
  group-GroupEnds d (RdPara.prompt p (RdCmd.reset rs)) s g = tt
  group-GroupEnds d (RdPara.prompt p (RdCmd.jump target)) s g = tt

  groups-End :
      (d : Demo F) (body : List (RdPara F))
      → All (ShowsPara vals) body
      → All ParaHasGraphs body
      → All (GroupEnds ops fops d) body
  groups-End d [] s g = tt
  groups-End d (p ∷ body) (s, ss) (g, gs) = (group-GroupEnds d p s g, groups-End d body ss gs)

  -- The commands of a document that is read run, in any state, if the graphs that they name are
  -- known. Those before it is shown do not panic, and come to the target of their first jump.
  -- Those after it is left panic exactly if one of them is a jump, and so does each group.
  pub parse_doc-DocEnds :
      (view : AgentView) (lines : List Text) (doc : RdDoc F) (d : Demo F)
      → vals.lt vals.minus_one vals.zero ≡ true
      → parse_doc vals view lines ≡ ok (some doc)
      → HasGraphs doc
      → DocEnds ops fops doc d
  parse_doc-DocEnds view lines doc d neg e g =
      let runs =
        subst (Reads vals view (paragraphs lines)) e (parse_doc-Reads vals view neg lines) in
      record {
        pre = exec_pre-PreRuns doc.pre_cmds d runs.pre g.pre;
        post = exec_post-Ends vals ops fops doc.post_cmds d runs.post g.post;
        groups = groups-End d doc.body runs.paras g.groups;
      }
