-- ===== src/Markup/Grouped.antt =====
-- Groups of commands in `RdDoc::parse` of resctl-demo/src/doc/markup_rd.rs.
use mathlib.Core.List.{append-nil}
use resctl_demo.Prelude.{
  if-both, ◌≡◌, refl, sym, ap, Option, none, some, Bool, true, false, ◌&&◌, arith, inl, inr,
  Bool-cases, Option-cases, if◌then◌else◌,
}
use resctl_demo.Prelude.Outcome.{Outcome, ok, panicked}
use resctl_demo.Text.{Text}
use resctl_demo.Markup.{RdCmd, RdCmds, KnobValues}
use resctl_demo.Markup.Cmds.{RdCmdParsed, is_none}
use resctl_demo.Markup.Commands.{IfSome, IsComplete}
use resctl_demo.Markup.Styled.{AgentView}
use resctl_demo.Markup.Runnable.{AllRun, push_cmd-AllRun, IsRunnable, add_para, add_cmd-IsRunnable}
use resctl_demo.Markup.Docs.{
  RdPara, Reading, push_para, is_group, open_group, close_group, is_valid, add_to_group,
  add_outside, add_parsed, is_visible,
}

module _ {F : Type 0} (vals : KnobValues F) (neg : vals.lt vals.minus_one vals.zero ≡ true) where
  -- The commands of an open group run, and the group has a prompt.
  abbrev pub IsGroup : Option (RdCmds F) → Option Text → Type 0
  IsGroup none prompt = Unit
  IsGroup (some cmds) prompt = AllRun vals cmds × (is_none prompt ≡ false)

  pub record IsReading (r : Reading F) : Type 0 where
    pub doc : IsRunnable vals r.doc
    pub group : IsGroup r.cur_group r.cur_group_prompt

  open_group-IsReading :
      (prompt : Option Text) (visible : Bool) (r : Reading F)
      → IsReading r
      → IfSome IsReading (open_group prompt visible r)
  unfolding open_group
  open_group-IsReading none visible r h = tt
  open_group-IsReading (some p) visible r h = record { doc = h.doc; group = (tt, refl) }

  abbrev pub Closes : Outcome (Option (Reading F)) → Type 0
  Closes panicked = ⊥
  Closes (ok o) = IfSome IsReading o

  close_group-Closes :
      (prompt : Option Text) (cmds : RdCmds F) (r : Reading F)
      → IsReading r
      → IsGroup (some cmds) r.cur_group_prompt
      → Closes (close_group prompt cmds r)
  unfolding close_group
  close_group-Closes (some p) cmds r h g = tt
  close_group-Closes none cmds r h (runs, has) = elim (Option-cases r.cur_group_prompt) [
    | inl e ↦ absurd (ground (arith, has, ap is_none e))
    | inr (p, e) ↦ rw e (record {
      doc =
          if-both (IsRunnable vals) r.cur_group_visible _ _
            (add_para vals (RdPara.prompt p (RdCmd.group cmds)) r.doc
              (push_para (RdPara.prompt p (RdCmd.group cmds)) r.doc) h.doc runs refl refl refl
              (sym (append-nil r.doc.toggles)) (sym (append-nil r.doc.knobs)))
            h.doc;
      group = tt;
    })
  ]

  add_to_group-IsReading :
      (parsed : RdCmdParsed F) (cmds : RdCmds F) (r : Reading F)
      → IsReading r
      → IsGroup (some cmds) r.cur_group_prompt
      → IfSome IsReading (add_to_group vals parsed cmds r)
  unfolding add_to_group
  add_to_group-IsReading parsed cmds r h (runs, has) =
      elim (Bool-cases (is_valid vals parsed.cmd && is_none parsed.cond && is_none parsed.prompt)) [
        | inl e ↦ rw e (record {
          doc = h.doc;
          group = (push_cmd-AllRun vals cmds parsed.cmd runs (ground (arith, e)), has);
        })
        | inr e ↦ rw e tt
      ]

  add_outside-IsReading :
      (view : AgentView) (parsed : RdCmdParsed F) (r : Reading F)
      → IsReading r
      → IsComplete vals parsed
      → IfSome IsReading (add_outside vals view parsed r)
  unfolding add_outside
  add_outside-IsReading view parsed r h (read, complete) = elim (Bool-cases (is_group parsed.cmd)) [
    | inl e ↦ rw e (open_group-IsReading parsed.prompt (is_visible view parsed.cond) r h)
    | inr e ↦ elim (Bool-cases (is_visible view parsed.cond)) [
      | inl v ↦
          rw (e, v)
            (record {
              doc =
                  add_cmd-IsRunnable vals parsed.cmd parsed.cond parsed.prompt parsed.post r.doc neg
                    h.doc read complete e;
              group = h.group;
            })
      | inr v ↦ rw (e, v) h
    ]
  ]

  pub add_parsed-Closes :
      (view : AgentView) (parsed : RdCmdParsed F) (r : Reading F)
      → IsReading r
      → IsComplete vals parsed
      → Closes (add_parsed vals view parsed r)
  unfolding add_parsed
  add_parsed-Closes view parsed r h c = by_group r.cur_group h.group
    where
      by_group :
          (o : Option (RdCmds F))
          → IsGroup o r.cur_group_prompt
          → Closes (elim o [
            | none ↦ ok (add_outside vals view parsed r)
            | some cmds ↦
                if is_group parsed.cmd
                then close_group parsed.prompt cmds r
                else ok (add_to_group vals parsed cmds r)
          ])
      by_group none g = add_outside-IsReading view parsed r h c
      by_group (some cmds) g =
          if-both Closes (is_group parsed.cmd) _ _ (close_group-Closes parsed.prompt cmds r h g)
            (add_to_group-IsReading parsed cmds r h g)
