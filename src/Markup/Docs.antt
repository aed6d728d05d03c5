-- ===== src/Markup/Docs.antt =====
-- A document from its paragraphs: the second part of `RdDoc::parse` in
-- resctl-demo/src/doc/markup_rd.rs. The sets of switches and knobs are lists here.
use resctl_demo.Prelude.{
  List, [], ◌∷◌, ◌++◌, Option, none, some, Bool, true, false, not, ◌&&◌, ◌==◌, if◌then◌else◌,
}
use resctl_demo.Prelude.Outcome.{Outcome, ok, panicked, ◌>>=◌}
use resctl_demo.Text.{Text}
use resctl_demo.Markup.{RdSwitch, RdKnob, RdCmd, RdCmds, KnobValues}
use resctl_demo.Markup.Bytes.{split_at}
use resctl_demo.Markup.Cmds.{RdCmdParsed, is_none, parse}
use resctl_demo.Markup.Styled.{StyledString, AgentView, format_markup_tags, parse_markup_text}
use resctl_demo.Markup.Lines.{Line, is_cmd, paragraphs}

pub data RdPara (F : Type 0) : Type 0 where
  words : Option Text → StyledString → RdPara F
  prompt : Text → RdCmd F → RdPara F

pub record RdDoc (F : Type 0) : Type 0 where
  pub doc_id : Text
  pub desc : Text
  pub pre_cmds : List (RdCmd F)
  pub body : List (RdPara F)
  pub post_cmds : List (RdCmd F)
  pub toggles : List RdSwitch
  pub knobs : List RdKnob

-- The variables of the loop.
pub record Reading (F : Type 0) : Type 0 where
  pub doc : RdDoc F
  pub cur_group : Option (RdCmds F)
  pub cur_group_prompt : Option Text
  pub cur_group_visible : Bool

abbrev pub push_cmd : {F : Type 0} → RdCmds F → RdCmd F → RdCmds F
push_cmd RdCmds.nil c = RdCmds.cons c RdCmds.nil
push_cmd (RdCmds.cons d ds) c = RdCmds.cons d (push_cmd ds c)

abbrev or_empty : Option Text → Text
or_empty none = []
or_empty (some t) = t

module _ {F : Type 0} where
  abbrev pub push_para : RdPara F → RdDoc F → RdDoc F
  push_para p doc = record doc { body = doc.body ++ p ∷ [] }

  -- The switches and knobs that the document shows.
  unfoldable pub note_shown : RdCmd F → RdDoc F → RdDoc F
  note_shown (RdCmd.toggle sw) doc = record doc { toggles = doc.toggles ++ sw ∷ [] }
  note_shown (RdCmd.knob k v) doc = record doc { knobs = doc.knobs ++ k ∷ [] }
  note_shown cmd doc = doc

  unfoldable pub add_prompt : Text → RdCmd F → RdDoc F → RdDoc F
  unfolding note_shown
  add_prompt p cmd doc = push_para (RdPara.prompt p cmd) (note_shown cmd doc)

  abbrev pub add_silent : Bool → RdCmd F → RdDoc F → RdDoc F
  add_silent true cmd doc = record doc { post_cmds = doc.post_cmds ++ cmd ∷ [] }
  add_silent false cmd doc = record doc { pre_cmds = doc.pre_cmds ++ cmd ∷ [] }

  -- A command outside of a group that is not the start of one.
  unfoldable pub add_cmd : RdCmdParsed F → RdDoc F → RdDoc F
  unfolding add_prompt
  add_cmd parsed doc = elim parsed.cmd [
    | RdCmd.id i ↦ record doc { doc_id = i; desc = or_empty parsed.prompt }
    | _ ↦ elim parsed.prompt [
      | some p ↦ add_prompt p parsed.cmd doc
      | none ↦ add_silent parsed.post parsed.cmd doc
    ]
  ]

  abbrev pub is_group : RdCmd F → Bool
  is_group (RdCmd.group cmds) = true
  is_group cmd = false

  unfoldable pub open_group : Option Text → Bool → Reading F → Option (Reading F)
  open_group none visible r = none
  open_group (some p) visible r = some (record r {
    cur_group = some RdCmds.nil;
    cur_group_prompt = some p;
    cur_group_visible = visible;
  })

  unfoldable pub close_group : Option Text → RdCmds F → Reading F → Outcome (Option (Reading F))
  close_group (some p) cmds r = ok none
  close_group none cmds r = elim r.cur_group_prompt [
    | none ↦ panicked
    | some gprompt ↦ ok (
        some (record r {
          doc =
              if r.cur_group_visible
              then push_para (RdPara.prompt gprompt (RdCmd.group cmds)) r.doc
              else r.doc;
          cur_group = none;
          cur_group_prompt = none;
        }))
  ]

module _ {F : Type 0} where
  abbrev pub add_words : Option Text × Option StyledString → Reading F → Reading F
  add_words (indent, none) r = r
  add_words (indent, some t) r = record r { doc = push_para (RdPara.words indent t) r.doc }

  abbrev pub start : Reading F
  start = record {
    doc = record {
      doc_id = [];
      desc = [];
      pre_cmds = [];
      body = [];
      post_cmds = [];
      toggles = [];
      knobs = [];
    };
    cur_group = none;
    cur_group_prompt = none;
    cur_group_visible = true;
  }

module _ (view : AgentView) where
  abbrev pub is_visible : Option Text → Bool
  is_visible none = true
  is_visible (some cond) = not (is_none (format_markup_tags view cond))

  -- The indent and the text of a paragraph.
  unfoldable pub text_of : Line → Outcome (Option Text × Option StyledString)
  text_of (indent, line) =
      if indent == 0
      then (parse_markup_text view line >>= λ t. ok (none, t))
      else (split_at indent line >>= λ (start, rest).
          parse_markup_text view rest >>= λ t. ok (some start, t))

module _ {F : Type 0} (vals : KnobValues F) where
  -- What a group may hold.
  unfoldable pub is_valid : RdCmd F → Bool
  is_valid (RdCmd.on sw) = true
  is_valid (RdCmd.off sw) = true
  is_valid (RdCmd.graph g) = true
  is_valid (RdCmd.reset rs) = true
  is_valid (RdCmd.jump j) = true
  is_valid (RdCmd.knob k v) = vals.le vals.zero v
  is_valid cmd = false

  unfoldable pub add_to_group : RdCmdParsed F → RdCmds F → Reading F → Option (Reading F)
  unfolding is_valid
  add_to_group parsed cmds r =
      if is_valid parsed.cmd && is_none parsed.cond && is_none parsed.prompt
      then some (record r { cur_group = some (push_cmd cmds parsed.cmd) })
      else none

module _ {F : Type 0} (vals : KnobValues F) (view : AgentView) where
  unfoldable pub add_outside : RdCmdParsed F → Reading F → Option (Reading F)
  unfolding open_group add_cmd
  add_outside parsed r =
      if is_group parsed.cmd
      then open_group parsed.prompt (is_visible view parsed.cond) r
      else if is_visible view parsed.cond
      then some (record r { doc = add_cmd parsed r.doc })
      else some r

  unfoldable pub add_parsed : RdCmdParsed F → Reading F → Outcome (Option (Reading F))
  unfolding add_outside close_group add_to_group
  add_parsed parsed r = elim r.cur_group [
    | none ↦ ok (add_outside parsed r)
    | some cmds ↦
        if is_group parsed.cmd
        then close_group parsed.prompt cmds r
        else ok (add_to_group vals parsed cmds r)
  ]

  unfoldable pub add_line : Line → Reading F → Outcome (Option (Reading F))
  unfolding add_parsed text_of
  add_line line r =
      if (line.0 == 0) && is_cmd line.1
      then (parse vals line.1 >>= λ res. elim res [
        | none ↦ ok none
        | some parsed ↦ add_parsed parsed r
      ])
      else (text_of view line >>= λ t. ok (some (add_words t r)))

  -- The document of a group that is not closed lacks the group.
  unfoldable pub add_lines : List Line → Reading F → Outcome (Option (RdDoc F))
  unfolding add_line
  add_lines [] r = ok (some r.doc)
  add_lines (line ∷ lines) r =
      add_line line r >>= λ res. elim res [ none ↦ ok none | some r ↦ add_lines lines r ]

  unfoldable pub parse_doc : List Text → Outcome (Option (RdDoc F))
  unfolding add_lines
  parse_doc lines = add_lines (paragraphs lines) start
