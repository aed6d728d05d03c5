-- ===== src/Markup/Cmds.antt =====
-- The parsing of one command: `RdCmd::parse` and `RdCmdParsed::parse` of
-- resctl-demo/src/doc/markup_rd.rs.
use resctl_demo.Prelude.{
  List, [], ◌∷◌, Option, none, some, Bool, true, false, not, ◌&&◌, ◌||◌, if◌then◌else◌, reverse,
}
use resctl_demo.Prelude.Outcome.{Outcome, ok, panicked, ◌>>=◌}
use resctl_demo.Text.{Text, text}
use resctl_demo.Text.Split.{splitn_two}
use resctl_demo.Markup.{RdSwitch, RdCmd, RdCmds, KnobValues, same, lookup}
use resctl_demo.Markup.Names.{switches, knobs, resets}
use resctl_demo.Markup.Bytes.{split_whitespace, strip_prefix}

abbrev pub pre_cmd_prefix : Text
pre_cmd_prefix = text "%% "

abbrev pub post_cmd_prefix : Text
post_cmd_prefix = text "$$ "

-- A load has a tag, and unless it is turned off an id.
abbrev load_target : (Text → Text → RdSwitch) → Text → List Text → Option RdSwitch
load_target load verb (tag ∷ []) = if same verb (text "off") then some (load tag []) else none
load_target load verb (tag ∷ i ∷ []) = if same verb (text "off") then none else some (load tag i)
load_target load verb args = none

abbrev pub no_args {ℓ} : {A : Type ℓ} → A → List Text → Option A
no_args a [] = some a
no_args a (arg ∷ args) = none

-- What `on`, `off` and `toggle` are for.
unfoldable pub target : Text → List Text → Option RdSwitch
target verb [] = none
target verb (name ∷ args) =
    if same name (text "sideload")
    then load_target RdSwitch.sideload verb args
    else if same name (text "sysload")
    then load_target RdSwitch.sysload verb args
    else elim (lookup name switches) [ none ↦ none | some sw ↦ no_args sw args ]

abbrev pub map_some {ℓ κ} : {A : Type ℓ} {B : Type κ} → (A → B) → Option A → Option B
map_some f none = none
map_some f (some a) = some (f a)

module _ {F : Type 0} (vals : KnobValues F) where
  -- A value is missing or between zero and one.
  unfoldable pub knob_val : List Text → Option F
  knob_val [] = some vals.minus_one
  knob_val (arg ∷ []) = elim (vals.parse arg) [
    | none ↦ none
    | some v ↦ if vals.le vals.zero v && vals.le v vals.one then some v else none
  ]
  knob_val (arg ∷ arg' ∷ args) = none

  unfoldable pub parse_knob : List Text → Option (RdCmd F)
  unfolding knob_val
  parse_knob [] = none
  parse_knob (name ∷ args) = elim (knob_val args) [
    | none ↦ none
    | some v ↦ map_some (λ k. RdCmd.knob k v) (lookup name knobs)
  ]

  abbrev pub one_arg : (Text → Option (RdCmd F)) → List Text → Option (RdCmd F)
  one_arg f (arg ∷ []) = f arg
  one_arg f args = none

  unfoldable pub parse_graph : List Text → Option (RdCmd F)
  parse_graph [] = some (RdCmd.graph [])
  parse_graph (name ∷ []) = some (RdCmd.graph name)
  parse_graph (name ∷ name' ∷ args) = none

  -- The command by its first argument.
  unfoldable pub by_verb : Text → List Text → Option (RdCmd F)
  unfolding target parse_knob parse_graph
  by_verb verb args =
      if same verb (text "id")
      then one_arg (λ arg. some (RdCmd.id arg)) args
      else if same verb (text "on")
      then map_some RdCmd.on (target verb args)
      else if same verb (text "off")
      then map_some RdCmd.off (target verb args)
      else if same verb (text "toggle")
      then map_some RdCmd.toggle (target verb args)
      else if same verb (text "knob")
      then parse_knob args
      else if same verb (text "graph")
      then parse_graph args
      else if same verb (text "reset")
      then one_arg (λ arg. map_some RdCmd.reset (lookup arg resets)) args
      else if same verb (text "jump")
      then one_arg (λ arg. some (RdCmd.jump arg)) args
      else if same verb (text "(") || same verb (text ")")
      then no_args (RdCmd.group RdCmds.nil) args
      else none

  -- Whether the text starts and ends with `%`, and what is between these, which panics when they
  -- are the same one.
  abbrev cond_of : Text → Outcome (Option Text)
  cond_of arg = elim (strip_prefix (text "%") arg) [
    | none ↦ ok none
    | some rest ↦ elim (strip_prefix (text "%") (reverse arg)) [
      | none ↦ ok none
      | some _ ↦ elim (reverse rest) [ [] ↦ panicked | _ ∷ between ↦ ok (some (reverse between)) ]
    ]
  ]

  -- The last of two or more arguments may be a condition.
  unfoldable pub split_cond : List Text → Outcome (List Text × Option Text)
  unfolding strip_prefix
  split_cond args = elim (reverse args) [
    | [] ↦ ok (args, none)
    | last ∷ [] ↦ ok (args, none)
    | last ∷ before ∷ befores ↦ cond_of last >>= λ cond. elim cond [
      | none ↦ ok (args, none)
      | some c ↦ ok (reverse (before ∷ befores), some c)
    ]
  ]

  -- A line without a command has no first argument.
  unfoldable pub parse_args : List Text × Option Text → Outcome (Option (RdCmd F × Option Text))
  unfolding by_verb
  parse_args ([], cond) = panicked
  parse_args (verb ∷ args, cond) = ok (map_some (λ cmd. (cmd, cond)) (by_verb verb args))

  unfoldable pub parse_cmd : Text → Outcome (Option (RdCmd F × Option Text))
  unfolding split_cond parse_args split_whitespace
  parse_cmd input = split_cond (split_whitespace input) >>= parse_args

pub record RdCmdParsed (F : Type 0) : Type 0 where
  pub cmd : RdCmd F
  pub cond : Option Text
  pub prompt : Option Text
  pub post : Bool

abbrev pub is_none {ℓ} : {A : Type ℓ} → Option A → Bool
is_none none = true
is_none (some a) = false

abbrev trim_one : Text → Text
trim_one [] = []
trim_one (c ∷ cs) = elim (strip_prefix (text " ") (c ∷ cs)) [ none ↦ c ∷ cs | some rest ↦ rest ]

abbrev pub prompt_of : List Text → Option Text
prompt_of (cmd ∷ prompt ∷ parts) = some (trim_one prompt)
prompt_of parts = none

abbrev pub cmd_of : List Text → Text
cmd_of [] = []
cmd_of (cmd ∷ parts) = cmd

module _ {F : Type 0} (vals : KnobValues F) where
  -- What needs a prompt has one.
  unfoldable pub is_complete : RdCmd F → Option Text → Bool
  is_complete (RdCmd.knob k v) prompt = not (vals.lt v vals.zero && is_none prompt)
  is_complete (RdCmd.toggle sw) prompt = not (is_none prompt)
  is_complete cmd prompt = true

  -- A line after its prefix.
  unfoldable pub parse_rest : Bool → Text → Outcome (Option (RdCmdParsed F))
  unfolding parse_cmd is_complete splitn_two
  parse_rest post input =
      let parts = splitn_two b':' input in
      let prompt = prompt_of parts in
      parse_cmd vals (cmd_of parts) >>= λ res. elim res [
        | none ↦ ok none
        | some (cmd, cond) ↦
            if is_complete cmd prompt
            then ok (some (record { cmd = cmd; cond = cond; prompt = prompt; post = post }))
            else ok none
      ]

  unfoldable pub parse : Text → Outcome (Option (RdCmdParsed F))
  unfolding parse_rest strip_prefix
  parse line = elim (strip_prefix pre_cmd_prefix line) [
    | some input ↦ parse_rest false input
    | none ↦ elim (strip_prefix post_cmd_prefix line) [
      | some input ↦ parse_rest true input
      | none ↦ ok none
    ]
  ]
