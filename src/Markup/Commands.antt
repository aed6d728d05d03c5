-- ===== src/Markup/Commands.antt =====
-- What is known of a command of a document after it is parsed, from
-- resctl-demo/src/doc/markup_rd.rs.
use resctl_demo.Prelude.{
  ◌≡◌, refl, List, [], ◌∷◌, Option, none, some, Bool, true, false, ◌||◌, arith, ◌⊎◌, inl, inr,
  if-both, Bool-cases, Option-cases, if◌then◌else◌,
}
use resctl_demo.Prelude.Outcome.{Outcome, ok, panicked, ◌>>=◌}
use resctl_demo.Text.{Text, text}
use resctl_demo.Markup.{RdKnob, RdCmd, RdCmds, KnobValues, same, lookup}
use resctl_demo.Text.Split.{splitn_two}
use resctl_demo.Markup.Bytes.{strip_prefix, split_whitespace}
use resctl_demo.Markup.Names.{resets, knobs}
use resctl_demo.Markup.Cmds.{
  RdCmdParsed, knob_val, parse_knob, parse_graph, one_arg, no_args, map_some, target, by_verb,
  parse_args, split_cond, parse_cmd, is_complete, parse_rest, parse, pre_cmd_prefix,
  post_cmd_prefix, cmd_of, prompt_of,
}

-- What there is has `P`.
abbrev pub IfSome {ℓ κ} : {A : Type ℓ} → (A → Type κ) → Option A → Type κ
IfSome P none = Unit
IfSome P (some a) = P a

abbrev pub IfOk {ℓ κ} : {A : Type ℓ} → (A → Type κ) → Outcome (Option A) → Type κ
IfOk P panicked = Unit
IfOk P (ok o) = IfSome P o

map_some-IfSome {ℓ κ μ} :
    {A : Type ℓ} {B : Type κ} (P : B → Type μ) (f : A → B) (o : Option A)
    → ((a : A) → P (f a))
    → IfSome P (map_some f o)
map_some-IfSome P f none h = tt
map_some-IfSome P f (some a) h = h a

module _ {F : Type 0} (vals : KnobValues F) where
  -- The value of a knob is missing or not negative.
  abbrev pub IsRead : RdCmd F → Type 0
  IsRead (RdCmd.knob k v) = (v ≡ vals.minus_one) ⊎ (vals.le vals.zero v ≡ true)
  IsRead cmd = Unit

  knob_val-IsRead :
      (args : List Text)
      → IfSome (λ v. (v ≡ vals.minus_one) ⊎ (vals.le vals.zero v ≡ true)) (knob_val vals args)
  unfolding knob_val
  knob_val-IsRead [] = inl refl
  knob_val-IsRead (arg ∷ []) = ground arith
  knob_val-IsRead (arg ∷ arg' ∷ args) = tt

  with_value-IsRead :
      (o : Option F) (k : Option RdKnob)
      → IfSome (λ v. (v ≡ vals.minus_one) ⊎ (vals.le vals.zero v ≡ true)) o
      → IfSome IsRead (elim o [ none ↦ none | some v ↦ map_some (λ k. RdCmd.knob k v) k ])
  with_value-IsRead none k h = tt
  with_value-IsRead (some v) k h = map_some-IfSome IsRead (λ k. RdCmd.knob k v) k (λ k. h)

  parse_knob-IsRead : (args : List Text) → IfSome IsRead (parse_knob vals args)
  unfolding parse_knob
  parse_knob-IsRead [] = tt
  parse_knob-IsRead (name ∷ args) =
      with_value-IsRead (knob_val vals args) (lookup name knobs) (knob_val-IsRead args)

  one_arg-IsRead :
      (f : Text → Option (RdCmd F)) (args : List Text)
      → ((arg : Text) → IfSome IsRead (f arg))
      → IfSome IsRead (one_arg vals f args)
  one_arg-IsRead f [] h = tt
  one_arg-IsRead f (arg ∷ []) h = h arg
  one_arg-IsRead f (arg ∷ arg' ∷ args) h = tt

  parse_graph-IsRead : (args : List Text) → IfSome IsRead (parse_graph vals args)
  unfolding parse_graph
  parse_graph-IsRead [] = tt
  parse_graph-IsRead (name ∷ []) = tt
  parse_graph-IsRead (name ∷ name' ∷ args) = tt

  no_args-IsRead : (args : List Text) → IfSome IsRead (no_args (RdCmd.group RdCmds.nil) args)
  no_args-IsRead [] = tt
  no_args-IsRead (arg ∷ args) = tt

  by_verb-IsRead : (verb : Text) (args : List Text) → IfSome IsRead (by_verb vals verb args)
  unfolding by_verb
  by_verb-IsRead verb args =
      if-both (IfSome IsRead) (same verb (text "id")) _ _
        (one_arg-IsRead (λ arg. some (RdCmd.id arg)) args (λ arg. tt))
        (if-both (IfSome IsRead) (same verb (text "on")) _ _
          (map_some-IfSome IsRead RdCmd.on (target verb args) (λ sw. tt))
          (if-both (IfSome IsRead) (same verb (text "off")) _ _
            (map_some-IfSome IsRead RdCmd.off (target verb args) (λ sw. tt))
            (if-both (IfSome IsRead) (same verb (text "toggle")) _ _
              (map_some-IfSome IsRead RdCmd.toggle (target verb args) (λ sw. tt))
              (if-both (IfSome IsRead) (same verb (text "knob")) _ _ (parse_knob-IsRead args) (
                if-both (IfSome IsRead) (same verb (text "graph")) _ _ (parse_graph-IsRead args) (
                  if-both (IfSome IsRead) (same verb (text "reset")) _ _
                    (one_arg-IsRead (λ arg. map_some RdCmd.reset (lookup arg resets)) args
                      (λ arg. map_some-IfSome IsRead RdCmd.reset (lookup arg resets) (λ r. tt)))
                    (if-both (IfSome IsRead) (same verb (text "jump")) _ _
                      (one_arg-IsRead (λ arg. some (RdCmd.jump arg)) args (λ arg. tt))
                      (if-both (IfSome IsRead) (same verb (text "(") || same verb (text ")")) _ _
                        (no_args-IsRead args) tt))))))))

  parse_args-IsRead :
      (args : List Text × Option Text) → IfOk (λ p. IsRead p.0) (parse_args vals args)
  unfolding parse_args
  parse_args-IsRead ([], cond) = tt
  parse_args-IsRead (verb ∷ args, cond) =
      with_cond (by_verb vals verb args) (by_verb-IsRead verb args)
    where
      with_cond :
          (o : Option (RdCmd F))
          → IfSome IsRead o
          → IfSome (λ (p : RdCmd F × Option Text). IsRead p.0) (map_some (λ cmd. (cmd, cond)) o)
      with_cond none h = tt
      with_cond (some cmd) h = h

  split_args-IsRead :
      (o : Outcome (List Text × Option Text)) → IfOk (λ p. IsRead p.0) (o >>= parse_args vals)
  split_args-IsRead panicked = tt
  split_args-IsRead (ok args) = parse_args-IsRead args

  -- A parsed command has a prompt where it needs one.
  abbrev pub IsComplete : RdCmdParsed F → Type 0
  IsComplete parsed = IsRead parsed.cmd × (is_complete vals parsed.cmd parsed.prompt ≡ true)

  completed :
      (post : Bool) (prompt : Option Text) (o : Outcome (Option (RdCmd F × Option Text)))
      → IfOk (λ p. IsRead p.0) o
      → IfOk IsComplete (
          o >>= λ res. elim res [
            | none ↦ ok none
            | some (cmd, cond) ↦
                if is_complete vals cmd prompt
                then ok (some (record { cmd = cmd; cond = cond; prompt = prompt; post = post }))
                else ok none
          ])
  completed post prompt panicked h = tt
  completed post prompt (ok none) h = tt
  completed post prompt (ok (some (cmd, cond))) h =
      elim (Bool-cases (is_complete vals cmd prompt)) [ inl e ↦ rw e (h, e) | inr e ↦ rw e tt ]

  parse_rest-IsComplete :
      (post : Bool) (input : Text) → IfOk IsComplete (parse_rest vals post input)
  unfolding parse_rest parse_cmd
  parse_rest-IsComplete post input =
      let parts = splitn_two b':' input in
      completed post (prompt_of parts) (parse_cmd vals (cmd_of parts))
        (split_args-IsRead (split_cond vals (split_whitespace (cmd_of parts))))

  pub parse-IsComplete : (line : Text) → IfOk IsComplete (parse vals line)
  unfolding parse
  parse-IsComplete line = elim (Option-cases (strip_prefix pre_cmd_prefix line)) [
    | inl e ↦ elim (Option-cases (strip_prefix post_cmd_prefix line)) [
      | inl e' ↦ rw (e, e') tt
      | inr (input, e') ↦ rw (e, e') (parse_rest-IsComplete true input)
    ]
    | inr (input, e) ↦ rw e (parse_rest-IsComplete false input)
  ]
