-- ===== src/Markup/Runnable.antt =====
-- The documents that resctl-demo/src/doc/markup_rd.rs makes.
use mathlib.Core.List.{append_assoc, append-nil}
use resctl_demo.Prelude.{
  ◌∙◌, ◌≡◌, refl, sym, ap, ap₂, subst, List, [], ◌∷◌, ◌++◌, Option, none, some, Bool, true, false,
  not, ◌&&◌, arith, All, All-append, inl, inr,
}
use resctl_demo.Text.{Text}
use resctl_demo.Markup.{RdSwitch, RdKnob, RdCmd, RdCmds, KnobValues}
use resctl_demo.Markup.Cmds.{is_none, is_complete}
use resctl_demo.Markup.Commands.{IsRead}
use resctl_demo.Markup.Docs.{
  RdPara, RdDoc, push_cmd, note_shown, add_prompt, add_silent, add_cmd, is_group, is_valid,
}

module _ {F : Type 0} (vals : KnobValues F) where
  -- A command that runs: it switches, sets a knob to a value, shows a graph, resets or jumps.
  abbrev pub Runs : RdCmd F → Type 0
  Runs cmd = is_valid vals cmd ≡ true

  abbrev pub AllRun : RdCmds F → Type 0
  AllRun RdCmds.nil = Unit
  AllRun (RdCmds.cons c cs) = Runs c × AllRun cs

  pub push_cmd-AllRun : (cs : RdCmds F) (c : RdCmd F) → AllRun cs → Runs c → AllRun (push_cmd cs c)
  push_cmd-AllRun RdCmds.nil c h k = (k, tt)
  push_cmd-AllRun (RdCmds.cons d ds) c (h, hs) k = (h, push_cmd-AllRun ds c hs k)

  -- A command of a prompt: of a group all commands run, and the name of a document is none.
  abbrev pub Shows : RdCmd F → Type 0
  Shows (RdCmd.id i) = ⊥
  Shows (RdCmd.group cmds) = AllRun cmds
  Shows cmd = Unit

  abbrev pub ShowsPara : RdPara F → Type 0
  ShowsPara (RdPara.words indent t) = Unit
  ShowsPara (RdPara.prompt p cmd) = Shows cmd

  abbrev toggle_of : RdPara F → List RdSwitch
  toggle_of (RdPara.prompt p (RdCmd.toggle sw)) = sw ∷ []
  toggle_of p = []

  abbrev knob_of : RdPara F → List RdKnob
  knob_of (RdPara.prompt p (RdCmd.knob k v)) = k ∷ []
  knob_of p = []

  abbrev pub toggles_of : List (RdPara F) → List RdSwitch
  toggles_of [] = []
  toggles_of (p ∷ body) = toggle_of p ++ toggles_of body

  abbrev pub knobs_of : List (RdPara F) → List RdKnob
  knobs_of [] = []
  knobs_of (p ∷ body) = knob_of p ++ knobs_of body

  pub record IsRunnable (doc : RdDoc F) : Type 0 where
    pub pre : All Runs doc.pre_cmds
    pub post : All Runs doc.post_cmds
    pub paras : All ShowsPara doc.body
    pub shown : doc.toggles ≡ toggles_of doc.body
    pub adjusted : doc.knobs ≡ knobs_of doc.body

  toggles_of-append :
      (ps qs : List (RdPara F)) → toggles_of (ps ++ qs) ≡ toggles_of ps ++ toggles_of qs
  toggles_of-append [] qs = refl
  toggles_of-append (p ∷ ps) qs =
      ap (λ t. toggle_of p ++ t) (toggles_of-append ps qs)
      ∙ sym (append_assoc (toggle_of p) (toggles_of ps) (toggles_of qs))

  knobs_of-append : (ps qs : List (RdPara F)) → knobs_of (ps ++ qs) ≡ knobs_of ps ++ knobs_of qs
  knobs_of-append [] qs = refl
  knobs_of-append (p ∷ ps) qs =
      ap (λ t. knob_of p ++ t) (knobs_of-append ps qs)
      ∙ sym (append_assoc (knob_of p) (knobs_of ps) (knobs_of qs))

  -- The name of a document does not matter.
  pub add_para :
      (p : RdPara F) (doc doc' : RdDoc F)
      → IsRunnable doc
      → ShowsPara p
      → doc'.pre_cmds ≡ doc.pre_cmds
      → doc'.post_cmds ≡ doc.post_cmds
      → doc'.body ≡ doc.body ++ p ∷ []
      → doc'.toggles ≡ doc.toggles ++ toggle_of p
      → doc'.knobs ≡ doc.knobs ++ knob_of p
      → IsRunnable doc'
  add_para p doc doc' h s a b c d e = record {
    pre = subst (All Runs) (sym a) h.pre;
    post = subst (All Runs) (sym b) h.post;
    paras = subst (All ShowsPara) (sym c) (All-append ShowsPara doc.body (p ∷ []) h.paras (s, tt));
    shown =
        d
        ∙ ap₂ (λ l r. l ++ r) h.shown (sym (append-nil (toggle_of p)))
        ∙ sym (toggles_of-append doc.body (p ∷ []))
        ∙ ap toggles_of (sym c);
    adjusted =
        e
        ∙ ap₂ (λ l r. l ++ r) h.adjusted (sym (append-nil (knob_of p)))
        ∙ sym (knobs_of-append doc.body (p ∷ []))
        ∙ ap knobs_of (sym c);
  }

  add_prompt-IsRunnable :
      (p : Text) (cmd : RdCmd F) (doc : RdDoc F)
      → IsRunnable doc
      → Shows cmd
      → IsRunnable (add_prompt p cmd doc)
  unfolding add_prompt note_shown
  add_prompt-IsRunnable p (RdCmd.id i) doc h s = absurd s
  add_prompt-IsRunnable p (RdCmd.on sw) doc h s =
      add_para (RdPara.prompt p (RdCmd.on sw)) doc _ h s refl refl refl
        (sym (append-nil doc.toggles)) (sym (append-nil doc.knobs))
  add_prompt-IsRunnable p (RdCmd.off sw) doc h s =
      add_para (RdPara.prompt p (RdCmd.off sw)) doc _ h s refl refl refl
        (sym (append-nil doc.toggles)) (sym (append-nil doc.knobs))
  add_prompt-IsRunnable p (RdCmd.toggle sw) doc h s =
      add_para (RdPara.prompt p (RdCmd.toggle sw)) doc _ h s refl refl refl refl
        (sym (append-nil doc.knobs))
  add_prompt-IsRunnable p (RdCmd.knob k v) doc h s =
      add_para (RdPara.prompt p (RdCmd.knob k v)) doc _ h s refl refl refl
        (sym (append-nil doc.toggles)) refl
  add_prompt-IsRunnable p (RdCmd.graph g) doc h s =
      add_para (RdPara.prompt p (RdCmd.graph g)) doc _ h s refl refl refl
        (sym (append-nil doc.toggles)) (sym (append-nil doc.knobs))
  add_prompt-IsRunnable p (RdCmd.reset rs) doc h s =
      add_para (RdPara.prompt p (RdCmd.reset rs)) doc _ h s refl refl refl
        (sym (append-nil doc.toggles)) (sym (append-nil doc.knobs))
  add_prompt-IsRunnable p (RdCmd.jump j) doc h s =
      add_para (RdPara.prompt p (RdCmd.jump j)) doc _ h s refl refl refl
        (sym (append-nil doc.toggles)) (sym (append-nil doc.knobs))
  add_prompt-IsRunnable p (RdCmd.group cmds) doc h s =
      add_para (RdPara.prompt p (RdCmd.group cmds)) doc _ h s refl refl refl
        (sym (append-nil doc.toggles)) (sym (append-nil doc.knobs))

  add_silent-IsRunnable :
      (post : Bool) (cmd : RdCmd F) (doc : RdDoc F)
      → IsRunnable doc
      → Runs cmd
      → IsRunnable (add_silent post cmd doc)
  add_silent-IsRunnable true cmd doc h r = record {
    pre = h.pre;
    post = All-append Runs doc.post_cmds (cmd ∷ []) h.post (r, tt);
    paras = h.paras;
    shown = h.shown;
    adjusted = h.adjusted;
  }
  add_silent-IsRunnable false cmd doc h r = record {
    pre = All-append Runs doc.pre_cmds (cmd ∷ []) h.pre (r, tt);
    post = h.post;
    paras = h.paras;
    shown = h.shown;
    adjusted = h.adjusted;
  }

  add-IsRunnable :
      (cmd : RdCmd F) (prompt : Option Text) (post : Bool) (doc : RdDoc F)
      → IsRunnable doc
      → Shows cmd
      → (prompt ≡ none → Runs cmd)
      → IsRunnable (elim prompt [ some p ↦ add_prompt p cmd doc | none ↦ add_silent post cmd doc ])
  add-IsRunnable cmd none post doc h s r = add_silent-IsRunnable post cmd doc h (r refl)
  add-IsRunnable cmd (some p) post doc h s r = add_prompt-IsRunnable p cmd doc h s

  knob-Runs :
      (k : RdKnob) (v : F) (prompt : Option Text)
      → vals.lt vals.minus_one vals.zero ≡ true
      → IsRead vals (RdCmd.knob k v)
      → is_complete vals (RdCmd.knob k v) prompt ≡ true
      → prompt ≡ none
      → Runs (RdCmd.knob k v)
  unfolding is_complete is_valid
  knob-Runs k v prompt neg (inl e) c n =
      absurd (ground (arith, neg, ap₂ (λ v p. not (vals.lt v vals.zero && is_none p)) e n, c))
  knob-Runs k v prompt neg (inr e) c n = e

  pub add_cmd-IsRunnable :
      (cmd : RdCmd F) (cond prompt : Option Text) (post : Bool) (doc : RdDoc F)
      → vals.lt vals.minus_one vals.zero ≡ true
      → IsRunnable doc
      → IsRead vals cmd
      → is_complete vals cmd prompt ≡ true
      → is_group cmd ≡ false
      → IsRunnable (add_cmd (record { cmd = cmd; cond = cond; prompt = prompt; post = post }) doc)
  unfolding add_cmd is_complete is_valid
  add_cmd-IsRunnable (RdCmd.id i) cond prompt post doc neg h r c g = record {
    pre = h.pre;
    post = h.post;
    paras = h.paras;
    shown = h.shown;
    adjusted = h.adjusted;
  }
  add_cmd-IsRunnable (RdCmd.on sw) cond prompt post doc neg h r c g =
      add-IsRunnable (RdCmd.on sw) prompt post doc h tt (λ _. refl)
  add_cmd-IsRunnable (RdCmd.off sw) cond prompt post doc neg h r c g =
      add-IsRunnable (RdCmd.off sw) prompt post doc h tt (λ _. refl)
  add_cmd-IsRunnable (RdCmd.toggle sw) cond prompt post doc neg h r c g =
      add-IsRunnable (RdCmd.toggle sw) prompt post doc h tt (λ n. ground (arith, c, n))
  add_cmd-IsRunnable (RdCmd.knob k v) cond prompt post doc neg h r c g =
      add-IsRunnable (RdCmd.knob k v) prompt post doc h tt (knob-Runs k v prompt neg r c)
  add_cmd-IsRunnable (RdCmd.graph n) cond prompt post doc neg h r c g =
      add-IsRunnable (RdCmd.graph n) prompt post doc h tt (λ _. refl)
  add_cmd-IsRunnable (RdCmd.reset rs) cond prompt post doc neg h r c g =
      add-IsRunnable (RdCmd.reset rs) prompt post doc h tt (λ _. refl)
  add_cmd-IsRunnable (RdCmd.jump j) cond prompt post doc neg h r c g =
      add-IsRunnable (RdCmd.jump j) prompt post doc h tt (λ _. refl)
  add_cmd-IsRunnable (RdCmd.group cmds) cond prompt post doc neg h r c g =
      absurd (ground (arith, g))
