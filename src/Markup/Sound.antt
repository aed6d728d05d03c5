-- ===== src/Markup/Sound.antt =====
-- What the reading of a document keeps: the second part of `RdDoc::parse` in
-- resctl-demo/src/doc/markup_rd.rs.
use mathlib.Core.List.{append-nil}
use resctl_demo.Prelude.{
  ◌≡◌, refl, sym, ap, List, [], ◌∷◌, Option, none, some, Bool, true, false, ◌&&◌, ◌||◌, ◌==◌, arith,
  inl, inr, Bool-cases, if◌then◌else◌,
}
use resctl_demo.Prelude.Outcome.{Outcome, ok, panicked, ◌>>=◌}
use resctl_demo.Text.{Text}
use resctl_demo.Markup.{KnobValues}
use resctl_demo.Markup.Cmds.{RdCmdParsed, parse}
use resctl_demo.Markup.Commands.{IfSome, IfOk, IsComplete, parse-IsComplete}
use resctl_demo.Markup.Styled.{StyledString, AgentView}
use resctl_demo.Markup.Lines.{Line, is_cmd, paragraphs}
use resctl_demo.Markup.Runnable.{IsRunnable, add_para}
use resctl_demo.Markup.Grouped.{IsReading, Closes, add_parsed-Closes}
use resctl_demo.Markup.Docs.{
  RdPara, RdDoc, Reading, push_para, add_parsed, add_words, text_of, add_line, add_lines, start,
  parse_doc,
}

abbrev pub is_panicked {ℓ} : {A : Type ℓ} → Outcome A → Bool
is_panicked panicked = true
is_panicked (ok a) = false

module _ {F : Type 0} (vals : KnobValues F) (view : AgentView) where
  -- Whether a command line alone, or a text alone, makes the program panic.
  abbrev pub line_panics : Line → Bool
  line_panics line =
      if (line.0 == 0) && is_cmd line.1
      then is_panicked (parse vals line.1)
      else is_panicked (text_of view line)

  abbrev pub any_panics : List Line → Bool
  any_panics [] = false
  any_panics (line ∷ lines) = line_panics line || any_panics lines

  -- What comes out of the lines of a document.
  abbrev pub Reads : List Line → Outcome (Option (RdDoc F)) → Type 0
  Reads lines panicked = any_panics lines ≡ true
  Reads lines (ok o) = IfSome (IsRunnable vals) o

module _ {F : Type 0} (vals : KnobValues F) (view : AgentView)
    (neg : vals.lt vals.minus_one vals.zero ≡ true) where
  abbrev Steps : Bool → Outcome (Option (Reading F)) → Type 0
  Steps panics panicked = panics ≡ true
  Steps panics (ok o) = IfSome (IsReading vals neg) o

  Closes-Steps : (b : Bool) (o : Outcome (Option (Reading F))) → Closes vals neg o → Steps b o
  Closes-Steps b (ok o) h = h
  Closes-Steps b panicked h = absurd h

  from_parsed :
      (r : Reading F) (o : Outcome (Option (RdCmdParsed F)))
      → IsReading vals neg r
      → IfOk (IsComplete vals) o
      → Steps
          (is_panicked o)
          (o >>= λ res. elim res [ none ↦ ok none | some parsed ↦ add_parsed vals view parsed r ])
  from_parsed r panicked h c = refl
  from_parsed r (ok none) h c = tt
  from_parsed r (ok (some parsed)) h c =
      Closes-Steps false _ (add_parsed-Closes vals neg view parsed r h c)

  add_words-IsReading :
      (t : Option Text × Option StyledString) (r : Reading F)
      → IsReading vals neg r
      → IsReading vals neg (add_words t r)
  add_words-IsReading (indent, none) r h = h
  add_words-IsReading (indent, some t) r h = record {
    doc =
        add_para vals (RdPara.words indent t) r.doc (push_para (RdPara.words indent t) r.doc) h.doc
          tt refl refl refl (sym (append-nil r.doc.toggles)) (sym (append-nil r.doc.knobs));
    group = h.group;
  }

  from_text :
      (r : Reading F) (o : Outcome (Option Text × Option StyledString))
      → IsReading vals neg r
      → Steps (is_panicked o) (o >>= λ t. ok (some (add_words t r)))
  from_text r panicked h = refl
  from_text r (ok t) h = add_words-IsReading t r h

  add_line-Steps :
      (line : Line) (r : Reading F)
      → IsReading vals neg r
      → Steps (line_panics vals view line) (add_line vals view line r)
  unfolding add_line
  add_line-Steps line r h = elim (Bool-cases ((line.0 == 0) && is_cmd line.1)) [
    | inl e ↦ rw e (from_parsed r (parse vals line.1) h (parse-IsComplete vals line.1))
    | inr e ↦ rw e (from_text r (text_of view line) h)
  ]

  later-Reads :
      (line : Line) (lines : List Line) (o : Outcome (Option (RdDoc F)))
      → Reads vals view lines o
      → Reads vals view (line ∷ lines) o
  later-Reads line lines panicked h = ground (arith, h)
  later-Reads line lines (ok o) h = h

  after_line :
      (line : Line) (lines : List Line) (o : Outcome (Option (Reading F)))
      → Steps (line_panics vals view line) o
      → ((r : Reading F)
          → IsReading vals neg r
          → Reads vals view lines (add_lines vals view lines r))
      → Reads vals view
          (line ∷ lines)
          (o >>= λ res. elim res [ none ↦ ok none | some r ↦ add_lines vals view lines r ])
  after_line line lines panicked s h = ap (λ b. b || any_panics vals view lines) s
  after_line line lines (ok none) s h = tt
  after_line line lines (ok (some r)) s h =
      later-Reads line lines (add_lines vals view lines r) (h r s)

  add_lines-Reads :
      (lines : List Line) (r : Reading F)
      → IsReading vals neg r
      → Reads vals view lines (add_lines vals view lines r)
  unfolding add_lines
  add_lines-Reads [] r h = h.doc
  add_lines-Reads (line ∷ lines) r h =
      after_line line lines (add_line vals view line r) (add_line-Steps line r h)
        (add_lines-Reads lines)

  -- A document that is read has only commands that run outside of its prompts and in its groups:
  -- each switches, sets a knob to a value that is not negative, shows a graph, resets or jumps. No
  -- prompt is for the name of the document. The switches and knobs that the document notes are those
  -- of its prompts, in order. The reading of paragraphs panics only at a paragraph that does so
  -- alone: an open group always has a prompt.
  pub parse_doc-Reads :
      (lines : List Text) → Reads vals view (paragraphs lines) (parse_doc vals view lines)
  unfolding parse_doc
  parse_doc-Reads lines = add_lines-Reads (paragraphs lines) start (record {
    doc = record { pre = tt; post = tt; paras = tt; shown = refl; adjusted = refl };
    group = tt;
  })
