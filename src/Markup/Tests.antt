-- ===== src/Markup/Tests.antt =====
-- Documents at concrete inputs.
use resctl_demo.Prelude.{ℕ, ◌≡◌, refl, List, [], ◌∷◌, none, some, true, false, leb, ltb, length}
use resctl_demo.Prelude.Outcome.{ok, panicked}
use resctl_demo.Text.{Text, text, cmp_text}
use resctl_demo.Markup.{RdSwitch, RdKnob, RdCmd, RdCmds, KnobValues}
use resctl_demo.Markup.Bytes.{split_at, strip_prefix, trim_end, byte_len, is_digit}
use resctl_demo.Markup.Cmds.{parse}
use resctl_demo.Markup.Styled.{Style, AgentView, parse_markup_text}
use resctl_demo.Markup.Lines.{paragraphs}
use resctl_demo.Markup.Docs.{RdPara, RdDoc, parse_doc}
use resctl_demo.Markup.Sound.{Reads, parse_doc-Reads}

-- Values in percent, and one more; zero stands for less than zero.
abbrev pub values : KnobValues ℕ
values = record {
  zero = 1;
  one = 101;
  minus_one = 0;
  le = leb;
  lt = ltb;
  parse = λ s. some (length s);
}

abbrev pub view : AgentView
view = record {
  satisfied = λ req. true;
  nr_missed = 0;
  hashd_seq = 1;
  iocost_seq = 0;
  show_num = λ n. n ∷ [];
  balloon_size = text "1G";
  hashd_mem_size = text "2G";
}

abbrev pub lines : List Text
lines =
    text "%% id test : Welcome"
    ∷ text "Some text"
    ∷ text "  that goes on"
    ∷ text ""
    ∷ text "%% on bench-hashd"
    ∷ text "%% knob hashd-mem : Memory"
    ∷ text "%% toggle oomd : Toggle oomd"
    ∷ text "%% ( : Group"
    ∷ text "%% off hashd"
    ∷ text "%% )"
    ∷ text "$$ graph CpuUtil"
    ∷ []

abbrev pub doc : RdDoc ℕ
doc = record {
  doc_id = text "test";
  desc = text "Welcome";
  pre_cmds = RdCmd.on RdSwitch.bench_hashd ∷ [];
  body =
      RdPara.words none ((text "Some text that goes on", Style.starred 0 false) ∷ [])
      ∷ RdPara.prompt (text "Memory") (RdCmd.knob RdKnob.hashd_a_mem 0)
      ∷ RdPara.prompt (text "Toggle oomd") (RdCmd.toggle RdSwitch.oomd)
      ∷ RdPara.prompt (text "Group")
          (RdCmd.group (RdCmds.cons (RdCmd.off RdSwitch.hashd_a) RdCmds.nil))
      ∷ [];
  post_cmds = RdCmd.graph (text "CpuUtil") ∷ [];
  toggles = RdSwitch.oomd ∷ [];
  knobs = RdKnob.hashd_a_mem ∷ [];
}

pub lines-doc : parse_doc values view lines ≡ ok (some doc)
unfolding parse_doc paragraphs cmp_text strip_prefix trim_end parse byte_len is_digit
    parse_markup_text
lines-doc = refl

-- A line with a prompt alone has no command to look at.
no_command : parse_doc values view (text "%% : Prompt" ∷ []) ≡ panicked
unfolding parse_doc paragraphs cmp_text strip_prefix trim_end parse byte_len is_digit
    parse_markup_text
no_command = refl

-- The indent of an item without a text is longer than what is left of it.
no_item : parse_doc values view ((text "* ") ∷ []) ≡ panicked
unfolding parse_doc paragraphs cmp_text strip_prefix trim_end parse byte_len is_digit
    parse_markup_text split_at
no_item = refl

parse_doc-Reads_example : Reads values view (paragraphs lines) (parse_doc values view lines)
parse_doc-Reads_example = parse_doc-Reads values view refl lines
