-- ===== src/Markup/Lines.antt =====
-- The paragraphs of a document: the first part of `RdDoc::parse` in
-- resctl-demo/src/doc/markup_rd.rs, from the lines of the file.
use resctl_demo.Prelude.{
  ℕ, ◌+◌, ◌-◌, List, [], ◌∷◌, ◌++◌, Bool, false, not, ◌&&◌, ◌||◌, ◌==◌, ltb, if◌then◌else◌, reverse,
}
use resctl_demo.Text.{Text, text}
use resctl_demo.Markup.{same}
use resctl_demo.Markup.Bytes.{
  is_whitespace, is_digit, byte_len, is_empty, is_prefix, ends_with, trim_start, trim_start_matches,
  trim_end,
}
use resctl_demo.Markup.Cmds.{pre_cmd_prefix, post_cmd_prefix}

-- The indent of a paragraph and its content.
abbrev pub Line : Type 0
Line = ℕ × Text

pub record Collecting : Type 0 where
  pub indent : ℕ
  pub buf : Text
  pub lines : List Line

unfoldable pub flush : Collecting → Collecting
flush s =
    if is_empty s.buf
    then s
    else record { indent = 0; buf = []; lines = s.lines ++ (s.indent, s.buf) ∷ [] }

unfoldable pub push_line : Line → Collecting → Collecting
push_line line s = record s { lines = s.lines ++ line ∷ [] }

unfoldable pub count_first_line_indent : Text → ℕ
count_first_line_indent line =
    let no_spcs = trim_start line in
    let no_nrs = trim_start_matches is_digit no_spcs in
    if is_prefix (text "* ") no_spcs
    then byte_len line - byte_len no_spcs + 2
    else if ltb (byte_len no_nrs) (byte_len no_spcs) && is_prefix (text ". ") no_nrs
    then byte_len line - byte_len no_nrs + 2
    else byte_len line - byte_len no_spcs

-- `\n`, a backslash and the letter, and the character of a line's end
abbrev backslash_n : Text
backslash_n = 92 ∷ b'n' ∷ []

abbrev newline : Text
newline = 10 ∷ []

abbrev last_is : (ℕ → Bool) → Text → Bool
last_is p [] = false
last_is p (c ∷ []) = p c
last_is p (c ∷ d ∷ ds) = last_is p (d ∷ ds)

abbrev drop_last_two : Text → Text
drop_last_two s = elim (reverse s) [ a ∷ b ∷ rest ↦ reverse rest | _ ↦ [] ]

-- The text of a line after that of the lines before it.
unfoldable pub append_line : Text → Text → Text
append_line buf line =
    if ends_with backslash_n line
    then (if is_empty buf || last_is (λ c. c == 10) buf then buf else buf ++ newline)
      ++ trim_end (drop_last_two line)
      ++ newline
    else (if is_empty buf || last_is is_whitespace buf then buf else buf ++ text " ")
      ++ trim_end line

-- The indent of all lines is that of the first one, or else none.
unfoldable pub collect_text : Text → Collecting → Collecting
unfolding count_first_line_indent append_line
collect_text line s =
    let trimmed = trim_start line in
    if is_empty s.buf
    then record s { indent = count_first_line_indent line; buf = append_line s.buf line }
    else record s {
      indent =
          if ltb 0 s.indent && not (s.indent == byte_len line - byte_len trimmed)
          then 0
          else s.indent;
      buf = append_line s.buf trimmed;
    }

unfoldable pub is_cmd : Text → Bool
is_cmd line = is_prefix pre_cmd_prefix line || is_prefix post_cmd_prefix line

unfoldable pub collect_line : Text → Collecting → Collecting
unfolding flush push_line is_cmd collect_text
collect_line line s =
    if same line (text "##") || is_prefix (text "## ") line
    then s
    else if same (trim_end line) (text "%%")
    then push_line (0, []) (flush s)
    else if is_cmd line
    then push_line (0, line) (flush s)
    else if is_empty line
    then flush s
    else collect_text line s

unfoldable pub collect_lines : List Text → Collecting → Collecting
unfolding collect_line
collect_lines [] s = flush s
collect_lines (line ∷ lines) s = collect_lines lines (collect_line line s)

unfoldable pub paragraphs : List Text → List Line
unfolding collect_lines
paragraphs lines = (collect_lines lines (record { indent = 0; buf = []; lines = [] })).lines
