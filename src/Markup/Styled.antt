-- ===== src/Markup/Styled.antt =====
-- The text of a paragraph: `markup_text_next_tok` and `parse_markup_text` of
-- resctl-demo/src/doc/markup_rd.rs, and `format_markup_tags` of resctl-demo/src/doc.rs.
--
-- A styled text is the list of its parts. The palette is a parameter: of a style there is the number
-- of stars, or the colour that a tag has, and whether it is underlined.
use resctl_demo.Prelude.{
  ℕ, suc, ◌-◌, List, [], ◌∷◌, ◌++◌, Option, none, some, Bool, true, false, not, ◌&&◌, ◌||◌, ◌==◌,
  ltb, leb, if◌then◌else◌, length, zero,
}
use resctl_demo.Prelude.Outcome.{Outcome, ok, ◌>>=◌}
use resctl_demo.Text.{Text, text}
use resctl_demo.Markup.{same}
use resctl_demo.Markup.Bytes.{is_whitespace, split_at, strip_prefix}

pub data Style : Type 0 where
  plain : Style
  active : Style
  alert : Style
  -- of a token
  starred : ℕ → Bool → Style

abbrev pub StyledString : Type 0
StyledString = List (Text × Style)

-- The characters from the start that have `p`, and the rest.
unfoldable pub span : (ℕ → Bool) → Text → Text × Text
span p [] = ([], [])
span p (c ∷ cs) = let rest = span p cs in if p c then (c ∷ rest.0, rest.1) else ([], c ∷ cs)

-- A tag after its first character.
unfoldable pub span_tag : Text → Text × Text
span_tag [] = ([], [])
span_tag (c ∷ cs) =
    let rest = span_tag cs in
    if c == b'%'
    then (c ∷ [], cs)
    else if not (c == b'*') && not (c == b'_') && not (is_whitespace c)
    then (c ∷ rest.0, rest.1)
    else ([], c ∷ cs)

abbrev pub push_char : ℕ → Text × Text → Text × Text
push_char c (tok, rest) = (c ∷ tok, rest)

abbrev pub next_is_space : Text → Bool
next_is_space [] = false
next_is_space (c ∷ cs) = is_whitespace c

-- A token and what comes after it.
unfoldable pub markup_text_next_tok : Text → Text × Text
unfolding span span_tag
markup_text_next_tok [] = ([], [])
markup_text_next_tok (c ∷ cs) =
    if c == b'*' || c == b'_'
    then push_char c (span (λ d. d == c) cs)
    else if c == b'%'
    then push_char c (span_tag cs)
    else push_char c (span (λ d. not (d == b'*') && not (d == b'_') && not (d == b'%')) cs)

-- What the files of the agent say, and the numbers of the two sizes as text.
pub record AgentView : Type 0 where
  pub satisfied : Text → Bool
  pub nr_missed : ℕ
  pub hashd_seq : ℕ
  pub iocost_seq : ℕ
  pub show_num : ℕ → Text
  pub balloon_size : Text
  pub hashd_mem_size : Text

abbrev sysreqs : List Text
sysreqs =
    text "Controllers"
    ∷ text "Freezer"
    ∷ text "MemCgRecursiveProt"
    ∷ text "MemShadowInodeProt"
    ∷ text "IoCost"
    ∷ text "IoCostVer"
    ∷ text "NoOtherIoControllers"
    ∷ text "AnonBalance"
    ∷ text "Btrfs"
    ∷ text "BtrfsAsyncDiscard"
    ∷ text "NoCompositeStorage"
    ∷ text "IoSched"
    ∷ text "NoWbt"
    ∷ text "SwapOnScratch"
    ∷ text "Swap"
    ∷ text "Oomd"
    ∷ text "NoSysOomd"
    ∷ text "HostCriticalServices"
    ∷ text "DepsBase"
    ∷ text "DepsIoCostCoefGen"
    ∷ text "DepsSide"
    ∷ text "DepsLinuxBuild"
    ∷ []

abbrev is_one_of : Text → List Text → Bool
is_one_of name [] = false
is_one_of name (n ∷ ns) = same n name || is_one_of name ns

abbrev unless : Bool → StyledString → Option StyledString
unless b s = if b then none else some s

module _ (view : AgentView) where
  abbrev as_it_is : Text → Option StyledString
  as_it_is tag = some ((text "%" ++ tag ++ text "%", Style.plain) ∷ [])

  unfoldable pub format_sysreq : Text → Text → Option StyledString
  format_sysreq tag req =
      if is_one_of req sysreqs
      then some ((tag, if view.satisfied req then Style.active else Style.alert) ∷ [])
      else as_it_is tag

  unfoldable pub format_named : Text → Option StyledString
  format_named tag =
      let hashd = ltb 0 view.hashd_seq in
      let iocost = ltb 0 view.iocost_seq in
      let empty = ([], Style.plain) ∷ [] in
      if same tag (text "MissedSysReqs")
      then unless (not (ltb 0 view.nr_missed)) ((view.show_num view.nr_missed, Style.plain) ∷ [])
      else if same tag (text "NeedBenchHashd")
      then unless hashd empty
      else if same tag (text "NeedBenchIoCost")
      then unless iocost empty
      else if same tag (text "NeedBench")
      then unless (hashd && iocost) empty
      else if same tag (text "HaveBench")
      then unless (not (hashd && iocost)) empty
      else if same tag (text "BenchBalloonSize")
      then some ((view.balloon_size, Style.plain) ∷ [])
      else if same tag (text "HashdMemSize")
      then some ((view.hashd_mem_size, Style.plain) ∷ [])
      else as_it_is tag

  -- A text for a tag, or that its paragraph is left out.
  unfoldable pub format_markup_tags : Text → Option StyledString
  unfolding format_sysreq format_named
  format_markup_tags tag = elim (strip_prefix (text "SysReq::") tag) [
    | some req ↦ format_sysreq tag req
    | none ↦ format_named tag
  ]

-- What a token does: it is text, or it changes the style, or it stands for a tag.
pub data Effect : Type 0 where
  stars : ℕ → Effect
  under : Bool → Effect
  tagged : Text → Effect
  literal : Effect

abbrev last_of : ℕ → Text → ℕ
last_of c [] = c
last_of c (d ∷ ds) = last_of d ds

-- `tok[1..len - 1]`, where `len` is the number of characters
unfoldable pub tag_of : Text → ℕ → Outcome Text
tag_of cs n = split_at n cs >>= λ (tag, _). ok tag

unfoldable pub effect : ℕ → Bool → ℕ → Text → Bool → Outcome Effect
unfolding tag_of
effect nr_stars underline c cs space =
    let len = suc (length cs) in
    if c == b'*'
    then ok (
        if (nr_stars == 0) && leb len 3 && not space
        then Effect.stars len
        else if ltb 0 nr_stars && (nr_stars == len)
        then Effect.stars 0
        else Effect.literal)
    else if c == b'_'
    then ok (
        if not underline && (len == 3) && not space
        then Effect.under true
        else if underline && (len == 3)
        then Effect.under false
        else Effect.literal)
    else if (c == b'%') && ltb 2 len && (last_of c cs == b'%')
    then (tag_of cs (len - 2) >>= λ tag. ok (Effect.tagged tag))
    else ok Effect.literal

-- The tokens, each with whether a space comes after it, while fuel lasts.
unfoldable pub tokens : ℕ → Text → List (Text × Bool)
unfolding markup_text_next_tok
tokens zero s = []
tokens (suc n) s =
    let next = markup_text_next_tok s in
    let rest = tokens n next.1 in
    elim next.0 [ [] ↦ [] | c ∷ cs ↦ (c ∷ cs, next_is_space next.1) ∷ rest ]

module _ (view : AgentView) where
  unfoldable pub style_tokens :
      List (Text × Bool) → ℕ → Bool → StyledString → Outcome (Option StyledString)
  unfolding effect format_markup_tags
  style_tokens [] nr_stars underline parsed = ok (some parsed)
  style_tokens (([], space) ∷ toks) nr_stars underline parsed = ok (some parsed)
  style_tokens ((c ∷ cs, space) ∷ toks) nr_stars underline parsed =
      effect nr_stars underline c cs space >>= λ e. elim e [
        | Effect.stars n ↦ style_tokens toks n underline parsed
        | Effect.under b ↦ style_tokens toks nr_stars b parsed
        | Effect.tagged tag ↦ elim (format_markup_tags view tag) [
          | none ↦ ok none
          | some styled ↦ style_tokens toks nr_stars underline (parsed ++ styled)
        ]
        | Effect.literal ↦
            style_tokens toks nr_stars underline
              (parsed ++ (c ∷ cs, Style.starred nr_stars underline) ∷ [])
      ]

  -- Each token takes a character, so the length is enough.
  unfoldable pub parse_markup_text : Text → Outcome (Option StyledString)
  unfolding tokens style_tokens
  parse_markup_text input = style_tokens (tokens (length input) input) 0 false []
