-- ===== src/Markup/Bytes.antt =====
-- What the parser of documents uses of Rust's strings.
use resctl_demo.Prelude.{
  ℕ, ◌+◌, ◌-◌, List, [], ◌∷◌, Option, none, some, Bool, true, false, ◌&&◌, ◌||◌, ◌==◌, ltb, leb,
  if◌then◌else◌, reverse,
}
use resctl_demo.Prelude.Outcome.{Outcome, ok, panicked, ◌>>=◌}
use resctl_demo.Text.{Text}
use resctl_demo.Text.Split.{push_first}

-- `char::is_whitespace`
unfoldable pub is_whitespace : ℕ → Bool
is_whitespace c =
    leb 9 c && leb c 13
    || c == 32
    || c == 133
    || c == 160
    || c == 5760
    || leb 8192 c && leb c 8202
    || c == 8232
    || c == 8233
    || c == 8239
    || c == 8287
    || c == 12288

unfoldable pub is_digit : ℕ → Bool
is_digit c = leb b'0' c && leb c b'9'

-- `char::len_utf8`
unfoldable pub len_utf8 : ℕ → ℕ
len_utf8 c = if ltb c 128 then 1 else if ltb c 2048 then 2 else if ltb c 65536 then 3 else 4

-- `str::len`
unfoldable pub byte_len : Text → ℕ
unfolding len_utf8
byte_len [] = 0
byte_len (c ∷ cs) = len_utf8 c + byte_len cs

-- `str::split_at`, which panics inside a character and past the end.
unfoldable pub split_at : ℕ → Text → Outcome (Text × Text)
unfolding len_utf8
split_at n [] = if n == 0 then ok ([], []) else panicked
split_at n (c ∷ cs) =
    let rest = split_at (n - len_utf8 c) cs in
    if n == 0
    then ok ([], c ∷ cs)
    else if ltb n (len_utf8 c)
    then panicked
    else (rest >>= λ (before, after). ok (c ∷ before, after))

abbrev pub is_empty : Text → Bool
is_empty [] = true
is_empty (c ∷ cs) = false

-- The pieces between the characters with `p`.
unfoldable pub split_where : (ℕ → Bool) → Text → List Text
unfolding push_first
split_where p [] = [] ∷ []
split_where p (c ∷ cs) = let rest = split_where p cs in if p c then [] ∷ rest else push_first c rest

unfoldable pub not_empty : List Text → List Text
not_empty [] = []
not_empty ([] ∷ ts) = not_empty ts
not_empty ((c ∷ cs) ∷ ts) = (c ∷ cs) ∷ not_empty ts

unfoldable pub split_whitespace : Text → List Text
unfolding split_where not_empty is_whitespace
split_whitespace s = not_empty (split_where is_whitespace s)

unfoldable pub strip_prefix : Text → Text → Option Text
strip_prefix [] s = some s
strip_prefix (p ∷ ps) [] = none
strip_prefix (p ∷ ps) (c ∷ cs) = if p == c then strip_prefix ps cs else none

abbrev pub is_prefix : Text → Text → Bool
is_prefix p s = elim (strip_prefix p s) [ none ↦ false | some rest ↦ true ]

abbrev pub ends_with : Text → Text → Bool
ends_with p s = is_prefix (reverse p) (reverse s)

unfoldable pub trim_start_matches : (ℕ → Bool) → Text → Text
trim_start_matches p [] = []
trim_start_matches p (c ∷ cs) = if p c then trim_start_matches p cs else c ∷ cs

unfoldable pub trim_start : Text → Text
unfolding trim_start_matches is_whitespace
trim_start s = trim_start_matches is_whitespace s

unfoldable pub trim_end : Text → Text
unfolding trim_start
trim_end s = reverse (trim_start (reverse s))
