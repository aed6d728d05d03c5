-- ===== src/Version.antt =====
-- Versions: `split_git_version`, `parse_version` and `parse_semver` of rd-util/src/lib.rs. A slice of
-- a version between separators is the pieces there with the separators.
mod Tests
use resctl_demo.Prelude.{
  ℕ, zero, suc, ◌+◌, ◌-◌, ◌*◌, ◌^◌, List, [], ◌∷◌, ◌++◌, Option, none, some, Bool, true, false, not,
  ◌&&◌, ◌||◌, ◌==◌, ltb, leb, if◌then◌else◌, reverse,
}
use resctl_demo.Prelude.Outcome.{Outcome, ok, panicked, ◌>>=◌}
use resctl_demo.Text.{Text, text, cmp_text}
use resctl_demo.Text.Split.{split, splitn_two}
use resctl_demo.BTreeMap.{is_eq, is_some}

abbrev digit : ℕ → Option ℕ
digit c =
    if leb b'0' c && leb c b'9'
    then some (c - b'0')
    else if leb b'a' c && leb c b'z'
    then some (c - b'a' + 10)
    else if leb b'A' c && leb c b'Z'
    then some (c - b'A' + 10)
    else none

-- The value of digits, unless it is too large.
unfoldable digits : ℕ → ℕ → Text → ℕ → Option ℕ
digits radix max_value [] acc = some acc
digits radix max_value (c ∷ cs) acc = elim (digit c) [
  | none ↦ none
  | some d ↦
      let next = acc * radix + d in
      let rest = digits radix max_value cs next in
      if ltb d radix && leb next max_value then rest else none
]

-- `from_str_radix` of an unsigned number
unfoldable pub from_str_radix : ℕ → ℕ → Text → Option ℕ
unfolding digits
from_str_radix radix max_value [] = none
from_str_radix radix max_value (c ∷ []) = digits radix max_value (c ∷ []) 0
from_str_radix radix max_value (c ∷ d ∷ cs) =
    if c == b'+' then digits radix max_value (d ∷ cs) 0 else digits radix max_value (c ∷ d ∷ cs) 0

abbrev parse_u32 : Text → Option ℕ
parse_u32 s = from_str_radix 10 (2 ^ 32 - 1) s

abbrev join : List Text → Text
join [] = []
join (p ∷ []) = p
join (p ∷ q ∷ ps) = p ++ b'-' ∷ join (q ∷ ps)

-- `&comp[0..1] == "g"` and a hexadecimal number after it. The slice panics for an empty piece and
-- for a first character of more than a byte.
abbrev is_git : Text → Outcome Bool
is_git [] = panicked
is_git (c ∷ cs) =
    if ltb c 128 then ok ((c == b'g') && is_some (from_str_radix 16 (2 ^ 64 - 1) cs)) else panicked

abbrev drop_count : List Text → List Text
drop_count [] = []
drop_count (p ∷ []) = p ∷ []
drop_count (p ∷ q ∷ ps) = if is_some (parse_u32 p) then q ∷ ps else p ∷ q ∷ ps

-- The pieces from the last one, with those of the git version so far.
unfoldable split_hash : List Text → List Text → Outcome (List Text × List Text)
split_hash [] git = ok ([], git)
split_hash (p ∷ []) git = ok (p ∷ [], git)
split_hash (p ∷ q ∷ ps) git =
    is_git p >>= λ yes'. ok (if yes' then (drop_count (q ∷ ps), p ∷ git) else (p ∷ q ∷ ps, git))

unfoldable split_dirty : List Text → Outcome (List Text × List Text)
unfolding split_hash
split_dirty [] = ok ([], [])
split_dirty (p ∷ []) = ok (p ∷ [], [])
split_dirty (p ∷ q ∷ ps) =
    if is_eq (cmp_text p (text "dirty"))
    then split_hash (q ∷ ps) (p ∷ [])
    else split_hash (p ∷ q ∷ ps) []

unfoldable pub split_git_version : Text → Outcome (Text × Text)
unfolding split_dirty split
split_git_version ver =
    split_dirty (reverse (split b'-' ver)) >>= λ (rest, git). ok (join (reverse rest), join git)

abbrev at_space : List Text → Text × Text
at_space (rest ∷ tag ∷ parts) = (rest, tag)
at_space (rest ∷ []) = (rest, [])
at_space [] = ([], [])

-- The semantic version, the git version and the tag.
unfoldable pub parse_version : Text → Outcome (Text × (Text × Text))
unfolding split_git_version splitn_two
parse_version ver =
    let (rest, tag) = at_space (splitn_two b' ' ver) in
    split_git_version rest >>= λ (sem, git). ok (sem, (git, tag))

abbrev or_zero : Option ℕ → ℕ
or_zero none = 0
or_zero (some n) = n

abbrev part : ℕ → List Text → ℕ
part n [] = 0
part zero (p ∷ ps) = or_zero (parse_u32 p)
part (suc n) (p ∷ ps) = part n ps

-- A part that is missing or no number is zero.
unfoldable pub parse_semver : Text → ℕ × (ℕ × ℕ)
unfolding split from_str_radix
parse_semver sem = let parts = split b'.' sem in (part 0 parts, (part 1 parts, part 2 parts))
