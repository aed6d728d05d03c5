-- ===== src/JobSpec/Parsed.antt =====
-- What a parsed spec looks like.
use resctl_demo.Prelude.{
  suc, ◌+◌, ◌≡◌, refl, List, [], ◌∷◌, none, some, arith, All, All-append, length, length-append,
  count, max, ◌∙◌, Bool-cases, inl, inr, ◌==◌,
}
use resctl_demo.Text.{Text, text_ord, cmp_text}
use resctl_demo.Text.Split.{split, length-split}
use resctl_demo.BTreeMap.{get, remove, get-remove}
use resctl_demo.BTreeMap.Sorted.{IsSorted, insert-IsSorted, remove-IsSorted}
use resctl_demo.JobSpec.{
  PropSet, JobProps, JobSpec, add_token, parse_tokens, parse_propset, Groups, add_group,
  parse_groups, or_default, spec_of, parse_pieces, parse_job_spec, id_key, passive_key, colon,
  comma,
}

add_token-IsSorted : (tok : Text) (m : PropSet) → IsSorted m → IsSorted (add_token tok m)
unfolding add_token
add_token-IsSorted tok m s = elim (Bool-cases (length tok == 0)) [
  | inl e ↦ rw e s
  | inr e ↦ rw e (insert-IsSorted _ _ m s)
]

parse_tokens-IsSorted :
    (toks : List Text) (m : PropSet) → IsSorted m → IsSorted (parse_tokens toks m)
unfolding parse_tokens
parse_tokens-IsSorted [] m s = s
parse_tokens-IsSorted (tok ∷ toks) m s =
    parse_tokens-IsSorted toks (add_token tok m) (add_token-IsSorted tok m s)

pub parse_propset-IsSorted : (input : Text) → IsSorted (parse_propset input)
unfolding parse_propset
parse_propset-IsSorted input = parse_tokens-IsSorted (split comma input) [] tt

-- A group of a spec: a map, without the two keys that are the spec's own.
abbrev pub IsGroup : PropSet → Type 0
IsGroup m = IsSorted m × (get id_key m ≡ none) × (get passive_key m ≡ none)

stripped-IsGroup : (m : PropSet) → IsSorted m → IsGroup (remove passive_key (remove id_key m))
unfolding cmp_text
stripped-IsGroup m s = (
  remove-IsSorted passive_key _ (remove-IsSorted id_key m s),
  get-remove passive_key id_key (remove id_key m) ∙ get-remove id_key id_key m,
  get-remove passive_key passive_key (remove id_key m),
)

parse_groups-IsGroup :
    (groups : List Text) (gs : Groups)
    → All IsGroup gs.props
    → All IsGroup (parse_groups groups gs).props
unfolding parse_groups add_group
parse_groups-IsGroup [] gs h = h
parse_groups-IsGroup (group ∷ groups) gs h = parse_groups-IsGroup groups (add_group group gs) (
    All-append IsGroup gs.props _ h
      (stripped-IsGroup (parse_propset group) (parse_propset-IsSorted group), tt))

length-parse_groups :
    (groups : List Text) (gs : Groups)
    → length (parse_groups groups gs).props ≡ length gs.props + length groups
unfolding parse_groups add_group
length-parse_groups [] gs = omega arith
length-parse_groups (group ∷ groups) gs = omega (
  arith,
  length-parse_groups groups (add_group group gs),
  length-append gs.props (remove passive_key (remove id_key (parse_propset group)) ∷ []),
)

or_default-IsGroup :
    (props : JobProps)
    → All IsGroup props
    → All IsGroup (or_default props) × (length (or_default props) ≡ max 1 (length props))
unfolding or_default get
or_default-IsGroup [] h = (((tt, refl, refl), tt), refl)
or_default-IsGroup (group ∷ props) h = (h, omega arith)

pub record IsParsed (spec : Text) (js : JobSpec) : Type 0 where
  -- one group for each colon, and at least one
  pub groups : length js.props ≡ max 1 (count colon spec)
  pub props : All IsGroup js.props

pieces-IsParsed :
    (spec : Text) (pieces : List Text)
    → length pieces ≡ suc (count colon spec)
    → (js : JobSpec) × (parse_pieces pieces ≡ some js) × IsParsed spec js
unfolding parse_pieces spec_of
pieces-IsParsed spec [] h = absurd (omega arith)
pieces-IsParsed spec (kind ∷ groups) h =
    let start : Groups = record { id = none; passive = none; props = [] } in
    let (group, long) =
      or_default-IsGroup (parse_groups groups start).props (parse_groups-IsGroup groups start tt) in
    (
      spec_of kind (parse_groups groups start),
      refl,
      record { groups = omega (arith, length-parse_groups groups start); props = group },
    )

-- Every text is a job spec: no error is ever returned. It has a property group for each colon and
-- at least one, and each group is a sorted map without the keys `id` and `passive`.
pub parse_job_spec-IsParsed :
    (spec : Text) → (js : JobSpec) × (parse_job_spec spec ≡ some js) × IsParsed spec js
unfolding parse_job_spec
parse_job_spec-IsParsed spec = pieces-IsParsed spec (split colon spec) (length-split colon spec)
