-- ===== src/JobSpec.antt =====
-- Job specs of resctl-bench: the data of resctl-bench-intf/src/jobspec.rs and the parser of
-- resctl-bench-intf/src/args.rs. `anyhow` errors are `none`.
pub mod Parsed
pub mod Ids
pub mod RoundTrip
pub mod Compatible
mod Tests
use mathlib.Core.Logic.{ite}
use native.Mathlib.Decide.{ℕ_discrete}
use resctl_demo.Prelude.{
  ℕ, List, [], ◌∷◌, ◌++◌, Option, none, some, Bool, true, false, ltb, ◌==◌, if◌then◌else◌, length,
}
use resctl_demo.Prelude.Outcome.{Outcome, ok, panicked}
use resctl_demo.Text.{Text, text, text_ord}
use resctl_demo.Text.Split.{split, splitn_two}
use resctl_demo.BTreeMap.{get, insert, remove}

-- A property group: `BTreeMap<String, String>`.
abbrev pub PropSet : Type 0
PropSet = List (Text × Text)

abbrev pub JobProps : Type 0
JobProps = List PropSet

pub record JobSpec : Type 0 where
  pub kind : Text
  pub id : Option Text
  pub passive : Option Text
  pub props : JobProps

abbrev pub colon : ℕ
colon = b':'

abbrev pub comma : ℕ
comma = b','

abbrev pub equals : ℕ
equals = b'='

-- The loop over the entries of a group, with `first_prop`.
pub format_props : Bool → PropSet → Text
format_props first_prop [] = []
format_props first_prop ((k, v) ∷ group) =
    (if first_prop then [] else comma ∷ [])
    ++ (k ++ ((if ltb 0 (length v) then equals ∷ v else []) ++ format_props false group))

-- The loop over the groups, with `first_group`.
pub format_groups : Bool → JobProps → Text
unfolding format_props
format_groups first_group [] = []
format_groups first_group (group ∷ props) =
    (if first_group then [] else colon ∷ [])
    ++ (format_props true group ++ format_groups false props)

pub format_job_props : JobProps → Text
unfolding format_groups
format_job_props props = format_groups true props

-- `kv`, padded to two parts
pub pad_two : List Text → Text × Text
pad_two [] = ([], [])
pad_two (k ∷ []) = (k, [])
pad_two (k ∷ v ∷ _) = (k, v)

pub add_token : Text → PropSet → PropSet
unfolding pad_two splitn_two insert
add_token tok propset =
    if length tok == 0
    then propset
    else (let (k, v) = pad_two (splitn_two equals tok) in insert k v propset)

pub parse_tokens : List Text → PropSet → PropSet
unfolding add_token
parse_tokens [] propset = propset
parse_tokens (tok ∷ toks) propset = parse_tokens toks (add_token tok propset)

pub parse_propset : Text → PropSet
unfolding parse_tokens split
parse_propset input = parse_tokens (split comma input) []

abbrev pub id_key : Text
id_key = text "id"

abbrev pub passive_key : Text
passive_key = text "passive"

-- What the loop over the groups has gathered.
pub record Groups : Type 0 where
  pub id : Option Text
  pub passive : Option Text
  pub props : JobProps

pub add_group : Text → Groups → Groups
unfolding parse_propset get remove
add_group group gs =
    let propset = parse_propset group in
    let without_id = remove id_key propset in
    record {
      id = get id_key propset;
      passive = get passive_key without_id;
      props = gs.props ++ remove passive_key without_id ∷ [];
    }

pub parse_groups : List Text → Groups → Groups
unfolding add_group
parse_groups [] gs = gs
parse_groups (group ∷ groups) gs = parse_groups groups (add_group group gs)

-- There always is a first group.
pub or_default : JobProps → JobProps
or_default [] = [] ∷ []
or_default (group ∷ props) = group ∷ props

pub spec_of : Text → Groups → JobSpec
unfolding or_default
spec_of kind gs = record {
  kind = kind;
  id = gs.id;
  passive = gs.passive;
  props = or_default gs.props;
}

pub parse_pieces : List Text → Option JobSpec
unfolding parse_groups spec_of
parse_pieces [] = none
parse_pieces (kind ∷ groups) =
    some (spec_of kind (parse_groups groups (record { id = none; passive = none; props = [] })))

pub parse_job_spec : Text → Option JobSpec
unfolding parse_pieces split
parse_job_spec spec = parse_pieces (split colon spec)

pub JobSpec-discrete : Discrete JobSpec
JobSpec-discrete = hlevel ℕ_discrete

-- The two keys that do not tell specs apart, removed from the first group.
pub strip : PropSet → PropSet
unfolding remove
strip group = remove (text "commit") (remove (text "apply") group)

pub same_stripped : JobSpec → JobSpec → JobProps → JobProps → Outcome Bool
unfolding strip
same_stripped left right (g ∷ props) (h ∷ props') = ok (
    ite
      (JobSpec-discrete (record left { props = strip g ∷ props })
        (record right { props = strip h ∷ props' }))
      true false)
same_stripped left right _ _ = panicked

pub compatible : JobSpec → JobSpec → Outcome Bool
unfolding same_stripped
compatible left right = same_stripped left right left.props right.props
