-- ===== src/JobSpec/Ids.antt =====
-- Where the id and the passive setting of a spec come from.
use resctl_demo.Prelude.{
  ℕ, suc, ◌≡◌, refl, ap, ◌∙◌, List, [], ◌∷◌, ◌++◌, none, some, arith, count, length,
}
use resctl_demo.Text.{Text, text_ord, cmp_text}
use resctl_demo.Text.Split.{split, split_middle, split_last, length-split}
use resctl_demo.BTreeMap.{get, get-remove}
use resctl_demo.JobSpec.{
  JobSpec, Groups, add_group, parse_groups, parse_pieces, parse_job_spec, parse_propset, spec_of,
  colon, id_key, passive_key,
}

parse_groups-append :
    (groups : List Text) (group : Text) (gs : Groups)
    → parse_groups (groups ++ group ∷ []) gs ≡ add_group group (parse_groups groups gs)
unfolding parse_groups
parse_groups-append [] group gs = refl
parse_groups-append (g ∷ groups) group gs = parse_groups-append groups group (add_group g gs)

-- The id and the passive setting are those of one group.
pub record IsFrom (group : Text) (js : JobSpec) : Type 0 where
  pub id : js.id ≡ get id_key (parse_propset group)
  pub passive : js.passive ≡ get passive_key (parse_propset group)

add_group-IsFrom :
    (kind group : Text) (gs : Groups) → IsFrom group (spec_of kind (add_group group gs))
unfolding spec_of add_group cmp_text
add_group-IsFrom kind group gs = record {
  id = refl;
  passive = get-remove id_key passive_key (parse_propset group);
}

pieces-IsFrom :
    (n : ℕ) (pieces : List Text) (group : Text)
    → length pieces ≡ suc n
    → (js : JobSpec) × (parse_pieces (pieces ++ group ∷ []) ≡ some js) × IsFrom group js
unfolding parse_pieces
pieces-IsFrom n [] group h = absurd (omega arith)
pieces-IsFrom n (kind ∷ groups) group h =
    let start : Groups = record { id = none; passive = none; props = [] } in
    (
      spec_of kind (add_group group (parse_groups groups start)),
      rw (parse_groups-append groups group start),
      add_group-IsFrom kind group (parse_groups groups start),
    )

-- The id and the passive setting of a spec are those of its last group, `none` if that has none,
-- whatever the groups before it say.
pub parse_job_spec-IsFrom :
    (before group : Text)
    → count colon group ≡ 0
    → (js : JobSpec) × (parse_job_spec (before ++ colon ∷ group) ≡ some js) × IsFrom group js
unfolding parse_job_spec
parse_job_spec-IsFrom before group h =
    let (js, e, from) =
      pieces-IsFrom (count colon before) (split colon before) group (length-split colon before) in
    (
      js,
      ap parse_pieces (
            split_middle colon before group
            ∙ ap (λ ps. split colon before ++ ps) (split_last colon group h))
          ∙ e,
      from,
    )
