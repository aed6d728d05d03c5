-- ===== src/JobSpec/Tests.antt =====
-- Job specs at concrete inputs: the examples of resctl-bench/doc/common.md among them.
use resctl_demo.Prelude.{◌≡◌, ◌↔◌, refl, [], ◌∷◌, ◌++◌, none, some, arith, true}
use resctl_demo.Prelude.Outcome.{ok}
use resctl_demo.Text.{text, cmp_text}
use resctl_demo.BTreeMap.{get}
use resctl_demo.JobSpec.{PropSet, JobSpec, parse_job_spec, format_job_props, compatible, colon}
use resctl_demo.JobSpec.Parsed.{IsParsed, parse_job_spec-IsParsed}
use resctl_demo.JobSpec.Ids.{IsFrom, parse_job_spec-IsFrom}
use resctl_demo.JobSpec.RoundTrip.{IsPrintable, parse_job_spec-format_job_props}
use resctl_demo.JobSpec.Compatible.{IsSameJob, compatible-IsSameJob_iff}

-- The id of an early group is lost, as are all ids but the last group's.
lost_id :
    parse_job_spec (text "iocost-qos:id=qos-0:min=100")
    ≡ some (record {
      kind = text "iocost-qos";
      id = none;
      passive = none;
      props = [] ∷ ((text "min", text "100") ∷ []) ∷ [];
    })
unfolding parse_job_spec cmp_text
lost_id = refl

parse_job_spec-IsParsed_example :
    (js : JobSpec) × (parse_job_spec (text "storage:id=s0,apply:,loops=3") ≡ some js)
    × IsParsed (text "storage:id=s0,apply:,loops=3") js
parse_job_spec-IsParsed_example = parse_job_spec-IsParsed (text "storage:id=s0,apply:,loops=3")

parse_job_spec-IsFrom_example :
    (js : JobSpec) × (parse_job_spec (text "iocost-qos:id=qos-0" ++ colon ∷ text "min=100")
      ≡ some js)
    × IsFrom (text "min=100") js
parse_job_spec-IsFrom_example =
    parse_job_spec-IsFrom (text "iocost-qos:id=qos-0") (text "min=100") refl

abbrev two_props : PropSet
two_props = (text "apply", []) ∷ (text "loops", text "3") ∷ []

abbrev one_prop : PropSet
one_prop = (text "loops", text "3") ∷ []

apply : IsPrintable (text "apply", [])
apply = record {
  key_colon = refl;
  key_comma = refl;
  key_equals = refl;
  value_colon = refl;
  value_comma = refl;
  shown = omega arith;
}

loops : IsPrintable (text "loops", text "3")
loops = record {
  key_colon = refl;
  key_comma = refl;
  key_equals = refl;
  value_colon = refl;
  value_comma = refl;
  shown = omega arith;
}

parse_job_spec-format_job_props_example :
    parse_job_spec (text "storage" ++ colon ∷ format_job_props (two_props ∷ one_prop ∷ []))
    ≡ some (record {
      kind = text "storage";
      id = none;
      passive = none;
      props = two_props ∷ one_prop ∷ [];
    })
unfolding cmp_text get
parse_job_spec-format_job_props_example =
    parse_job_spec-format_job_props (text "storage") two_props (one_prop ∷ []) refl (
      ((apply, (loops, tt)), (((refl, tt), (tt, tt)), refl, refl)),
      (((loops, tt), ((tt, tt), refl, refl)), tt),
    )

abbrev spec_with : PropSet → JobSpec
spec_with g = record { kind = text "storage"; id = none; passive = none; props = g ∷ [] }

compatible-IsSameJob_iff_example :
    (compatible (spec_with two_props) (spec_with one_prop) ≡ ok true)
    ↔ IsSameJob (spec_with two_props) (spec_with one_prop) two_props one_prop [] []
unfolding cmp_text
compatible-IsSameJob_iff_example =
    compatible-IsSameJob_iff (spec_with two_props) (spec_with one_prop) two_props one_prop [] []
      refl refl ((refl, tt), (tt, tt)) (tt, tt)
