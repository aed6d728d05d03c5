-- ===== src/Merge/Tests.antt =====
-- The merging of results at concrete inputs, with two files and one benchmark.
use resctl_demo.Prelude.{
  ℕ, ◌≡◌, ◌<◌, refl, List, [], ◌∷◌, Option, none, some, true, false, arith, All, ◌==◌,
  if◌then◌else◌,
}
use resctl_demo.Prelude.Outcome.{Outcome, ok}
use resctl_demo.Text.{Text, text, cmp_text}
use resctl_demo.Prelude.Order.{cmp_pair, cmp_option}
use resctl_demo.BTreeMap.{get, insert}
use resctl_demo.JobSpec.{JobSpec}
use resctl_demo.Enforce.{default}
use resctl_demo.Jobs.{JobData, JobCtx, BenchDesc, u64_max}
use resctl_demo.Merge.{SysInfo, MergeSrc, Args, MergeOps, Sets, add_files, cmp_merge_id}
use resctl_demo.Merge.Best.{pick_best, keep_best}
use resctl_demo.Merge.Run.{Merged, nr_accepted, choose, merge_all, merged_results}
use resctl_demo.Merge.Chosen.{ResultsAre, merged_results-ResultsAre}
use resctl_demo.Merge.Hull.{
  Period, merged_period, accepted_periods, IsMergedPeriod, merged_period-IsMergedPeriod,
}

abbrev storage : JobSpec
storage = record { kind = text "storage"; id = none; passive = none; props = [] ∷ [] }

-- What is known of a system with this profile on which some requirements are missed.
abbrev sysinfo_of : ℕ → ℕ → SysInfo ℕ
sysinfo_of profile missed = record {
  bench_version = text "2.2";
  nr_sysreqs_missed = missed;
  sysreqs_report = some (record {
    agent_version = text "2.2";
    hashd_version = text "2.1";
    scr_dev_model = text "disk";
    scr_dev_fwrev = text "1";
  });
  mem_profile = profile;
  others = 0;
}

abbrev result_of : Period → SysInfo ℕ → JobCtx (SysInfo ℕ) ℕ ℕ ℕ
result_of period si = record {
  job_data = record {
    spec = storage;
    period = period;
    sysinfo = si;
    rec = some 1;
    result = some 1;
  };
  bench = some 0;
  job = some 0;
  incremental = false;
  enforce = default;
  uid = 1;
  used = false;
  update_seq = u64_max;
}

abbrev storage_desc : BenchDesc
storage_desc = record {
  kind = text "storage";
  takes_run_props = false;
  takes_run_propsets = false;
  incremental = false;
  enforce = default;
  mergeable = true;
  merge_by_storage_model = true;
  merge_by_storage_fwver = false;
}

-- The merged data are those of the first source.
abbrev merge_first : List (MergeSrc ℕ ℕ ℕ) → Option (JobData (SysInfo ℕ) ℕ × List (MergeSrc ℕ ℕ ℕ))
merge_first [] = none
merge_first (s ∷ srcs) = some (s.job_data, s ∷ srcs)

-- File `a` has two results with profile 8, one of which misses requirements, and each other file
-- has two with profile 16.
abbrev load : Text → Option (List (JobCtx (SysInfo ℕ) ℕ ℕ ℕ))
load [] = none
load (c ∷ cs) =
    if c == b'a'
    then some (result_of (5, 9) (sysinfo_of 8 0) ∷ result_of (1, 30) (sysinfo_of 8 2) ∷ [])
    else some (result_of (20, 25) (sysinfo_of 16 0) ∷ result_of (12, 14) (sysinfo_of 16 0) ∷ [])

abbrev ops : MergeOps ℕ ℕ ℕ ℕ
ops = record {
  load_results = load;
  desc = λ b. storage_desc;
  merge_classifier = λ b d. none;
  merge = λ b srcs. merge_first srcs;
  show_num = λ n. n ∷ [];
}

abbrev args : Args
args = record {
  merge_srcs = text "a" ∷ text "b" ∷ [];
  merge_by_id = false;
  merge_ignore_versions = false;
  merge_ignore_sysreqs = false;
  merge_multiple = false;
}

abbrev profiles : Merged ℕ ℕ → List (ℕ × ℕ)
profiles [] = []
profiles ((mid, (d, [])) ∷ ms) = (mid.mem_profile, 0) ∷ profiles ms
profiles ((mid, (d, (lost, _) ∷ losts)) ∷ ms) = (mid.mem_profile, lost.mem_profile) ∷ profiles ms

abbrev profiles_of : Outcome (Option (Sets ops × Merged ℕ ℕ)) → List (ℕ × ℕ)
profiles_of (ok (some (sets, merged))) = profiles merged
profiles_of _ = []

-- The set with profile 16 has more sources that are not rejected.
winner : profiles_of (merged_results ops args) ≡ (16, 8) ∷ []
unfolding merged_results add_files cmp_merge_id cmp_pair cmp_option cmp_text get insert merge_all
    choose pick_best keep_best nr_accepted
winner = refl

-- Several results are kept, in the order of the ids.
several :
    profiles_of (merged_results ops (record args { merge_multiple = true })) ≡ (8, 0) ∷ (16, 0) ∷ []
unfolding merged_results add_files cmp_merge_id cmp_pair cmp_option cmp_text get insert merge_all
    choose
several = refl

merged_results-ResultsAre_example : ResultsAre ops args (merged_results ops args)
merged_results-ResultsAre_example = merged_results-ResultsAre ops args refl

abbrev source_of : Period → Option Text → MergeSrc ℕ ℕ ℕ
source_of period rejected = record {
  job_data = (result_of period (sysinfo_of 8 0)).job_data;
  file = text "a";
  rejected = rejected;
  bench = 0;
}

abbrev sources : List (MergeSrc ℕ ℕ ℕ)
sources =
    source_of (20, 25) none ∷ source_of (1, 90) (some (text "late")) ∷ source_of (12, 14) none ∷ []

two_periods : merged_period sources ≡ (12, 25)
unfolding merged_period
two_periods = refl

no_periods : merged_period {R = ℕ} {V = ℕ} {B = ℕ} [] ≡ (0, 0)
unfolding merged_period
no_periods = refl

sources-early : All (λ p. p.0 < u64_max) (accepted_periods sources)
unfolding accepted_periods
sources-early = (omega arith, (omega arith, tt))

merged_period-IsMergedPeriod_example :
    IsMergedPeriod (accepted_periods sources) (merged_period sources)
merged_period-IsMergedPeriod_example = merged_period-IsMergedPeriod sources sources-early
