-- ===== src/Jobs/Tests.antt =====
-- The list of jobs at concrete inputs, with one benchmark.
use native.Mathlib.Decide.{ℕ_discrete}
use resctl_demo.Prelude.{ℕ, ◌≡◌, refl, List, [], ◌∷◌, Option, none, some, true, false, arith}
use resctl_demo.Prelude.Outcome.{Outcome, ok}
use resctl_demo.Text.{text}
use resctl_demo.JobSpec.{JobSpec}
use resctl_demo.Enforce.{default}
use resctl_demo.Jobs.{
  JobData, JobCtx, Benches, by_uid, parse_job_spec, u64_max, Text-discrete, id_discrete,
}
use resctl_demo.Jobs.Numbers.{count_uid}
use resctl_demo.Jobs.Links.{Jobs, collect}
use resctl_demo.Jobs.Linked.{Collects, collect-Collects}
use resctl_demo.Jobs.Linked.Steps.{IsNumbered}
use resctl_demo.Jobs.Updates.{update_incremental_jctx, find_done_job_data}
use resctl_demo.Jobs.Ordered.{IsUpdated, AreDistinct, update-IsUpdated}
use resctl_demo.Jobs.Periods.{periods}
use resctl_demo.Jobs.Coalesced.{covers, ran_at, AreSeparated, periods-AreSeparated}

abbrev Ctx : Type 0
Ctx = JobCtx ℕ ℕ ℕ ℕ

abbrev storage : JobSpec
storage = record { kind = text "storage"; id = none; passive = none; props = [] ∷ [] }

abbrev storage_data : JobData ℕ ℕ
storage_data = record {
  spec = storage;
  period = (5, 9);
  sysinfo = 0;
  rec = some 1;
  result = some 1;
}

abbrev old : Ctx
old = record {
  job_data = storage_data;
  bench = some 0;
  job = some 0;
  incremental = true;
  enforce = default;
  uid = 1;
  used = false;
  update_seq = u64_max;
}

abbrev benches : Benches ℕ ℕ ℕ ℕ
benches = record {
  benchs = 0 ∷ [];
  desc = λ b. record {
    kind = text "storage";
    takes_run_props = false;
    takes_run_propsets = false;
    incremental = true;
    enforce = default;
    mergeable = true;
    merge_by_storage_model = true;
    merge_by_storage_fwver = true;
  };
  parse = λ b spec prev. some b;
  default_sysinfo = 0;
}

abbrev jobs : Jobs Ctx
jobs = record { vec = old ∷ []; next_uid = 2 }

abbrev uids : Outcome (Option (List Ctx × Jobs Ctx)) → List ℕ
uids (ok (some (p ∷ q ∷ ps, after))) = p.uid ∷ q.uid ∷ []
uids _ = []

-- The second spec has no results left and gets a new number.
two_specs : uids (collect benches (storage ∷ storage ∷ []) [] jobs) ≡ 1 ∷ 2 ∷ []
unfolding collect parse_job_spec Text-discrete id_discrete ℕ_discrete
two_specs = refl

jobs-IsNumbered : IsNumbered jobs
unfolding count_uid
jobs-IsNumbered = record {
  distinct = λ k. ground arith;
  below = omega arith;
  positive = omega arith;
}

collect-Collects_example :
    Collects benches
      (storage ∷ storage ∷ [])
      (storage ∷ storage ∷ [])
      jobs
      (collect benches (storage ∷ storage ∷ []) [] jobs)
collect-Collects_example =
    collect-Collects benches (storage ∷ storage ∷ []) jobs jobs-IsNumbered (omega arith)
      (omega arith) (omega arith)

-- The run of a job whose results come after those of another one.
abbrev newer : Ctx
newer = record old { job_data = record storage_data { period = (8, 20) }; update_seq = u64_max }

abbrev other : Ctx
other = record old { uid = 2; job_data = record storage_data { period = (30, 31) } }

two_jobs-AreDistinct : AreDistinct (old ∷ other ∷ [])
unfolding count_uid
two_jobs-AreDistinct k = ground arith

old_found : by_uid newer.uid (old ∷ other ∷ []) ≡ some old
unfolding by_uid
old_found = refl

update-IsUpdated_example :
    (after : List Ctx) × (update_incremental_jctx false newer (old ∷ other ∷ []) 4 ≡ ok (after, 5))
    × IsUpdated false newer 4 (old ∷ other ∷ []) after
update-IsUpdated_example =
    update-IsUpdated false newer old (old ∷ other ∷ []) 4 two_jobs-AreDistinct old_found

found_again : find_done_job_data 2 (text "storage") (newer ∷ other ∷ []) none ≡ ok (none, some 0)
unfolding find_done_job_data Text-discrete ℕ_discrete
found_again = refl

packed : periods (other ∷ newer ∷ old ∷ []) ≡ (5, 20) ∷ (30, 31) ∷ []
unfolding periods
packed = refl

periods-AreSeparated_example :
    ((t : ℕ) → covers t (periods (newer ∷ old ∷ [])) ≡ ran_at t (newer ∷ old ∷ []))
    × AreSeparated (periods (newer ∷ old ∷ []))
periods-AreSeparated_example = periods-AreSeparated (newer ∷ old ∷ [])
