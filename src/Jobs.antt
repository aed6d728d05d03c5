-- ===== src/Jobs.antt =====
-- Jobs and their results in resctl-bench: resctl-bench/src/job.rs, and what
-- resctl-bench/src/run.rs and resctl-bench/src/main.rs do with the list of results.
--
-- A JSON value, what is known of the system and a parsed job are types that the benchmarks choose.
-- The benchmarks are a parameter, `Benches`. An `anyhow` error is `none`, inside an outcome where
-- the code may panic. The counters `UID` and `UPDATE_SEQ` are arguments and results.
pub mod Numbers
pub mod Links
pub mod Linked
pub mod Updates
pub mod Ordered
pub mod Periods
pub mod Coalesced
mod Tests
use mathlib.Core.Logic.{ite}
use native.Mathlib.Decide.{ℕ_discrete}
use resctl_demo.Prelude.{
  ℕ, ◌-◌, List, [], ◌∷◌, ◌++◌, Option, none, some, Bool, true, false, not, ◌&&◌, ltb, ◌==◌,
  if◌then◌else◌, length,
}
use resctl_demo.Prelude.Outcome.{Outcome, ok, panicked, ◌>>=◌}
use resctl_demo.Text.{Text}
use resctl_demo.Prelude.Words.{u64_mod}
use resctl_demo.JobSpec.{JobSpec, JobProps, compatible}
use resctl_demo.Enforce.{EnforceConfig, default, parse_and_merge}

-- What resctl-bench keeps of a job, `record` being `rec`, in the result file. `S` is `SysInfo` and
-- `V` a JSON value.
pub record JobData (S V : Type 0) : Type 0 where
  pub spec : JobSpec
  pub period : ℕ × ℕ
  pub sysinfo : S
  pub rec : Option V
  pub result : Option V

pub record JobCtx (S V J B : Type 0) : Type 0 where
  pub job_data : JobData S V
  pub bench : Option B
  pub job : Option J
  pub incremental : Bool
  pub enforce : EnforceConfig
  pub uid : ℕ
  pub used : Bool
  pub update_seq : ℕ

pub record BenchDesc : Type 0 where
  pub kind : Text
  pub takes_run_props : Bool
  pub takes_run_propsets : Bool
  pub incremental : Bool
  pub enforce : EnforceConfig
  pub mergeable : Bool
  pub merge_by_storage_model : Bool
  pub merge_by_storage_fwver : Bool

pub record Benches (S V J B : Type 0) : Type 0 where
  -- the registered benchmarks
  pub benchs : List B
  pub desc : B → BenchDesc
  pub parse : B → JobSpec → Option (JobData S V) → Option J
  pub default_sysinfo : S

unfoldable pub Text-discrete : Discrete Text
Text-discrete = hlevel ℕ_discrete

unfoldable pub id_discrete : Discrete (Option Text)
id_discrete = hlevel ℕ_discrete

abbrev pub u64_max : ℕ
u64_max = u64_mod - 1

-- An entry of the list of jobs, with those before it and after it.
pub record Found (C : Type 0) : Type 0 where
  pub before : List C
  pub entry : C
  pub after : List C

abbrev pub same_text : Text → Text → Bool
same_text a b = ite (Text-discrete a b) true false

abbrev pub same_kind : JobSpec → JobSpec → Bool
same_kind s t = same_text s.kind t.kind

abbrev pub same_id : JobSpec → JobSpec → Bool
same_id s t = ite (id_discrete s.id t.id) true false

module _ {S V J B : Type 0} where
  -- The first job with this number.
  unfoldable pub by_uid : ℕ → List (JobCtx S V J B) → Option (JobCtx S V J B)
  by_uid uid [] = none
  by_uid uid (j ∷ js) = if j.uid == uid then some j else by_uid uid js

  unfoldable pub weak_clone : JobCtx S V J B → JobCtx S V J B
  weak_clone j = record j { bench = none; job = none; used = false; update_seq = u64_max }

  -- Whether the job may be what was run for the spec before.
  pub matches : JobSpec → JobCtx S V J B → Outcome Bool
  matches spec j =
      if not j.used && same_kind j.job_data.spec spec && same_id j.job_data.spec spec
      then (if j.incremental then ok true else compatible j.job_data.spec spec)
      else ok false

  unfoldable pub find_matching_unused_prev :
      JobSpec
      → List (JobCtx S V J B)
      → List (JobCtx S V J B)
      → Outcome (Option (Found (JobCtx S V J B)))
  unfolding matches
  find_matching_unused_prev spec before [] = ok none
  find_matching_unused_prev spec before (j ∷ js) =
      let rest = find_matching_unused_prev spec (before ++ j ∷ []) js in
      matches spec j >>= λ yes'.
      if yes' then ok (some (record { before = before; entry = j; after = js })) else rest

  unfoldable pub replaced : Found (JobCtx S V J B) → JobCtx S V J B → List (JobCtx S V J B)
  replaced z j = z.before ++ j ∷ z.after

  module _ (bs : Benches S V J B) where
    pub find_bench_in : Text → List B → Option B
    find_bench_in kind [] = none
    find_bench_in kind (b ∷ benchs) =
        ite (Text-discrete (bs.desc b).kind kind) (some b) (find_bench_in kind benchs)

    pub find_bench : Text → Option B
    unfolding find_bench_in
    find_bench kind = find_bench_in kind bs.benchs

    unfoldable pub new_data : JobSpec → JobData S V
    new_data spec = record {
      spec = spec;
      period = (0, 0);
      sysinfo = bs.default_sysinfo;
      rec = none;
      result = none;
    }

    unfoldable pub new : JobSpec → JobCtx S V J B
    unfolding new_data
    new spec = record {
      job_data = new_data spec;
      bench = none;
      job = none;
      incremental = false;
      enforce = default;
      uid = 0;
      used = false;
      update_seq = u64_max;
    }

    -- `props[0].len() > 0`
    pub has_first_props : JobProps → Outcome Bool
    has_first_props [] = panicked
    has_first_props (group ∷ props) = ok (ltb 0 (length group))

    -- Whether the properties are of a shape that the benchmark takes.
    pub takes : BenchDesc → JobProps → Outcome Bool
    unfolding has_first_props
    takes desc props =
        let sets = not desc.takes_run_propsets && ltb 1 (length props) in
        if desc.takes_run_props
        then ok (not sets)
        else has_first_props props >>= λ has. ok (not has && not sets)

    pub enforce_of : BenchDesc → Option Text → Option EnforceConfig
    enforce_of desc none = some desc.enforce
    enforce_of desc (some passive) = parse_and_merge passive desc.enforce

    pub or_own : Option (JobData S V) → JobData S V → Option (JobData S V)
    or_own none own = elim own.result [ none ↦ none | some r ↦ some own ]
    or_own (some prev) own = some prev

    pub parse_with : B → Option (JobData S V) → JobCtx S V J B → Option (JobCtx S V J B)
    unfolding enforce_of or_own
    parse_with b prev j = elim (enforce_of (bs.desc b) j.job_data.spec.passive) [
      | none ↦ none
      | some enforce ↦ (elim (bs.parse b j.job_data.spec (or_own prev j.job_data)) [
        | none ↦ none
        | some job ↦ some (record j {
          incremental = (bs.desc b).incremental;
          enforce = enforce;
          job = some job;
          bench = some b;
        })
      ])
    ]

    unfoldable pub parse_job_spec :
        Option (JobData S V) → JobCtx S V J B → Outcome (Option (JobCtx S V J B))
    unfolding find_bench takes parse_with
    parse_job_spec prev j = elim (find_bench j.job_data.spec.kind) [
      | none ↦ ok none
      | some b ↦ takes (bs.desc b) j.job_data.spec.props >>= λ shape.
          ok (if shape then parse_with b prev j else none)
    ]
