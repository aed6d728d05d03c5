-- ===== src/Jobs/Links.antt =====
-- Linking the specs to run to the results there are: `parse_job_spec_and_link` of
-- resctl-bench/src/job.rs, and the loop of `do_run` in resctl-bench/src/main.rs.
use resctl_demo.Prelude.{ℕ, List, [], ◌∷◌, ◌++◌, Option, none, some, true, false}
use resctl_demo.Prelude.Outcome.{Outcome, ok, ◌>>=◌}
use resctl_demo.Prelude.Words.{add64}
use resctl_demo.JobSpec.{JobSpec}
use resctl_demo.Jobs.{
  JobData, JobCtx, Benches, Found, find_matching_unused_prev, replaced, new, weak_clone,
  parse_job_spec, u64_max,
}
use resctl_demo.Enforce.{default}

-- The list of jobs and the next number.
pub record Jobs (C : Type 0) : Type 0 where
  pub vec : List C
  pub next_uid : ℕ

module _ {S V J B : Type 0} (bs : Benches S V J B) where
  abbrev pub found_data : Option (Found (JobCtx S V J B)) → Option (JobData S V)
  found_data none = none
  found_data (some z) = some z.entry.job_data

  -- The new job takes the number of its previous results, or else a new number.
  unfoldable pub link :
      Option (Found (JobCtx S V J B))
      → JobCtx S V J B
      → Jobs (JobCtx S V J B)
      → JobCtx S V J B × Jobs (JobCtx S V J B)
  unfolding replaced weak_clone
  link (some z) new' jobs = (
    record new' { uid = z.entry.uid },
    record jobs { vec = replaced z (record z.entry { used = true }) },
  )
  link none new' jobs =
      let new' : JobCtx S V J B = record new' { uid = jobs.next_uid } in
      (
        new',
        record {
          vec = jobs.vec ++ record (weak_clone new') { used = true } ∷ [];
          next_uid = add64 jobs.next_uid 1;
        },
      )

  unfoldable pub link_parsed :
      Option (Found (JobCtx S V J B))
      → Option (JobCtx S V J B)
      → Jobs (JobCtx S V J B)
      → Option (JobCtx S V J B × Jobs (JobCtx S V J B))
  unfolding link
  link_parsed prev none jobs = none
  link_parsed prev (some j) jobs = some (link prev j jobs)

  unfoldable pub parse_job_spec_and_link :
      JobSpec → Jobs (JobCtx S V J B) → Outcome (Option (JobCtx S V J B × Jobs (JobCtx S V J B)))
  unfolding link_parsed find_matching_unused_prev parse_job_spec new
  parse_job_spec_and_link spec jobs = find_matching_unused_prev spec [] jobs.vec >>= λ prev.
      parse_job_spec bs (found_data prev) (new bs spec) >>= λ parsed.
      ok (link_parsed prev parsed jobs)

  -- The jobs to run, one for each spec, unless one cannot be parsed: then the program exits.
  unfoldable pub collect :
      List JobSpec
      → List (JobCtx S V J B)
      → Jobs (JobCtx S V J B)
      → Outcome (Option (List (JobCtx S V J B) × Jobs (JobCtx S V J B)))
  unfolding parse_job_spec_and_link
  collect [] pending jobs = ok (some (pending, jobs))
  collect (spec ∷ specs) pending jobs = parse_job_spec_and_link spec jobs >>= λ linked.
      elim linked [ none ↦ ok none | some (j, jobs') ↦ collect specs (pending ++ j ∷ []) jobs' ]

  abbrev of_data : JobData S V → ℕ → JobCtx S V J B
  of_data d uid = record {
    job_data = d;
    bench = none;
    job = none;
    incremental = false;
    enforce = default;
    uid = uid;
    used = false;
    update_seq = u64_max;
  }

  -- A job from its data, with the next number.
  unfoldable pub with_job_data : JobData S V → ℕ → Outcome (Option (JobCtx S V J B) × ℕ)
  unfolding parse_job_spec
  with_job_data d next_uid =
      parse_job_spec bs none (of_data d next_uid) >>= λ parsed. ok (parsed, add64 next_uid 1)
