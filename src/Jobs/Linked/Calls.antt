-- ===== src/Jobs/Linked/Calls.antt =====
-- A call of `parse_job_spec_and_link` of resctl-bench/src/job.rs, from what it finds and parses.
use resctl_demo.Prelude.{◌+◌, ◌<◌, ◌≡◌, refl, sym, [], Option, none, some, subst, ap}
use resctl_demo.Prelude.Outcome.{Outcome, ok, panicked, ◌>>=◌}
use resctl_demo.Prelude.Words.{u64_mod}
use resctl_demo.JobSpec.{JobSpec}
use resctl_demo.Jobs.{
  JobData, JobCtx, Benches, Found, find_matching_unused_prev, new, parse_job_spec,
}
use resctl_demo.Jobs.Links.{Jobs, found_data, link, link_parsed, parse_job_spec_and_link}
use resctl_demo.Jobs.Linked.Steps.{
  HasGroups, HaveGroups, FindsPrev, find-FindsPrev, IsNumbered, IsStep, link_found-IsStep,
  link_new-IsStep,
}
use resctl_demo.Jobs.Linked.Parses.{KeepsData, parse_job_spec-KeepsData}

module _ {S V J B : Type 0} (bs : Benches S V J B) where
  -- The spec cannot be parsed, with some previous results or without.
  abbrev pub Fails : JobSpec → Type 0
  Fails spec = (prev : Option (JobData S V)) × (parse_job_spec bs prev (new bs spec) ≡ ok none)

  module _ (spec : JobSpec) (jobs : Jobs (JobCtx S V J B)) where
    abbrev pub Links : Outcome (Option (JobCtx S V J B × Jobs (JobCtx S V J B))) → Type 0
    Links panicked = ⊥
    Links (ok none) = Fails spec
    Links (ok (some (p, jobs'))) = IsStep spec jobs p jobs'

    module _ (num : IsNumbered jobs) (groups : HaveGroups jobs.vec) (has : HasGroups spec)
        (small : jobs.next_uid + 1 < u64_mod) where
      link-IsStep :
          (prev : Option (Found (JobCtx S V J B))) (p : JobCtx S V J B)
          → FindsPrev spec jobs.vec (ok prev)
          → p.job_data.spec ≡ spec
          → IsStep spec jobs (link bs prev p jobs).0 (link bs prev p jobs).1
      link-IsStep none p f is =
          link_new-IsStep bs spec jobs.next_uid jobs.vec p num groups has is small
      link-IsStep (some z) p (split', prev) is =
          subst
            (λ vec.
              (let js : Jobs (JobCtx S V J B) = record { vec = vec; next_uid = jobs.next_uid } in
                IsNumbered js
                → HaveGroups vec
                → IsStep spec js (link bs (some z) p js).0 (link bs (some z) p js).1))
            (sym split')
            (λ num' groups'. link_found-IsStep bs spec jobs.next_uid z p num' groups' prev is) num
            groups

      parsed-Links :
          (prev : Option (Found (JobCtx S V J B))) (r : Outcome (Option (JobCtx S V J B)))
          → FindsPrev spec jobs.vec (ok prev)
          → parse_job_spec bs (found_data bs prev) (new bs spec) ≡ r
          → KeepsData bs (new bs spec) r
          → Links (r >>= λ parsed. ok (link_parsed bs prev parsed jobs))
      unfolding link_parsed new
      parsed-Links prev panicked f e k = k
      parsed-Links prev (ok none) f e k = (found_data bs prev, e)
      parsed-Links prev (ok (some p)) f e k = link-IsStep prev p f (ap (λ d. d.spec) k)

      found-Links :
          (r : Outcome (Option (Found (JobCtx S V J B))))
          → FindsPrev spec jobs.vec r
          → Links (
              r >>= λ prev. parse_job_spec bs (found_data bs prev) (new bs spec) >>= λ parsed.
              ok (link_parsed bs prev parsed jobs))
      unfolding new
      found-Links panicked f = f
      found-Links (ok prev) f =
          parsed-Links prev _ f refl
            (parse_job_spec-KeepsData bs (found_data bs prev) (new bs spec) has)

      pub parse_job_spec_and_link-Links : Links (parse_job_spec_and_link bs spec jobs)
      unfolding parse_job_spec_and_link
      parse_job_spec_and_link-Links =
          found-Links (find_matching_unused_prev spec [] jobs.vec)
            (find-FindsPrev spec [] jobs.vec has groups)
