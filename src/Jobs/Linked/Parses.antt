-- ===== src/Jobs/Linked/Parses.antt =====
-- What `JobCtx::parse_job_spec` of resctl-bench/src/job.rs makes of a new job.
use resctl_demo.Prelude.{
  ◌<◌, ◌≡◌, refl, [], ◌∷◌, Option, none, some, Bool, arith, Option-cases, inl, inr, Bool-cases,
  length, not, if◌then◌else◌, ◌&&◌, ltb,
}
use resctl_demo.Prelude.Outcome.{Outcome, ok, panicked}
use resctl_demo.JobSpec.{JobProps}
use resctl_demo.Jobs.{
  JobData, JobCtx, Benches, BenchDesc, parse_job_spec, parse_with, takes, has_first_props,
  find_bench, enforce_of, or_own,
}

module _ {S V J B : Type 0} (bs : Benches S V J B) where
  -- With a first group there is no panic, and the data are left alone.
  abbrev pub KeepsData : JobCtx S V J B → Outcome (Option (JobCtx S V J B)) → Type 0
  KeepsData j panicked = ⊥
  KeepsData j (ok none) = Unit
  KeepsData j (ok (some k)) = k.job_data ≡ j.job_data

  takes-Returns :
      (desc : BenchDesc) (props : JobProps)
      → 0 < length props
      → (b : Bool) × (takes bs desc props ≡ ok b)
  unfolding takes has_first_props
  takes-Returns desc [] h = elim h [ ]
  takes-Returns desc (g ∷ props) h = (
    (if desc.takes_run_props
        then not (not desc.takes_run_propsets && ltb 1 (length (g ∷ props)))
        else not (ltb 0 (length g))
          && not (not desc.takes_run_propsets && ltb 1 (length (g ∷ props)))),
    ground arith,
  )

  parse_with-KeepsData :
      (b : B) (prev : Option (JobData S V)) (j : JobCtx S V J B)
      → KeepsData j (ok (parse_with bs b prev j))
  unfolding parse_with
  parse_with-KeepsData b prev j =
      elim (Option-cases (enforce_of bs (bs.desc b) j.job_data.spec.passive)) [
        | inl p ↦ rw (p, KeepsData) tt
        | inr (c, p) ↦
            (elim (Option-cases (bs.parse b j.job_data.spec (or_own bs prev j.job_data))) [
              | inl q ↦ rw (p, q, KeepsData) tt
              | inr (job, q) ↦ rw (p, q, KeepsData) refl
            ])
      ]

  pub parse_job_spec-KeepsData :
      (prev : Option (JobData S V)) (j : JobCtx S V J B)
      → 0 < length j.job_data.spec.props
      → KeepsData j (parse_job_spec bs prev j)
  unfolding parse_job_spec
  parse_job_spec-KeepsData prev j h = elim (Option-cases (find_bench bs j.job_data.spec.kind)) [
    | inl p ↦ rw (p, KeepsData) tt
    | inr (b, p) ↦
        (let (shape, q) = takes-Returns (bs.desc b) j.job_data.spec.props h in
          elim (Bool-cases shape) [
            | inl r ↦ rw (p, q, r, KeepsData) (parse_with-KeepsData b prev j)
            | inr r ↦ rw (p, q, r, KeepsData) tt
          ])
  ]
