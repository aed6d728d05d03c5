-- ===== src/Jobs/Updates.antt =====
-- What a run does with the list of jobs: resctl-bench/src/run.rs, `update_incremental_jctx`,
-- `update_incremental_record`, `prev_job_data` and `find_done_job_data`, with the lookups of
-- resctl-bench/src/job.rs. The result file is written from the list each time and is left out.
use resctl_demo.Prelude.{
  ℕ, List, [], ◌∷◌, ◌++◌, Option, none, some, Bool, ◌&&◌, ltb, ◌==◌, if◌then◌else◌, max, reverse,
}
use resctl_demo.Prelude.Outcome.{Outcome, ok, panicked}
use resctl_demo.Prelude.Words.{add64}
use resctl_demo.Text.{Text}
use resctl_demo.JobSpec.{JobSpec}
use resctl_demo.Jobs.{
  JobData, JobCtx, by_uid, same_kind, same_id, same_text, u64_max, Found, replaced,
}

-- The period starts with the run, if it has not started yet.
unfoldable pub started : ℕ → ℕ × ℕ → ℕ × ℕ
started at (start, end) = if start == 0 then (at, end) else (start, end)

unfoldable pub with_record : {S V : Type 0} → ℕ → ℕ → V → JobData S V → JobData S V
unfolding started
with_record run_started_at now rec d =
    let (start, end) = started run_started_at d.period in
    record d { period = (start, max end now); rec = some rec }

unfoldable pub if_recorded : {S V : Type 0} → JobData S V → Option (JobData S V)
if_recorded d = elim d.rec [ none ↦ none | some rec ↦ some d ]

abbrev pub or_forward : {S : Type 0} → Option S → S → Option S
or_forward none s = some s
or_forward (some f) s = some f

module _ {S V J B : Type 0} where
  -- `by_uid_mut`, up to the first job with this number
  unfoldable pub by_uid_mut :
      ℕ → List (JobCtx S V J B) → List (JobCtx S V J B) → Option (Found (JobCtx S V J B))
  by_uid_mut uid before [] = none
  by_uid_mut uid before (j ∷ js) =
      let rest = by_uid_mut uid (before ++ j ∷ []) js in
      if j.uid == uid then some (record { before = before; entry = j; after = js }) else rest

  -- `sort_by`, which is stable: a job goes before those behind it with the same sequence number.
  unfoldable pub insert_by_seq : JobCtx S V J B → List (JobCtx S V J B) → List (JobCtx S V J B)
  insert_by_seq j [] = j ∷ []
  insert_by_seq j (k ∷ ks) =
      if ltb k.update_seq j.update_seq then k ∷ insert_by_seq j ks else j ∷ k ∷ ks

  unfoldable pub sort_by_update_seq : List (JobCtx S V J B) → List (JobCtx S V J B)
  unfolding insert_by_seq
  sort_by_update_seq [] = []
  sort_by_update_seq (j ∷ js) = insert_by_seq j (sort_by_update_seq js)

  -- The jobs and the next number of an update. The results of `j` are those of the run.
  unfoldable pub update_incremental_jctx :
      Bool → JobCtx S V J B → List (JobCtx S V J B) → ℕ → Outcome (List (JobCtx S V J B) × ℕ)
  unfolding by_uid_mut sort_by_update_seq replaced
  update_incremental_jctx studying j jobs seq = elim (by_uid_mut j.uid [] jobs) [
    | none ↦ panicked
    | some z ↦
        (let jobs = replaced z (record z.entry { update_seq = seq; job_data = j.job_data }) in
          ok (if studying then jobs else sort_by_update_seq jobs, add64 seq 1))
  ]

  unfoldable pub update_incremental_record :
      ℕ → ℕ → ℕ → V → List (JobCtx S V J B) → Outcome (List (JobCtx S V J B))
  unfolding by_uid_mut with_record replaced
  update_incremental_record uid run_started_at now rec jobs = elim (by_uid_mut uid [] jobs) [
    | none ↦ panicked
    | some z ↦ ok (
        replaced z
          (record z.entry { job_data = with_record run_started_at now rec z.entry.job_data }))
  ]

  unfoldable pub prev_job_data : ℕ → List (JobCtx S V J B) → Outcome (Option (JobData S V))
  unfolding by_uid if_recorded
  prev_job_data uid jobs = elim (by_uid uid jobs) [
    | none ↦ panicked
    | some j ↦ ok (if_recorded j.job_data)
  ]

  -- What is left of the jobs, last first, after the current one.
  unfoldable pub after_current : ℕ → List (JobCtx S V J B) → List (JobCtx S V J B)
  after_current uid [] = []
  after_current uid (j ∷ js) = if j.uid == uid then js else after_current uid js

  -- The nearest job of the kind, if it is done; what is known of its system is passed on.
  unfoldable pub nearest : Text → List (JobCtx S V J B) → Option S → Option (JobData S V) × Option S
  nearest kind [] forward = (none, forward)
  nearest kind (j ∷ js) forward =
      let rest = nearest kind js forward in
      if same_text j.job_data.spec.kind kind
      then (
        (if j.update_seq == u64_max then none else some j.job_data),
        or_forward forward j.job_data.sysinfo,
      )
      else rest

  unfoldable pub find_done_job_data :
      ℕ → Text → List (JobCtx S V J B) → Option S → Outcome (Option (JobData S V) × Option S)
  unfolding after_current nearest
  find_done_job_data uid kind jobs forward =
      if uid == 0 then panicked else ok (nearest kind (after_current uid (reverse jobs)) forward)

  unfoldable pub find_matching :
      JobSpec → List (JobCtx S V J B) → List (JobCtx S V J B) → Option (Found (JobCtx S V J B))
  find_matching spec before [] = none
  find_matching spec before (j ∷ js) =
      let rest = find_matching spec (before ++ j ∷ []) js in
      if same_kind j.job_data.spec spec && same_id j.job_data.spec spec
      then some (record { before = before; entry = j; after = js })
      else rest

  -- The first job of the kind and id, taken out of the list.
  unfoldable pub pop_matching_jctx :
      JobSpec → List (JobCtx S V J B) → Option (JobCtx S V J B × List (JobCtx S V J B))
  unfolding find_matching
  pop_matching_jctx spec jobs = elim (find_matching spec [] jobs) [
    | none ↦ none
    | some z ↦ some (z.entry, z.before ++ z.after)
  ]
