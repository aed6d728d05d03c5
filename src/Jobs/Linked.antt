-- ===== src/Jobs/Linked.antt =====
-- What the loop of `do_run` in resctl-bench/src/main.rs collects.
pub mod Steps
mod Parses
mod Calls
use mathlib.Core.List.{append_assoc, append-nil, map-append}
use resctl_demo.Prelude.{
  ℕ, ◌+◌, ◌≤◌, ◌<◌, ◌≡◌, refl, sym, ap, ap₂, ◌∙◌, subst, suc, List, [], ◌∷◌, ◌++◌, Option, none,
  some, true, arith, ◌==◌, if◌then◌else◌, All, All-append, All-map, length, map, ◌⊎◌, inl, inr,
  Option-cases,
}
use resctl_demo.Prelude.Outcome.{Outcome, ok, panicked, ◌>>=◌}
use resctl_demo.Prelude.Words.{u64_mod}
use resctl_demo.JobSpec.{JobSpec}
use resctl_demo.Jobs.{JobData, JobCtx, Benches, by_uid}
use resctl_demo.Jobs.Links.{Jobs, parse_job_spec_and_link, collect}
use resctl_demo.Jobs.Numbers.{
  count_uid, count_used, count_uid-append, count_used-le, data_in, used_in,
}
use resctl_demo.Jobs.Linked.Steps.{HasGroups, HaveGroups, IsNumbered, IsLinked, IsStep}
use resctl_demo.Jobs.Linked.Calls.{Fails, Links, parse_job_spec_and_link-Links}

still_kept :
    {D : Type 0} {a b c : Option D} (k : ℕ)
    → (a ≡ none) ⊎ (b ≡ a)
    → ((d : D) → b ≡ some d → c ≡ some d)
    → (a ≡ none) ⊎ (c ≡ a)
still_kept k (inl e) f = inl e
still_kept {a} k (inr e) f = elim (Option-cases a) [
  | inl p ↦ inl p
  | inr (d, p) ↦ inr (f d (e ∙ p) ∙ sym p)
]

module _ {S V J B : Type 0} where
  -- What the loop has collected for `specs` when the list of jobs was `before`.
  pub record AreCollected (specs : List JobSpec) (before : Jobs (JobCtx S V J B))
      (pending : List (JobCtx S V J B)) (after : Jobs (JobCtx S V J B)) : Type 0 where
    pub specs_are : map (λ p. p.job_data.spec) pending ≡ specs
    pub numbered : IsNumbered after
    pub groups : HaveGroups after.vec
    -- each number is taken by one more used job for every job to run that has it
    pub taken : (k : ℕ) → count_uid k pending + count_used k before.vec ≡ count_used k after.vec
    pub linked : All (λ p. IsLinked p after.vec) pending
    pub kept :
        (k : ℕ)
        → (data_in (by_uid k before.vec) ≡ none)
          ⊎ (data_in (by_uid k after.vec) ≡ data_in (by_uid k before.vec))

  IsLinked-kept :
      (spec : JobSpec) (jobs : Jobs (JobCtx S V J B)) (q : JobCtx S V J B)
      (jobs' : Jobs (JobCtx S V J B))
      → IsStep spec jobs q jobs'
      → (p : JobCtx S V J B) → IsLinked p jobs.vec
      → IsLinked p jobs'.vec
  IsLinked-kept spec jobs q jobs' h p (d, here, used, kind, id) =
      (d, h.kept p.uid d here, h.used_kept p.uid used, kind, id)

  AreCollected-next :
      (specs : List JobSpec) (before : Jobs (JobCtx S V J B)) (pending : List (JobCtx S V J B))
      (jobs : Jobs (JobCtx S V J B)) (spec : JobSpec) (p : JobCtx S V J B)
      (jobs' : Jobs (JobCtx S V J B))
      → AreCollected specs before pending jobs
      → IsStep spec jobs p jobs'
      → AreCollected (specs ++ spec ∷ []) before (pending ++ p ∷ []) jobs'
  unfolding count_uid
  AreCollected-next specs before pending jobs spec p jobs' c h = record {
    specs_are = map-append _ pending (p ∷ []) ∙ ap₂ (λ xs x. xs ++ x ∷ []) c.specs_are h.spec_is;
    numbered = h.numbered;
    groups = h.groups;
    taken = λ k. ground (arith, c.taken k, h.used k, count_uid-append k pending (p ∷ []));
    linked =
        All-append _ pending (p ∷ [])
          (All-map _ _ pending (IsLinked-kept spec jobs p jobs' h) c.linked) (h.linked, tt);
    kept = λ k. still_kept k (c.kept k) (h.kept k);
  }

module _ {S V J B : Type 0} (bs : Benches S V J B) where
  -- A spec of the list cannot be parsed.
  abbrev pub SomeFails : List JobSpec → Type 0
  SomeFails [] = ⊥
  SomeFails (spec ∷ specs) = Fails bs spec ⊎ SomeFails specs

  abbrev pub Collects :
      List JobSpec
      → List JobSpec
      → Jobs (JobCtx S V J B)
      → Outcome (Option (List (JobCtx S V J B) × Jobs (JobCtx S V J B)))
      → Type 0
  Collects specs left before panicked = ⊥
  Collects specs left before (ok none) = SomeFails left
  Collects specs left before (ok (some (pending, after))) = AreCollected specs before pending after

  -- The bound on the numbers.
  Collects-next :
      (done left : List JobSpec) (spec : JobSpec) (before : Jobs (JobCtx S V J B))
      (o : Outcome (Option (List (JobCtx S V J B) × Jobs (JobCtx S V J B))))
      → Collects ((done ++ spec ∷ []) ++ left) left before o
      → Collects (done ++ spec ∷ left) (spec ∷ left) before o
  Collects-next done left spec before panicked h = h
  Collects-next done left spec before (ok none) h = inr h
  Collects-next done left spec before (ok (some (pending, after))) h =
      subst (λ specs. AreCollected specs before pending after) (append_assoc done (spec ∷ []) left)
        h

  -- The rest of the loop after one call.
  collect_next :
      (done : List JobSpec) (spec : JobSpec) (specs : List JobSpec) (before : Jobs (JobCtx S V J B))
      (pending : List (JobCtx S V J B)) (jobs : Jobs (JobCtx S V J B))
      → AreCollected done before pending jobs
      → (r : Outcome (Option (JobCtx S V J B × Jobs (JobCtx S V J B)))) → Links bs spec jobs r
      → ((p : JobCtx S V J B) (jobs' : Jobs (JobCtx S V J B))
          → jobs'.next_uid ≤ jobs.next_uid + 1
          → AreCollected (done ++ spec ∷ []) before (pending ++ p ∷ []) jobs'
          → Collects
              ((done ++ spec ∷ []) ++ specs)
              specs
              before
              (collect bs specs (pending ++ p ∷ []) jobs'))
      → Collects (done ++ spec ∷ specs) (spec ∷ specs) before (
          r >>= λ linked. elim linked [
            | none ↦ ok none
            | some (j, jobs') ↦ collect bs specs (pending ++ j ∷ []) jobs'
          ])
  collect_next done spec specs before pending jobs c panicked f rest = f
  collect_next done spec specs before pending jobs c (ok none) f rest = inl f
  collect_next done spec specs before pending jobs c (ok (some (p, jobs'))) f rest =
      Collects-next done specs spec before (collect bs specs (pending ++ p ∷ []) jobs')
        (rest p jobs' f.next_uid (AreCollected-next done before pending jobs spec p jobs' c f))

  collect-rest :
      (done specs : List JobSpec) (before : Jobs (JobCtx S V J B)) (pending : List (JobCtx S V J B))
      (jobs : Jobs (JobCtx S V J B))
      → All HasGroups specs
      → jobs.next_uid + length specs < u64_mod
      → AreCollected done before pending jobs
      → Collects (done ++ specs) specs before (collect bs specs pending jobs)
  unfolding collect
  collect-rest done [] before pending jobs g small c =
      subst (λ specs. AreCollected specs before pending jobs) (sym (append-nil done)) c
  collect-rest done (spec ∷ specs) before pending jobs g small c =
      collect_next done spec specs before pending jobs c (parse_job_spec_and_link bs spec jobs)
        (parse_job_spec_and_link-Links bs spec jobs c.numbered c.groups g.0 (omega arith))
        (λ p jobs' next.
          collect-rest (done ++ spec ∷ []) specs before (pending ++ p ∷ []) jobs' g.1 (omega arith))

  -- `do_run` collects the jobs to run without a panic. Unless a spec cannot be parsed, which ends the
  -- program, there is one for each spec, in order. Each has previous results in the list, of its kind
  -- and id, which are marked as used, and no two have the same ones: a used entry is added for every
  -- job that has its number. The numbers in the list stay distinct and the data of all previous
  -- results are kept. Every spec has a first group of properties and the numbers do not run out.
  pub collect-Collects :
      (specs : List JobSpec) (jobs : Jobs (JobCtx S V J B))
      → IsNumbered jobs
      → HaveGroups jobs.vec
      → All HasGroups specs
      → jobs.next_uid + length specs < u64_mod
      → Collects specs specs jobs (collect bs specs [] jobs)
  unfolding count_uid
  collect-Collects specs jobs num groups has small =
      collect-rest [] specs jobs [] jobs has small (record {
        specs_are = refl;
        numbered = num;
        groups = groups;
        taken = λ k. ground arith;
        linked = tt;
        kept = λ k. inr refl;
      })
