-- ===== src/Jobs/Linked/Steps.antt =====
-- One call of `parse_job_spec_and_link` of resctl-bench/src/job.rs.
use resctl_demo.Prelude.{
  ℕ, ◌+◌, ◌≤◌, ◌<◌, ◌≡◌, refl, sym, ap, suc, List, [], ◌∷◌, ◌++◌, Option, none, some, Bool, true,
  false, ◌&&◌, ◌==◌, not, if◌then◌else◌, arith, All, All-replace, All-append, All-map, length, inl,
  inr, Bool-cases, ◌∙◌, subst,
}
use mathlib.Core.List.{append_assoc}
use resctl_demo.Prelude.Outcome.{Outcome, ok, panicked}
use resctl_demo.Prelude.Words.{u64_mod}
use resctl_demo.JobSpec.{JobSpec}
use resctl_demo.JobSpec.Compatible.{compatible-Returns}
use resctl_demo.Jobs.{
  JobData, JobCtx, Benches, Found, matches, find_matching_unused_prev, replaced, weak_clone, by_uid,
  u64_max, same_kind, same_id,
}
use resctl_demo.Jobs.Links.{Jobs, link}
use resctl_demo.Jobs.Numbers.{
  AreBelow, count_uid, count_used, data_in, used_in, count_uid-append, count_used-append,
  count_used-le, count_uid-AreBelow, by_uid-middle, data_in-append, used_in-append, data_in-mark,
  used_in-mark,
}

abbrev pub HasGroups : JobSpec → Type 0
HasGroups spec = 0 < length spec.props

module _ {S V J B : Type 0} where
  abbrev pub HaveGroups : List (JobCtx S V J B) → Type 0
  HaveGroups = All (λ j. HasGroups j.job_data.spec)

  -- A previous job for the spec that is not used yet.
  pub record IsPrev (spec : JobSpec) (j : JobCtx S V J B) : Type 0 where
    pub unused : j.used ≡ false
    pub kind : j.job_data.spec.kind ≡ spec.kind
    pub id : j.job_data.spec.id ≡ spec.id

  abbrev pub FindsPrev :
      JobSpec → List (JobCtx S V J B) → Outcome (Option (Found (JobCtx S V J B))) → Type 0
  FindsPrev spec js panicked = ⊥
  FindsPrev spec js (ok none) = Unit
  FindsPrev spec js (ok (some z)) = (js ≡ z.before ++ z.entry ∷ z.after) × IsPrev spec z.entry

  matches-Returns :
      (spec : JobSpec) (j : JobCtx S V J B)
      → HasGroups spec
      → HasGroups j.job_data.spec
      → (b : Bool) × (matches spec j ≡ ok b)
  unfolding matches
  matches-Returns spec j h k =
      let (c, e) = compatible-Returns j.job_data.spec spec k h in
      (
        if not j.used && same_kind j.job_data.spec spec && same_id j.job_data.spec spec
            then (if j.incremental then true else c)
            else false,
        ground (arith, e),
      )

  matches-IsPrev : (spec : JobSpec) (j : JobCtx S V J B) → matches spec j ≡ ok true → IsPrev spec j
  unfolding matches
  matches-IsPrev spec j h = record { unused = ground arith; kind = ground arith; id = ground arith }

  pub find-FindsPrev :
      (spec : JobSpec) (before js : List (JobCtx S V J B))
      → HasGroups spec
      → HaveGroups js
      → FindsPrev spec (before ++ js) (find_matching_unused_prev spec before js)
  unfolding find_matching_unused_prev
  find-FindsPrev spec before [] h k = tt
  find-FindsPrev spec before (j ∷ js) h k =
      let (b, e) = matches-Returns spec j h k.0 in
      let rest : FindsPrev spec (before ++ j ∷ js)
          (find_matching_unused_prev spec (before ++ j ∷ []) js) =
        subst (λ xs. FindsPrev spec xs (find_matching_unused_prev spec (before ++ j ∷ []) js))
          (append_assoc before (j ∷ []) js) (find-FindsPrev spec (before ++ j ∷ []) js h k.1) in
      elim (Bool-cases b) [
        | inl p ↦ rw (e, p) (refl, matches-IsPrev spec j (e ∙ ap ok p))
        | inr p ↦ rw (e, p) rest
      ]

  pub record IsNumbered (jobs : Jobs (JobCtx S V J B)) : Type 0 where
    pub distinct : (k : ℕ) → count_uid k jobs.vec ≤ 1
    pub below : AreBelow jobs.next_uid jobs.vec
    pub positive : 0 < jobs.next_uid

  -- The previous results of a job are in the list, of its kind and id, and marked as used.
  abbrev pub IsLinked : JobCtx S V J B → List (JobCtx S V J B) → Type 0
  IsLinked p js =
      (d : JobData S V) × (data_in (by_uid p.uid js) ≡ some d)
      × (used_in (by_uid p.uid js) ≡ true)
      × (d.spec.kind ≡ p.job_data.spec.kind)
      × (d.spec.id ≡ p.job_data.spec.id)

  pub record IsStep (spec : JobSpec) (jobs : Jobs (JobCtx S V J B)) (p : JobCtx S V J B)
      (jobs' : Jobs (JobCtx S V J B)) : Type 0 where
    pub spec_is : p.job_data.spec ≡ spec
    pub numbered : IsNumbered jobs'
    pub next_uid : jobs'.next_uid ≤ jobs.next_uid + 1
    pub groups : HaveGroups jobs'.vec
    pub used :
        (k : ℕ)
        → count_used k jobs'.vec
          ≡ (if p.uid == k then suc (count_used k jobs.vec) else count_used k jobs.vec)
    pub kept :
        (k : ℕ) (d : JobData S V)
        → data_in (by_uid k jobs.vec) ≡ some d
        → data_in (by_uid k jobs'.vec) ≡ some d
    pub used_kept :
        (k : ℕ) → used_in (by_uid k jobs.vec) ≡ true → used_in (by_uid k jobs'.vec) ≡ true
    pub linked : IsLinked p jobs'.vec

  module _ (bs : Benches S V J B) (spec : JobSpec) (n : ℕ) where
    pub link_found-IsStep :
        (z : Found (JobCtx S V J B)) (new' : JobCtx S V J B)
        → (let jobs : Jobs (JobCtx S V J B) = record {
          vec = z.before ++ z.entry ∷ z.after;
          next_uid = n;
        } in
            IsNumbered jobs
            → HaveGroups jobs.vec
            → IsPrev spec z.entry
            → new'.job_data.spec ≡ spec
            → IsStep spec jobs (link bs (some z) new' jobs).0 (link bs (some z) new' jobs).1)
    unfolding link replaced count_uid count_used
    link_found-IsStep z new' num g prev is =
        let e = z.entry in
        let e' : JobCtx S V J B = record e { used = true } in
        let free : count_uid e.uid z.before ≡ 0 =
          ground (arith, num.distinct e.uid, count_uid-append e.uid z.before (e ∷ z.after)) in
        let here = by_uid-middle z.before e' z.after free in
        record {
          spec_is = is;
          numbered = record {
            distinct = λ k. ground (
              arith,
              num.distinct k,
              count_uid-append k z.before (e ∷ z.after),
              count_uid-append k z.before (e' ∷ z.after),
            );
            below =
                All-replace _ z.before z.entry (record z.entry { used = true }) z.after (λ h. h)
                  num.below;
            positive = num.positive;
          };
          next_uid = omega arith;
          groups =
              All-replace _ z.before z.entry (record z.entry { used = true }) z.after (λ h. h) g;
          used = λ k. ground (
            arith,
            prev.unused,
            count_used-append k z.before (e ∷ z.after),
            count_used-append k z.before (e' ∷ z.after),
          );
          kept = λ k d e. data_in-mark k z.entry z.after z.before ∙ e;
          used_kept = λ k e. used_in-mark k z.entry z.after z.before e;
          linked = (
            e.job_data,
            ap data_in here,
            ap used_in here,
            prev.kind ∙ sym (ap (λ s. s.kind) is),
            prev.id ∙ sym (ap (λ s. s.id) is),
          );
        }

    pub link_new-IsStep :
        (vec : List (JobCtx S V J B)) (new' : JobCtx S V J B)
        → (let jobs : Jobs (JobCtx S V J B) = record { vec = vec; next_uid = n } in
            IsNumbered jobs
            → HaveGroups vec
            → HasGroups spec
            → new'.job_data.spec ≡ spec
            → n + 1 < u64_mod
            → IsStep spec jobs (link bs none new' jobs).0 (link bs none new' jobs).1)
    unfolding link weak_clone count_uid count_used
    link_new-IsStep vec new' num g has is small =
        let new' : JobCtx S V J B = record new' { uid = n } in
        let e : JobCtx S V J B = record new' {
          bench = none;
          job = none;
          used = true;
          update_seq = u64_max;
        } in
        let free : count_uid n vec ≡ 0 = count_uid-AreBelow n n vec (omega arith) num.below in
        let here : by_uid n (vec ++ e ∷ []) ≡ some e = by_uid-middle vec e [] free in
        record {
          spec_is = is;
          numbered = record {
            distinct = λ k. ground (arith, free, num.distinct k, count_uid-append k vec (e ∷ []));
            below =
                All-append _ vec (e ∷ [])
                  (All-map _ _ vec (λ j h. (h.0, omega (arith, h.1))) num.below)
                  ((num.positive, omega arith), tt);
            positive = omega arith;
          };
          next_uid = omega arith;
          groups = All-append _ vec (e ∷ []) g (rw is has, tt);
          used = λ k. ground (arith, free, count_used-append k vec (e ∷ []), count_used-le k vec);
          kept = λ k d e'. data_in-append k vec (e ∷ []) d e';
          used_kept = λ k e'. used_in-append k vec (e ∷ []) e';
          linked = (e.job_data, ap data_in here, ap used_in here, refl, refl);
        }
