-- ===== src/Merge/Hull.antt =====
-- What the benchmarks merge themselves with: `merged_period` and `merged_sysinfo` of
-- resctl-bench/src/merge.rs.
use resctl_demo.Prelude.{
  ℕ, ◌≤◌, ◌<◌, ◌≡◌, refl, List, [], ◌∷◌, Option, none, some, Bool, true, false, ◌&&◌, ◌||◌, ◌==◌,
  if◌then◌else◌, arith, All, min, max, Option-cases, inl, inr, subst, sym,
}
use resctl_demo.Jobs.{u64_max}
use resctl_demo.Merge.{MergeSrc, SysInfo}

abbrev pub Period : Type 0
Period = ℕ × ℕ

abbrev pub init : Period
init = (u64_max, 0)

abbrev zero_if_init : Period → Period
zero_if_init (start, end) = if (start == u64_max) && (end == 0) then (0, 0) else (start, end)

module _ {R V B : Type 0} where
  -- `fold` over the sources that are not rejected
  unfoldable pub fold_periods : List (MergeSrc R V B) → Period → Period
  fold_periods [] acc = acc
  fold_periods (s ∷ srcs) (start, end) = fold_periods srcs (elim s.rejected [
    | none ↦ (min start s.job_data.period.0, max end s.job_data.period.1)
    | some why ↦ (start, end)
  ])

  unfoldable pub merged_period : List (MergeSrc R V B) → Period
  unfolding fold_periods
  merged_period srcs = zero_if_init (fold_periods srcs init)

  unfoldable pub merged_sysinfo : List (MergeSrc R V B) → Option (SysInfo R)
  merged_sysinfo [] = none
  merged_sysinfo (s ∷ srcs) = elim s.rejected [
    | none ↦ some s.job_data.sysinfo
    | some why ↦ merged_sysinfo srcs
  ]

  -- The periods of the sources that are not rejected.
  unfoldable pub accepted_periods : List (MergeSrc R V B) → List Period
  accepted_periods [] = []
  accepted_periods (s ∷ srcs) = elim s.rejected [
    | none ↦ s.job_data.period ∷ accepted_periods srcs
    | some why ↦ accepted_periods srcs
  ]

abbrev pub starts_at : ℕ → List Period → Bool
starts_at t [] = false
starts_at t (p ∷ ps) = (p.0 == t) || starts_at t ps

abbrev pub ends_at : ℕ → List Period → Bool
ends_at t [] = false
ends_at t (p ∷ ps) = (p.1 == t) || ends_at t ps

-- The shortest period that has all of these in it.
pub record IsHull (ps : List Period) (hull : Period) : Type 0 where
  pub within : All (λ p. (hull.0 ≤ p.0) × (p.1 ≤ hull.1)) ps
  pub starts : starts_at hull.0 ps ≡ true
  pub ends : ends_at hull.1 ps ≡ true

fold_list : List Period → Period → Period
fold_list [] acc = acc
fold_list (p ∷ ps) (start, end) = fold_list ps (min start p.0, max end p.1)

fold_list-le :
    (ps : List Period) (start end : ℕ)
    → ((fold_list ps (start, end)).0 ≤ start) × (end ≤ (fold_list ps (start, end)).1)
unfolding fold_list
fold_list-le [] start end = omega arith
fold_list-le (p ∷ ps) start end = omega (arith, fold_list-le ps (min start p.0) (max end p.1))

fold_list-within :
    (ps : List Period) (start end : ℕ)
    → (let hull = fold_list ps (start, end) in All (λ p. (hull.0 ≤ p.0) × (p.1 ≤ hull.1)) ps)
unfolding fold_list
fold_list-within [] start end = tt
fold_list-within (p ∷ ps) start end = (
  (
    omega (arith, fold_list-le ps (min start p.0) (max end p.1)),
    omega (arith, fold_list-le ps (min start p.0) (max end p.1)),
  ),
  fold_list-within ps (min start p.0) (max end p.1),
)

fold_list-starts :
    (ps : List Period) (start end : ℕ)
    → (((fold_list ps (start, end)).0 == start) || starts_at (fold_list ps (start, end)).0 ps)
      ≡ true
unfolding fold_list
fold_list-starts [] start end = ground arith
fold_list-starts (p ∷ ps) start end =
    ground (arith, fold_list-starts ps (min start p.0) (max end p.1))

fold_list-ends :
    (ps : List Period) (start end : ℕ)
    → (((fold_list ps (start, end)).1 == end) || ends_at (fold_list ps (start, end)).1 ps) ≡ true
unfolding fold_list
fold_list-ends [] start end = ground arith
fold_list-ends (p ∷ ps) start end = ground (arith, fold_list-ends ps (min start p.0) (max end p.1))

module _ {R V B : Type 0} where
  fold_periods-eq :
      (srcs : List (MergeSrc R V B)) (acc : Period)
      → fold_periods srcs acc ≡ fold_list (accepted_periods srcs) acc
  unfolding fold_periods fold_list accepted_periods
  fold_periods-eq [] acc = refl
  fold_periods-eq (s ∷ srcs) (start, end) = elim (Option-cases s.rejected) [
    | inl e ↦
        rw (e, fold_periods, accepted_periods, fold_list)
          (fold_periods-eq srcs (min start s.job_data.period.0, max end s.job_data.period.1))
    | inr (why, e) ↦
        rw (e, fold_periods, accepted_periods, fold_list) (fold_periods-eq srcs (start, end))
  ]

abbrev pub IsMergedPeriod : List Period → Period → Type 0
IsMergedPeriod [] merged = merged ≡ (0, 0)
IsMergedPeriod (p ∷ ps) merged = IsHull (p ∷ ps) merged

starts_if :
    (p : Period) (ps : List Period) (r : Period)
    → r.0 ≤ p.0
    → p.0 < u64_max
    → ((r.0 == u64_max) || starts_at r.0 (p ∷ ps)) ≡ true
    → starts_at r.0 (p ∷ ps) ≡ true
starts_if p ps r le lt e = ground (arith, le, lt, e)

ends_if :
    (p : Period) (ps : List Period) (r : Period)
    → p.1 ≤ r.1
    → ((r.1 == 0) || ends_at r.1 (p ∷ ps)) ≡ true
    → ends_at r.1 (p ∷ ps) ≡ true
ends_if p ps r le e = ground (arith, le, e)

zero_if_init-id : (r : Period) → r.0 < u64_max → zero_if_init r ≡ r
zero_if_init-id r h = ground (arith, h)

zero_if_init-IsMergedPeriod :
    (ps : List Period)
    → All (λ p. p.0 < u64_max) ps
    → IsMergedPeriod ps (zero_if_init (fold_list ps init))
unfolding fold_list
zero_if_init-IsMergedPeriod [] h = refl
zero_if_init-IsMergedPeriod (p ∷ ps) (h, _) =
    let r = fold_list (p ∷ ps) init in
    let (le, ge) = (fold_list-within (p ∷ ps) u64_max 0).0 in
    subst (IsHull (p ∷ ps)) (sym (zero_if_init-id r (omega (arith, le, h)))) (record {
      within = fold_list-within (p ∷ ps) u64_max 0;
      starts = starts_if p ps r le h (fold_list-starts (p ∷ ps) u64_max 0);
      ends = ends_if p ps r ge (fold_list-ends (p ∷ ps) u64_max 0);
    })

module _ {R V B : Type 0} where
  -- `merged_period` is the shortest period that has those of all sources in it that are not
  -- rejected, and zero if there are none. No time is the largest `u64`.
  pub merged_period-IsMergedPeriod :
      (srcs : List (MergeSrc R V B))
      → All (λ p. p.0 < u64_max) (accepted_periods srcs)
      → IsMergedPeriod (accepted_periods srcs) (merged_period srcs)
  unfolding merged_period
  merged_period-IsMergedPeriod srcs h =
      subst (λ r. IsMergedPeriod (accepted_periods srcs) (zero_if_init r))
        (sym (fold_periods-eq srcs init)) (zero_if_init-IsMergedPeriod (accepted_periods srcs) h)
