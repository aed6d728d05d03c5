-- ===== src/Jobs/Numbers.antt =====
-- Numbers in lists of jobs, as resctl-bench/src/job.rs keeps them: how many jobs have a number, how
-- many of these are used, and what `by_uid` finds.
use resctl_demo.Prelude.{
  ℕ, ◌+◌, ◌≤◌, ◌<◌, ◌≡◌, refl, suc, List, [], ◌∷◌, ◌++◌, Option, none, some, Bool, true, false,
  ◌&&◌, ◌==◌, if◌then◌else◌, arith, All,
}
use resctl_demo.Jobs.{JobData, JobCtx, by_uid}

module _ {S V J B : Type 0} where
  unfoldable pub count_uid : ℕ → List (JobCtx S V J B) → ℕ
  count_uid k [] = 0
  count_uid k (j ∷ js) = if j.uid == k then suc (count_uid k js) else count_uid k js

  unfoldable pub count_used : ℕ → List (JobCtx S V J B) → ℕ
  count_used k [] = 0
  count_used k (j ∷ js) = if j.used && (j.uid == k) then suc (count_used k js) else count_used k js

  abbrev pub data_in : Option (JobCtx S V J B) → Option (JobData S V)
  data_in none = none
  data_in (some j) = some j.job_data

  abbrev pub used_in : Option (JobCtx S V J B) → Bool
  used_in none = false
  used_in (some j) = j.used

  pub count_uid-append :
      (k : ℕ) (xs ys : List (JobCtx S V J B))
      → count_uid k (xs ++ ys) ≡ count_uid k xs + count_uid k ys
  unfolding count_uid
  count_uid-append k [] ys = omega arith
  count_uid-append k (x ∷ xs) ys = ground (arith, count_uid-append k xs ys)

  pub count_used-append :
      (k : ℕ) (xs ys : List (JobCtx S V J B))
      → count_used k (xs ++ ys) ≡ count_used k xs + count_used k ys
  unfolding count_used
  count_used-append k [] ys = omega arith
  count_used-append k (x ∷ xs) ys = ground (arith, count_used-append k xs ys)

  pub count_used-le : (k : ℕ) (xs : List (JobCtx S V J B)) → count_used k xs ≤ count_uid k xs
  unfolding count_uid count_used
  count_used-le k [] = omega arith
  count_used-le k (x ∷ xs) = ground (arith, count_used-le k xs)

  -- Every number is below `n`, and none is zero.
  abbrev pub AreBelow : ℕ → List (JobCtx S V J B) → Type 0
  AreBelow n = All (λ j. (0 < j.uid) × (j.uid < n))

  pub count_uid-AreBelow :
      (k n : ℕ) (xs : List (JobCtx S V J B)) → n ≤ k → AreBelow n xs → count_uid k xs ≡ 0
  unfolding count_uid
  count_uid-AreBelow k n [] h b = refl
  count_uid-AreBelow k n (x ∷ xs) h b = ground (arith, count_uid-AreBelow k n xs h b.1)

  -- The only job with its number is found.
  pub by_uid-middle :
      (xs : List (JobCtx S V J B)) (j : JobCtx S V J B) (ys : List (JobCtx S V J B))
      → count_uid j.uid xs ≡ 0
      → by_uid j.uid (xs ++ j ∷ ys) ≡ some j
  unfolding by_uid count_uid
  by_uid-middle [] j ys h = ground arith
  by_uid-middle (x ∷ xs) j ys h = ground (arith, by_uid-middle xs j ys)

  pub data_in-append :
      (k : ℕ) (xs ys : List (JobCtx S V J B)) (d : JobData S V)
      → data_in (by_uid k xs) ≡ some d
      → data_in (by_uid k (xs ++ ys)) ≡ some d
  unfolding by_uid
  data_in-append k [] ys d h = cc
  data_in-append k (x ∷ xs) ys d h = ground (arith, data_in-append k xs ys d)

  pub used_in-append :
      (k : ℕ) (xs ys : List (JobCtx S V J B))
      → used_in (by_uid k xs) ≡ true
      → used_in (by_uid k (xs ++ ys)) ≡ true
  unfolding by_uid
  used_in-append k [] ys h = cc
  used_in-append k (x ∷ xs) ys h = ground (arith, used_in-append k xs ys)

  -- A job in the middle that is marked as used.
  module _ (k : ℕ) (j : JobCtx S V J B) (ys : List (JobCtx S V J B)) where
    pub data_in-mark :
        (xs : List (JobCtx S V J B))
        → data_in (by_uid k (xs ++ record j { used = true } ∷ ys))
          ≡ data_in (by_uid k (xs ++ j ∷ ys))
    unfolding by_uid
    data_in-mark [] = ground arith
    data_in-mark (x ∷ xs) = ground (arith, data_in-mark xs)

    pub used_in-mark :
        (xs : List (JobCtx S V J B))
        → used_in (by_uid k (xs ++ j ∷ ys)) ≡ true
        → used_in (by_uid k (xs ++ record j { used = true } ∷ ys)) ≡ true
    unfolding by_uid
    used_in-mark [] h = ground arith
    used_in-mark (x ∷ xs) h = ground (arith, used_in-mark xs)
