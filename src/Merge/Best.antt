-- ===== src/Merge/Best.antt =====
-- The choice of a winner among result sets: the part of `merge` in resctl-bench/src/merge.rs where
-- not several results are asked for. `K` is `MergeId`, `key` is its kind and id, and `score` the
-- number of sources that are not rejected.
use resctl_demo.Prelude.{ℕ, List, [], ◌∷◌, Option, none, some, ltb, if◌then◌else◌}
use resctl_demo.Prelude.Order.{Ord}
use resctl_demo.Prelude.Outcome.{Outcome, ok, panicked}
use resctl_demo.BTreeMap.{get, insert, is_eq}

-- The entries of `best_mids`.
pub record Best (K : Type 0) : Type 0 where
  pub best_cnt : ℕ
  pub best_mid : K
  -- a set
  pub lost_mids : List (K × Unit {0})

abbrev pub Lost : Type 0 → Type 0
Lost K = List (K × Unit {0})

module _ {K D : Type 0} ⦃o : Ord K⦄ where
  -- The data stay if they are the best ones, with what lost to them.
  unfoldable pub keep_one : K → D → Best K → List (K × (D × Lost K)) → List (K × (D × Lost K))
  keep_one mid d b out =
      if is_eq (o.cmp b.best_mid mid) then insert mid (d, b.lost_mids) out else out

module _ {K D Q : Type 0} ⦃o : Ord K⦄ ⦃q : Ord Q⦄ (key : K → Q) where
  -- Of the merged data those are kept that are the best ones for their key.
  unfoldable pub keep_best :
      List (Q × Best K)
      → List (K × (D × Lost K))
      → List (K × (D × Lost K))
      → Outcome (List (K × (D × Lost K)))
  unfolding keep_one
  keep_best best [] out = ok out
  keep_best best ((mid, (d, lost)) ∷ merged) out = elim (get (key mid) best) [
    | none ↦ panicked
    | some b ↦ keep_best best merged (keep_one mid d b out)
  ]

module _ {K V Q : Type 0} ⦃o : Ord K⦄ ⦃q : Ord Q⦄ (key : K → Q) (score : V → ℕ) where
  unfoldable pub against : K → ℕ → Option (Best K) → Best K
  against mid cnt none = record { best_cnt = cnt; best_mid = mid; lost_mids = [] }
  against mid cnt (some b) =
      if ltb b.best_cnt cnt
      then (record { best_cnt = cnt; best_mid = mid; lost_mids = insert b.best_mid tt b.lost_mids })
      else record b { lost_mids = insert mid tt b.lost_mids }

  unfoldable pub pick_best : List (K × V) → List (Q × Best K) → List (Q × Best K)
  unfolding against
  pick_best [] best = best
  pick_best ((mid, srcs) ∷ sets) best =
      pick_best sets (insert (key mid) (against mid (score srcs) (get (key mid) best)) best)
