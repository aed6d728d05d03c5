-- ===== src/Merge/Chosen/Kept.antt =====
-- The loop of `merge` in resctl-bench/src/merge.rs that keeps the best results.
use resctl_demo.Prelude.{
  ◌≡◌, refl, List, [], ◌∷◌, Option, none, some, true, ◌&&◌, if◌then◌else◌, arith, All, Option-cases,
  inl, inr,
}
use resctl_demo.Prelude.Outcome.{ok}
use resctl_demo.Prelude.Order.{Ord}
use resctl_demo.BTreeMap.{get, is_eq, get-insert}
use resctl_demo.BTreeMap.Sorted.{IsSorted, get-Before}
use resctl_demo.BTreeMap.{is_some}
use resctl_demo.Merge.Best.{Best, Lost, keep_one, keep_best}

module _ {K D Q : Type 0} ⦃o : Ord K⦄ ⦃q : Ord Q⦄ (key : K → Q) (best : List (Q × Best K)) where
  abbrev pub kept_of : K → D × Lost K → Option (Best K) → Option (D × Lost K) → Option (D × Lost K)
  kept_of mid v none out = out
  kept_of mid v (some b) out = if is_eq (o.cmp b.best_mid mid) then some (v.0, b.lost_mids) else out

  -- What there is for an id, from its merged data and what there was.
  abbrev pub kept : K → Option (D × Lost K) → Option (D × Lost K) → Option (D × Lost K)
  kept mid none out = out
  kept mid (some v) out = kept_of mid v (get (key mid) best) out

  abbrev pub HaveBest : List (K × (D × Lost K)) → Type 0
  HaveBest = All (λ e. is_some (get (key e.0) best) ≡ true)

  get-keep_one :
      (m mid : K) (d : D) (b : Best K) (out : List (K × (D × Lost K)))
      → get m (keep_one mid d b out) ≡ (
          if is_eq (o.cmp b.best_mid mid) && is_eq (o.cmp m mid)
          then some (d, b.lost_mids)
          else get m out)
  unfolding keep_one
  get-keep_one m mid d b out = ground (arith, get-insert mid m (d, b.lost_mids) out)

  pub keep_best-Kept :
      (merged out : List (K × (D × Lost K)))
      → IsSorted merged
      → HaveBest merged
      → (res : List (K × (D × Lost K))) × (keep_best key best merged out ≡ ok res)
        × ((m : K) → get m res ≡ kept m (get m merged) (get m out))
  unfolding keep_best get
  keep_best-Kept [] out s h = (out, refl, λ m. refl)
  keep_best-Kept ((mid, (d, lost)) ∷ merged) out s h = elim (Option-cases (get (key mid) best)) [
    | inl e ↦ ground (arith, e, h.0)
    | inr (b, e) ↦
        (let (res, is, gets) = keep_best-Kept merged (keep_one mid d b out) s.1 h.1 in
          (
            res,
            rw (e, keep_best) is,
            λ m. ground (
              arith,
              e,
              gets m,
              get-keep_one m mid d b out,
              get-Before mid merged s.0,
              o.eq_iff m mid,
            ),
          ))
  ]
