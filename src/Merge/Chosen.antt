-- ===== src/Merge/Chosen.antt =====
-- Which results the merging in resctl-bench/src/merge.rs keeps.
mod Kept
mod Loaded
mod Inputs
use resctl_demo.Prelude.{
  ℕ, ◌≡◌, ◌≢◌, refl, sym, ap, ◌∙◌, subst, List, [], Option, none, some, Bool, true, false, arith,
  All, Option-cases, Bool-cases, ◌⊎◌, inl, inr, if◌then◌else◌,
}
use resctl_demo.Prelude.Outcome.{Outcome, ok, panicked, ◌>>=◌}
use resctl_demo.Prelude.Order.{cmp_refl, option_ord, pair_ord}
use resctl_demo.Text.{Text, text_ord}
use resctl_demo.BTreeMap.{get, insert, is_eq, is_some}
use resctl_demo.BTreeMap.Sorted.{IsSorted, All-keys}
use resctl_demo.Jobs.{JobData}
use resctl_demo.Merge.{MergeId, merge_id_ord, MergeOps, MergeSrc, SysInfo, Args, Sets, add_files}
use resctl_demo.Merge.Best.{Best, Lost, pick_best, keep_best}
use resctl_demo.Merge.Champions.{IsChampion, HasChampion, pick_best-HasChampion}
use resctl_demo.Merge.Run.{Merged, nr_accepted, kind_and_id, merge_all, choose, merged_results}
use resctl_demo.Merge.Chosen.Kept.{HaveBest, kept, kept_of, keep_best-Kept}
use resctl_demo.Merge.Chosen.Loaded.{AreSets, LoadsSets, add_files-LoadsSets}
use resctl_demo.Merge.Chosen.Inputs.{
  CannotMerge, AreFrom, AreMerged, MergedFrom-some, Merges, merge_all-Merges,
}

module _ {R V J B : Type 0} (ops : MergeOps R V J B) where
  -- A set wins among those with its kind and id when no other one has more sources that are not
  -- rejected, or as many and comes first.
  abbrev pub Wins : Sets ops → MergeId → Best MergeId → Type 0
  Wins sets mid b = IsChampion kind_and_id nr_accepted (kind_and_id mid) sets b

  -- The results for an id: the merged data of a winner, with the ids that lost to it, or else none.
  abbrev pub ChosenFor :
      Sets ops
      → MergeId
      → Option (JobData (SysInfo R) V × Lost MergeId)
      → Option (JobData (SysInfo R) V × Lost MergeId)
      → Type 0
  ChosenFor sets mid merged none =
      (get mid sets ≡ none) ⊎ ((b : Best MergeId) × Wins sets mid b × (b.best_mid ≢ mid))
  ChosenFor sets mid none (some chosen) = ⊥
  ChosenFor sets mid (some (d, _)) (some chosen) =
      (b : Best MergeId) × Wins sets mid b × (b.best_mid ≡ mid) × (chosen ≡ (d, b.lost_mids))

  abbrev pub AreChosen : Sets ops → Merged R V → Merged R V → Type 0
  AreChosen sets merged chosen =
      (mid : MergeId) → ChosenFor sets mid (get mid merged) (get mid chosen)

  -- The winners.
  abbrev bests : Sets ops → List ((Text × Option Text) × Best MergeId)
  bests sets = pick_best kind_and_id nr_accepted sets []

  has_best :
      (sets : Sets ops) (mid : MergeId)
      → IsSorted sets
      → is_some (get mid sets) ≡ true
      → (b : Best MergeId) × (get (kind_and_id mid) (bests sets) ≡ some b) × Wins sets mid b
  has_best sets mid s h =
      let k = kind_and_id mid in
      let c = pick_best-HasChampion kind_and_id nr_accepted sets k s in
      elim (Option-cases (get k (bests sets))) [
        | inl e ↦
            (let no = subst (HasChampion kind_and_id nr_accepted k sets) e c in
              ground (arith, no mid, h, cmp_refl k))
        | inr (b, e) ↦ (b, e, subst (HasChampion kind_and_id nr_accepted k sets) e c)
      ]

  kept-ChosenFor :
      (sets : Sets ops) (mid : MergeId) (v out : Option (JobData (SysInfo R) V × Lost MergeId))
      → IsSorted sets
      → is_some v ≡ is_some (get mid sets)
      → out ≡ kept kind_and_id (bests sets) mid v none
      → ChosenFor sets mid v out
  kept-ChosenFor sets mid none out s h e =
      subst (ChosenFor sets mid none) (sym e) (inl (ground (arith, h)))
  kept-ChosenFor sets mid (some (d, l)) out s h e =
      let (b, found, w) = has_best sets mid s (sym h) in
      let g = ap (λ o. kept_of kind_and_id (bests sets) mid (d, l) o none) found in
      let pick : Bool → Option (JobData (SysInfo R) V × Lost MergeId) =
        λ c. if c then some (d, b.lost_mids) else none in
      elim (Bool-cases (is_eq (merge_id_ord.cmp b.best_mid mid))) [
        | inl p ↦
            subst (ChosenFor sets mid (some (d, l))) (sym (e ∙ g ∙ ap pick p))
              (b, w, ground (arith, p, merge_id_ord.eq_iff b.best_mid mid), refl)
        | inr p ↦
            subst (ChosenFor sets mid (some (d, l))) (sym (e ∙ g ∙ ap pick p))
              (inr (b, w, λ q. ground (arith, p, merge_id_ord.eq_iff b.best_mid mid, q)))
      ]

  choose-AreChosen :
      (args : Args) (loaded sets : Sets ops) (merged : Merged R V)
      → args.merge_multiple ≡ false
      → AreMerged ops loaded sets merged
      → (chosen : Merged R V) × (choose ops args sets merged ≡ ok chosen)
        × AreChosen sets merged chosen
  unfolding choose get
  choose-AreChosen args loaded sets merged one m =
      let same = λ (k : MergeId).
        MergedFrom-some ops (get k loaded) (get k sets) (get k merged) (m.from k) in
      let has =
        All-keys (λ k. is_some (get (kind_and_id k) (bests sets))) merged
          (λ k g.
            (let (b, e, w) = has_best sets k m.sets_sorted (sym (same k) ∙ g) in ap is_some e)) in
      let (chosen, is, gets) = keep_best-Kept kind_and_id (bests sets) merged [] m.sorted has in
      (
        chosen,
        rw (one, choose) is,
        λ mid.
            kept-ChosenFor sets mid (get mid merged) (get mid chosen) m.sets_sorted (same mid)
              (gets mid),
      )

  -- A merge from files. If it fails a file cannot be loaded or a benchmark cannot merge some
  -- sources, and it only panics while the files are loaded.
  abbrev pub ResultsAre : Args → Outcome (Option (Sets ops × Merged R V)) → Type 0
  ResultsAre args panicked = add_files ops args args.merge_srcs [] ≡ panicked
  ResultsAre args (ok none) = (add_files ops args args.merge_srcs [] ≡ ok none) ⊎ CannotMerge ops
  ResultsAre args (ok (some (sets, chosen))) =
      (loaded : Sets ops) × (merged : Merged R V) × (add_files ops args args.merge_srcs []
        ≡ ok (some loaded))
      × AreFrom ops loaded sets merged
      × AreChosen sets merged chosen

  choose-ResultsAre :
      (args : Args) (loaded : Sets ops) (o : Outcome (Option (Sets ops × Merged R V)))
      → args.merge_multiple ≡ false
      → add_files ops args args.merge_srcs [] ≡ ok (some loaded)
      → Merges ops loaded o
      → ResultsAre args (
          o >>= λ res. elim res [
            | none ↦ ok none
            | some (sets, merged) ↦
                choose ops args sets merged >>= λ merged. ok (some (sets, merged))
          ])
  choose-ResultsAre args loaded panicked one e m = absurd m
  choose-ResultsAre args loaded (ok none) one e m = inr m
  choose-ResultsAre args loaded (ok (some (sets, merged))) one e m =
      let (chosen, is, are) = choose-AreChosen args loaded sets merged one m in
      rw (is, ResultsAre) (loaded, merged, e, m.from, are)

  loaded-ResultsAre :
      (args : Args) (o : Outcome (Option (Sets ops)))
      → args.merge_multiple ≡ false
      → add_files ops args args.merge_srcs [] ≡ o
      → LoadsSets ops o
      → ResultsAre args (
          o >>= λ sets. elim sets [
            | none ↦ ok none
            | some sets ↦ merge_all ops [] sets [] >>= λ res. elim res [
              | none ↦ ok none
              | some (sets, merged) ↦
                  choose ops args sets merged >>= λ merged. ok (some (sets, merged))
            ]
          ])
  loaded-ResultsAre args panicked one e l = e
  loaded-ResultsAre args (ok none) one e l = inl e
  loaded-ResultsAre args (ok (some sets)) one e (sorted, filled) =
      choose-ResultsAre args sets (merge_all ops [] sets []) one e
        (merge_all-Merges ops sets sorted filled)

  -- Where only one result is asked for, the merge of files merges each set of loaded sources by the
  -- benchmark of its first source. For each kind and id it keeps just the merged data of the set
  -- with the most sources that are not rejected then, the first of these in the order of the ids,
  -- and says of it exactly which other sets of that kind and id lost to it. It fails only if a file
  -- cannot be loaded or a benchmark cannot merge some sources, and panics only while the files are
  -- loaded.
  pub merged_results-ResultsAre :
      (args : Args) → args.merge_multiple ≡ false → ResultsAre args (merged_results ops args)
  unfolding merged_results
  merged_results-ResultsAre args one =
      loaded-ResultsAre args (add_files ops args args.merge_srcs []) one refl
        (add_files-LoadsSets ops args args.merge_srcs [] (tt, tt))
