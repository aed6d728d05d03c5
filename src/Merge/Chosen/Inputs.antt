-- ===== src/Merge/Chosen/Inputs.antt =====
-- The loop of `merge` in resctl-bench/src/merge.rs in which benchmarks merge their result sets.
use mathlib.Core.List.{append-nil, append_assoc}
use resctl_demo.Prelude.{
  ◌≡◌, refl, sym, ap, ◌∙◌, subst, List, [], ◌∷◌, ◌++◌, Option, none, some, arith, Bool-cases,
  Option-cases, inl, inr,
}
use resctl_demo.Prelude.Outcome.{Outcome, ok, panicked}
use resctl_demo.BTreeMap.{get, insert, is_eq, is_some, get-insert}
use resctl_demo.BTreeMap.Sorted.{
  IsSorted, insert-IsSorted, get-snoc, IsSorted-replace, IsSorted-middle, After-none,
}
use resctl_demo.Jobs.{JobData}
use resctl_demo.Merge.{MergeId, merge_id_ord, MergeOps, MergeSrc, SysInfo, Sets}
use resctl_demo.Merge.Best.{Lost}
use resctl_demo.Merge.Run.{Merged, merge_one, merge_all}
use resctl_demo.Merge.Chosen.Loaded.{AreFilled}

module _ {R V J B : Type 0} (ops : MergeOps R V J B) where
  -- A benchmark cannot merge some sources.
  abbrev pub CannotMerge : Type 0
  CannotMerge =
      (src : MergeSrc R V B) × (srcs : List (MergeSrc R V B)) × (ops.merge src.bench (src ∷ srcs)
        ≡ none)

  abbrev pub Sources : Type 0
  Sources = List (MergeSrc R V B)

  -- The benchmark of the first source of a set has merged it.
  abbrev pub MergedFrom :
      Option Sources → Option Sources → Option (JobData (SysInfo R) V × Lost MergeId) → Type 0
  MergedFrom none after merged = (after ≡ none) × (merged ≡ none)
  MergedFrom (some []) after merged = ⊥
  MergedFrom (some (src ∷ srcs)) after merged =
      (d : JobData (SysInfo R) V) × (srcs' : Sources) × (ops.merge src.bench (src ∷ srcs)
        ≡ some (d, srcs'))
      × (after ≡ some srcs')
      × (merged ≡ some (d, []))

  abbrev pub AreFrom : Sets ops → Sets ops → Merged R V → Type 0
  AreFrom loaded sets merged = (m : MergeId) → MergedFrom (get m loaded) (get m sets) (get m merged)

  -- The sets after the merge, and the merged data of each.
  pub record AreMerged (loaded sets : Sets ops) (merged : Merged R V) : Type 0 where
    pub sets_sorted : IsSorted sets
    pub sorted : IsSorted merged
    pub from : AreFrom loaded sets merged

  abbrev pub Merges : Sets ops → Outcome (Option (Sets ops × Merged R V)) → Type 0
  Merges loaded panicked = ⊥
  Merges loaded (ok none) = CannotMerge
  Merges loaded (ok (some (sets, merged))) = AreMerged loaded sets merged

  MergedFrom-same :
      (a a' b b' : Option Sources) (c c' : Option (JobData (SysInfo R) V × Lost MergeId))
      → a' ≡ a
      → b' ≡ b
      → c' ≡ c
      → MergedFrom a b c
      → MergedFrom a' b' c'
  MergedFrom-same a a' b b' c c' e f g h =
      subst (λ x. MergedFrom x b' c') (sym e)
        (subst (λ y. MergedFrom a y c') (sym f) (subst (λ z. MergedFrom a b z) (sym g) h))

  pub MergedFrom-some :
      (a b : Option Sources) (c : Option (JobData (SysInfo R) V × Lost MergeId))
      → MergedFrom a b c
      → is_some c ≡ is_some b
  MergedFrom-some none b c (e, f) = ap is_some f ∙ sym (ap is_some e)
  MergedFrom-some (some []) b c h = absurd h
  MergedFrom-some (some (src ∷ srcs)) b c (d, srcs', e, f, g) = ap is_some g ∙ sym (ap is_some f)

  AreFrom-snoc :
      (mid : MergeId) (src : MergeSrc R V B) (srcs srcs' : Sources) (d : JobData (SysInfo R) V)
      (loaded done : Sets ops) (merged : Merged R V)
      → get mid loaded ≡ none
      → ops.merge src.bench (src ∷ srcs) ≡ some (d, srcs')
      → AreFrom loaded done merged
      → AreFrom
          (loaded ++ (mid, src ∷ srcs) ∷ [])
          (done ++ (mid, srcs') ∷ [])
          (insert mid (d, []) merged)
  AreFrom-snoc mid src srcs srcs' d loaded done merged free e h m =
      let l = get-snoc m mid (src ∷ srcs) loaded in
      let r = get-snoc m mid srcs' done in
      let i = get-insert mid m (d, []) merged in
      elim (Bool-cases (is_eq (merge_id_ord.cmp m mid))) [
        | inl p ↦
            (let same : m ≡ mid = ground (arith, p, merge_id_ord.eq_iff m mid) in
              let none_before : get m loaded ≡ none = ap (λ k. get k loaded) same ∙ free in
              let (none_done, none_merged) =
                subst (λ x. MergedFrom x (get m done) (get m merged)) none_before (h m) in
              MergedFrom-same (some (src ∷ srcs)) _ (some srcs') _ (some (d, [])) _
                (ground (arith, l, p, none_before)) (ground (arith, r, p, none_done))
                (ground (arith, i, p)) (d, srcs', e, refl, refl))
        | inr p ↦
            MergedFrom-same (get m loaded) _ (get m done) _ (get m merged) _ (ground (arith, l, p))
              (ground (arith, r, p)) (ground (arith, i, p)) (h m)
      ]

  merge_all-rest :
      (before done sets : Sets ops) (merged : Merged R V)
      → IsSorted (before ++ sets)
      → IsSorted (done ++ sets)
      → AreFilled ops sets
      → IsSorted merged
      → AreFrom before done merged
      → Merges (before ++ sets) (merge_all ops done sets merged)
  unfolding merge_all merge_one
  merge_all-rest before done [] merged sb s f sm h = record {
    sets_sorted = subst IsSorted (append-nil done) s;
    sorted = sm;
    from = subst (λ l. AreFrom l done merged) (sym (append-nil before)) h;
  }
  merge_all-rest before done ((mid, []) ∷ sets) merged sb s f sm h = elim f.0 [ ]
  merge_all-rest before done ((mid, src ∷ srcs) ∷ sets) merged sb s f sm h =
      elim (Option-cases (ops.merge src.bench (src ∷ srcs))) [
        | inl e ↦ rw (e, Merges) (src, srcs, e)
        | inr ((d, srcs'), e) ↦
            (let free = After-none mid before (IsSorted-middle before mid (src ∷ srcs) sets sb) in
              let assoc = append_assoc before ((mid, src ∷ srcs) ∷ []) sets in
              let rest =
                merge_all-rest (before ++ (mid, src ∷ srcs) ∷ []) (done ++ (mid, srcs') ∷ []) sets
                  (insert mid (d, []) merged) (subst IsSorted (sym assoc) sb)
                  (subst IsSorted (sym (append_assoc done ((mid, srcs') ∷ []) sets))
                    (IsSorted-replace done mid (src ∷ srcs) srcs' sets s))
                  f.1 (insert-IsSorted mid (d, []) merged sm)
                  (AreFrom-snoc mid src srcs srcs' d before done merged free e h) in
              rw (e, Merges)
                (subst
                  (λ l.
                    Merges l
                      (merge_all ops (done ++ (mid, srcs') ∷ []) sets (insert mid (d, []) merged)))
                  assoc rest))
      ]

  pub merge_all-Merges :
      (sets : Sets ops)
      → IsSorted sets
      → AreFilled ops sets
      → Merges sets (merge_all ops [] sets [])
  unfolding get
  merge_all-Merges sets s f = merge_all-rest [] [] sets [] s s f tt (λ m. (refl, refl))
