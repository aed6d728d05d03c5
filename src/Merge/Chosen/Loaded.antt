-- ===== src/Merge/Chosen/Loaded.antt =====
-- The result sets and the merged data of resctl-bench/src/merge.rs before the choice.
use resctl_demo.Prelude.{
  ◌<◌, List, [], ◌∷◌, ◌++◌, Option, none, some, Bool, true, false, arith, All, Option-cases, inl,
  inr, length, length-append, if◌then◌else◌,
}
use resctl_demo.Prelude.Outcome.{Outcome, ok, panicked, ◌>>=◌}
use resctl_demo.Text.{Text}
use resctl_demo.BTreeMap.{get}
use resctl_demo.BTreeMap.Sorted.{IsSorted, All-insert, insert-IsSorted}
use resctl_demo.Jobs.{JobCtx}
use resctl_demo.Merge.{
  MergeId, merge_id_ord, MergeOps, MergeSrc, SysInfo, Args, Sets, add_src, set_or_empty, merge_id,
  add_with, add_jctx, add_jctxs, add_files, src_of,
}

module _ {R V J B : Type 0} (ops : MergeOps R V J B) where
  abbrev pub AreFilled : Sets ops → Type 0
  AreFilled = All (λ e. 0 < length e.1)

  abbrev pub AreSets : Sets ops → Type 0
  AreSets sets = IsSorted sets × AreFilled sets

  abbrev Hold : Outcome (Sets ops) → Type 0
  Hold panicked = Unit
  Hold (ok sets) = AreSets sets

  add_src-AreSets :
      (mid : MergeId) (src : MergeSrc R V B) (sets : Sets ops)
      → AreSets sets
      → AreSets (add_src ops mid src sets)
  unfolding add_src
  add_src-AreSets mid src sets (sorted, filled) =
      let old = set_or_empty ops (get mid sets) in
      (
        insert-IsSorted mid (old ++ src ∷ []) sets sorted,
        All-insert _ mid (old ++ src ∷ []) sets (omega (arith, length-append old (src ∷ [])))
            filled,
      )

  Hold-if : (b : Bool) (x y : Outcome (Sets ops)) → Hold x → Hold y → Hold (if b then x else y)
  Hold-if true x y h k = h
  Hold-if false x y h k = k

  Hold-bind :
      {A : Type 0} (o : Outcome A) (f : A → Outcome (Sets ops))
      → ((a : A) → Hold (f a))
      → Hold (o >>= f)
  Hold-bind (ok a) f h = h a
  Hold-bind panicked f h = tt

  Hold-then :
      (o : Outcome (Sets ops)) (f : Sets ops → Outcome (Sets ops))
      → Hold o
      → ((sets : Sets ops) → AreSets sets → Hold (f sets))
      → Hold (o >>= f)
  Hold-then (ok sets) f h k = k sets h
  Hold-then panicked f h k = tt

  add_with-Hold :
      (args : Args) (file : Text) (j : JobCtx (SysInfo R) V J B) (bench : B) (sets : Sets ops)
      → AreSets sets
      → Hold (add_with ops args file j bench sets)
  unfolding add_with
  add_with-Hold args file j bench sets h =
      let src = src_of ops args file j bench in
      let add = λ (mid : MergeId). add_src ops mid src sets in
      let named = merge_id ops args src in
      Hold-if (ops.desc bench).mergeable (named >>= λ mid. ok (add mid)) (ok sets)
        (Hold-bind named (λ mid. ok (add mid)) (λ mid. add_src-AreSets mid src sets h)) h

  add_jctx-Hold :
      (args : Args) (file : Text) (j : JobCtx (SysInfo R) V J B) (sets : Sets ops)
      → AreSets sets
      → Hold (add_jctx ops args file j sets)
  unfolding add_jctx
  add_jctx-Hold args file j sets h = elim (Option-cases j.bench) [
    | inl e ↦ rw (e, Hold) tt
    | inr (bench, e) ↦ rw (e, Hold) (add_with-Hold args file j bench sets h)
  ]

  add_jctxs-Hold :
      (args : Args) (file : Text) (js : List (JobCtx (SysInfo R) V J B)) (sets : Sets ops)
      → AreSets sets
      → Hold (add_jctxs ops args file js sets)
  unfolding add_jctxs
  add_jctxs-Hold args file [] sets h = h
  add_jctxs-Hold args file (j ∷ js) sets h =
      Hold-then (add_jctx ops args file j sets) _ (add_jctx-Hold args file j sets h)
        (λ sets k. add_jctxs-Hold args file js sets k)

  abbrev pub LoadsSets : Outcome (Option (Sets ops)) → Type 0
  LoadsSets panicked = Unit
  LoadsSets (ok none) = Unit
  LoadsSets (ok (some sets)) = AreSets sets

  LoadsSets-then :
      (o : Outcome (Sets ops)) (f : Sets ops → Outcome (Option (Sets ops)))
      → Hold o
      → ((sets : Sets ops) → AreSets sets → LoadsSets (f sets))
      → LoadsSets (o >>= f)
  LoadsSets-then (ok sets) f h k = k sets h
  LoadsSets-then panicked f h k = tt

  pub add_files-LoadsSets :
      (args : Args) (files : List Text) (sets : Sets ops)
      → AreSets sets
      → LoadsSets (add_files ops args files sets)
  unfolding add_files
  add_files-LoadsSets args [] sets h = h
  add_files-LoadsSets args (file ∷ files) sets h = elim (Option-cases (ops.load_results file)) [
    | inl e ↦ rw (e, LoadsSets) tt
    | inr (js, e) ↦
        rw (e, LoadsSets)
          (LoadsSets-then (add_jctxs ops args file js sets) _ (add_jctxs-Hold args file js sets h)
            (λ sets k. add_files-LoadsSets args files sets k))
  ]
