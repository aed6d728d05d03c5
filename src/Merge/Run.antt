-- ===== src/Merge/Run.antt =====
-- What `merge` of resctl-bench/src/merge.rs does with the result sets, and the record that
-- resctl-bench/src/merge/info.rs makes of it. Printing and saving are left out.
use resctl_demo.Prelude.{ℕ, List, [], ◌∷◌, ◌++◌, Option, none, some, suc, if◌then◌else◌}
use resctl_demo.Prelude.Outcome.{Outcome, ok, panicked, ◌>>=◌}
use resctl_demo.Text.{Text, text_ord}
use resctl_demo.Prelude.Order.{option_ord, pair_ord}
use resctl_demo.BTreeMap.{get, insert}
use resctl_demo.Jobs.{JobData, JobCtx, Benches}
use resctl_demo.Jobs.Links.{with_job_data}
use resctl_demo.Merge.{MergeId, merge_id_ord, SysInfo, MergeSrc, Args, MergeOps, Sets, add_files}
use resctl_demo.Merge.Best.{Lost, pick_best, keep_best}

module _ {R V B : Type 0} where
  -- How many sources are not rejected.
  unfoldable pub nr_accepted : List (MergeSrc R V B) → ℕ
  nr_accepted [] = 0
  nr_accepted (s ∷ ss) = elim s.rejected [ none ↦ suc (nr_accepted ss) | some why ↦ nr_accepted ss ]

abbrev pub kind_and_id : MergeId → Text × Option Text
kind_and_id mid = (mid.kind, mid.id)

-- The merged data by id, each with the ids that lost to it.
abbrev pub Merged : Type 0 → Type 0 → Type 0
Merged R V = List (MergeId × (JobData (SysInfo R) V × Lost MergeId))

module _ {R V J B : Type 0} (ops : MergeOps R V J B) where
  -- A set has a first source, whose benchmark merges it.
  unfoldable pub merge_one :
      List (MergeSrc R V B) → Outcome (Option (JobData (SysInfo R) V × List (MergeSrc R V B)))
  merge_one [] = panicked
  merge_one (src ∷ srcs) = ok (ops.merge src.bench (src ∷ srcs))

  unfoldable pub merge_all :
      Sets ops → Sets ops → Merged R V → Outcome (Option (Sets ops × Merged R V))
  unfolding merge_one
  merge_all done [] merged = ok (some (done, merged))
  merge_all done ((mid, srcs) ∷ sets) merged = merge_one srcs >>= λ res. elim res [
    | none ↦ ok none
    | some (d, srcs) ↦ merge_all (done ++ (mid, srcs) ∷ []) sets (insert mid (d, []) merged)
  ]

  unfoldable pub choose : Args → Sets ops → Merged R V → Outcome (Merged R V)
  unfolding keep_best
  choose args sets merged =
      if args.merge_multiple
      then ok merged
      else keep_best kind_and_id (pick_best kind_and_id nr_accepted sets []) merged []

  -- The results by id, from the files.
  unfoldable pub merged_results : Args → Outcome (Option (Sets ops × Merged R V))
  unfolding add_files merge_all choose
  merged_results args = add_files ops args args.merge_srcs [] >>= λ sets. elim sets [
    | none ↦ ok none
    | some sets ↦ merge_all [] sets [] >>= λ res. elim res [
      | none ↦ ok none
      | some (sets, merged) ↦ choose args sets merged >>= λ merged. ok (some (sets, merged))
    ]
  ]

pub record MergeSrcName : Type 0 where
  pub file : Text
  pub kind : Text
  pub id : Option Text

-- `MergeEntry`, with its dropped entries.
mutual
  pub data MergeEntry : Type 0 where
    entry : MergeId → List MergeSrcName → List (MergeSrcName × Text) → MergeEntries → MergeEntry

  pub data MergeEntries : Type 0 where
    nil : MergeEntries
    cons : MergeEntry → MergeEntries → MergeEntries

pub push_entry : MergeEntries → MergeEntry → MergeEntries
push_entry nil e = cons e nil
push_entry (cons e es) f = cons e (push_entry es f)

module _ {R V B : Type 0} where
  pub from_src : MergeSrc R V B → MergeSrcName
  from_src src = record {
    file = src.file;
    kind = src.job_data.spec.kind;
    id = src.job_data.spec.id;
  }

  pub accepted_names : List (MergeSrc R V B) → List MergeSrcName
  unfolding from_src
  accepted_names [] = []
  accepted_names (s ∷ ss) = elim s.rejected [
    | none ↦ from_src s ∷ accepted_names ss
    | some why ↦ accepted_names ss
  ]

  pub rejected_names : List (MergeSrc R V B) → List (MergeSrcName × Text)
  unfolding from_src
  rejected_names [] = []
  rejected_names (s ∷ ss) = elim s.rejected [
    | none ↦ rejected_names ss
    | some why ↦ (from_src s, why) ∷ rejected_names ss
  ]

  pub from_srcs : MergeId → List (MergeSrc R V B) → MergeEntry
  unfolding accepted_names rejected_names
  from_srcs mid srcs = entry mid (accepted_names srcs) (rejected_names srcs) nil

  pub add_dropped_from_srcs : MergeEntry → MergeId → List (MergeSrc R V B) → MergeEntry
  unfolding push_entry from_srcs
  add_dropped_from_srcs (entry mid srcs rejects dropped) lost lost_srcs =
      entry mid srcs rejects (push_entry dropped (from_srcs lost lost_srcs))

module _ {R V J B : Type 0} (ops : MergeOps R V J B) (bs : Benches (SysInfo R) V J B) where
  pub add_lost : Sets ops → Lost MergeId → MergeEntry → Outcome MergeEntry
  unfolding add_dropped_from_srcs
  add_lost sets [] e = ok e
  add_lost sets ((lost, _) ∷ losts) e = elim (get lost sets) [
    | none ↦ panicked
    | some srcs ↦ add_lost sets losts (add_dropped_from_srcs e lost srcs)
  ]

  pub info_entry : Sets ops → MergeId → Lost MergeId → Outcome MergeEntry
  unfolding add_lost from_srcs
  info_entry sets mid losts = elim (get mid sets) [
    | none ↦ panicked
    | some srcs ↦ add_lost sets losts (from_srcs mid srcs)
  ]

  -- The jobs and the record of how they came to be; the last number is the next one.
  pub transfer :
      Sets ops
      → Merged R V
      → List (JobCtx (SysInfo R) V J B)
      → List MergeEntry
      → ℕ
      → Outcome (Option (List (JobCtx (SysInfo R) V J B) × List MergeEntry × ℕ))
  unfolding with_job_data info_entry
  transfer sets [] jobs infos uid = ok (some (jobs, infos, uid))
  transfer sets ((mid, (d, losts)) ∷ merged) jobs infos uid =
      with_job_data bs d uid >>= λ (parsed, uid). elim parsed [
        | none ↦ ok none
        | some j ↦ info_entry sets mid losts >>= λ e.
            transfer sets merged (jobs ++ j ∷ []) (infos ++ e ∷ []) uid
      ]
