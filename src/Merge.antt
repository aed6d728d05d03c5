-- ===== src/Merge.antt =====
-- The merging of results in resctl-bench: resctl-bench/src/merge.rs and
-- resctl-bench/src/merge/info.rs.
--
-- `SysInfo` has the fields that are used here, and the others as one; of the missed requirements
-- it has their number. Loading result files, the benchmarks and the formatting of numbers are a
-- parameter, `MergeOps`. An `anyhow` error is `none`.
pub mod Best
pub mod Champions
pub mod Run
pub mod Chosen
pub mod Hull
mod Tests
use Prim.Native.Nat.{Ordering}
use resctl_demo.Prelude.{
  ℕ, List, [], ◌∷◌, ◌++◌, Option, none, some, Bool, true, false, not, ◌&&◌, ltb, if◌then◌else◌, ap,
  ◌≡◌, ◌↔◌,
}
use resctl_demo.Prelude.Outcome.{Outcome, ok, panicked, ◌>>=◌}
use resctl_demo.Prelude.Order.{Ord, ℕ_ord, pair_ord, option_ord, ord_by}
use resctl_demo.Version.{parse_version, parse_semver}
use resctl_demo.Text.{Text, text, text_ord}
use resctl_demo.BTreeMap.{get, insert}
use resctl_demo.Jobs.{JobData, JobCtx, BenchDesc}

pub record MergeId : Type 0 where
  pub kind : Text
  pub id : Option Text
  -- of the benchmarks, the agent and the workload
  pub versions : Option (Text × (Text × Text))
  pub mem_profile : ℕ
  pub storage_model : Option Text
  pub storage_fwver : Option Text
  pub classifier : Option Text

abbrev pub IdTuple : Type 0
IdTuple =
    Text
    × (Option Text
        × (Option (Text × (Text × Text)) × (ℕ × (Option Text × (Option Text × Option Text)))))

-- The derived order compares the fields one after the other.
abbrev pub tuple_of : MergeId → IdTuple
tuple_of m = (
  m.kind,
  (m.id, (m.versions, (m.mem_profile, (m.storage_model, (m.storage_fwver, m.classifier))))),
)

of_tuple : IdTuple → MergeId
of_tuple (kind, (id, (versions, (mem_profile, (storage_model, (storage_fwver, classifier)))))) =
    record {
      kind = kind;
      id = id;
      versions = versions;
      mem_profile = mem_profile;
      storage_model = storage_model;
      storage_fwver = storage_fwver;
      classifier = classifier;
    }

pub tuple_of-inj : (m n : MergeId) → tuple_of m ≡ tuple_of n → m ≡ n
unfolding of_tuple
tuple_of-inj m n e = ap of_tuple e

abbrev by_tuple : Ord MergeId
by_tuple = ord_by tuple_of tuple_of-inj

unfoldable pub cmp_merge_id : MergeId → MergeId → Ordering
cmp_merge_id = by_tuple.cmp

pub cmp_merge_id-eq_iff : (m n : MergeId) → (cmp_merge_id m n ≡ Ordering.eq) ↔ (m ≡ n)
unfolding cmp_merge_id
cmp_merge_id-eq_iff = by_tuple.eq_iff

pub cmp_merge_id-flip :
    (m n : MergeId) → cmp_merge_id m n ≡ Ordering.gt → cmp_merge_id n m ≡ Ordering.lt
unfolding cmp_merge_id
cmp_merge_id-flip = by_tuple.flip

pub cmp_merge_id_trans :
    (m n l : MergeId)
    → cmp_merge_id m n ≡ Ordering.lt
    → cmp_merge_id n l ≡ Ordering.lt
    → cmp_merge_id m l ≡ Ordering.lt
unfolding cmp_merge_id
cmp_merge_id_trans = by_tuple.trans

instance abbrev pub merge_id_ord : Ord MergeId
merge_id_ord = record {
  cmp = cmp_merge_id;
  eq_iff = cmp_merge_id-eq_iff;
  flip = cmp_merge_id-flip;
  trans = cmp_merge_id_trans;
}

pub record SysReqsReport : Type 0 where
  pub agent_version : Text
  pub hashd_version : Text
  pub scr_dev_model : Text
  pub scr_dev_fwrev : Text

pub record SysInfo (R : Type 0) : Type 0 where
  pub bench_version : Text
  pub nr_sysreqs_missed : ℕ
  pub sysreqs_report : Option SysReqsReport
  pub mem_profile : ℕ
  pub others : R

pub record MergeSrc (R V B : Type 0) : Type 0 where
  pub job_data : JobData (SysInfo R) V
  pub file : Text
  pub rejected : Option Text
  pub bench : B

pub record Args : Type 0 where
  pub merge_srcs : List Text
  pub merge_by_id : Bool
  pub merge_ignore_versions : Bool
  pub merge_ignore_sysreqs : Bool
  pub merge_multiple : Bool

pub record MergeOps (R V J B : Type 0) : Type 0 where
  pub load_results : Text → Option (List (JobCtx (SysInfo R) V J B))
  pub desc : B → BenchDesc
  pub merge_classifier : B → JobData (SysInfo R) V → Option Text
  -- the merged data, and the sources, some of which may be rejected now
  pub merge : B → List (MergeSrc R V B) → Option (JobData (SysInfo R) V × List (MergeSrc R V B))
  pub show_num : ℕ → Text

abbrev pub some_if : {A : Type 0} → Bool → A → Option A
some_if b a = if b then some a else none

module _ {R V J B : Type 0} (ops : MergeOps R V J B) where
  -- The major and the minor version.
  unfoldable pub maj_min : Text → Outcome Text
  unfolding parse_version parse_semver
  maj_min ver = parse_version ver >>= λ (sem, _).
      let (maj, (min, _)) = parse_semver sem in
      ok (ops.show_num maj ++ text "." ++ ops.show_num min)

  unfoldable pub versions_of :
      Args → SysInfo R → SysReqsReport → Outcome (Option (Text × (Text × Text)))
  unfolding maj_min
  versions_of args si srep =
      if args.merge_ignore_versions
      then ok none
      else (maj_min si.bench_version >>= λ bench. maj_min srep.agent_version >>= λ agent.
          maj_min srep.hashd_version >>= λ hashd. ok (some (bench, (agent, hashd))))

  unfoldable pub id_from : Args → MergeSrc R V B → SysReqsReport → Outcome MergeId
  unfolding versions_of
  id_from args src srep =
      let desc = ops.desc src.bench in
      let si = src.job_data.sysinfo in
      versions_of args si srep >>= λ versions. ok (record {
        kind = src.job_data.spec.kind;
        id = if args.merge_by_id then src.job_data.spec.id else none;
        versions = versions;
        mem_profile = si.mem_profile;
        storage_model = some_if desc.merge_by_storage_model srep.scr_dev_model;
        storage_fwver = some_if desc.merge_by_storage_fwver srep.scr_dev_fwrev;
        classifier = ops.merge_classifier src.bench src.job_data;
      })

  unfoldable pub merge_id : Args → MergeSrc R V B → Outcome MergeId
  unfolding id_from
  merge_id args src = elim src.job_data.sysinfo.sysreqs_report [
    | none ↦ panicked
    | some srep ↦ id_from args src srep
  ]

  abbrev pub Sets : Type 0
  Sets = List (MergeId × List (MergeSrc R V B))

  abbrev pub set_or_empty : Option (List (MergeSrc R V B)) → List (MergeSrc R V B)
  set_or_empty none = []
  set_or_empty (some srcs) = srcs

  unfoldable pub add_src : MergeId → MergeSrc R V B → Sets → Sets
  add_src mid src sets = insert mid (set_or_empty (get mid sets) ++ src ∷ []) sets

  pub why_rejected : Args → SysInfo R → Option Text
  why_rejected args si =
      some_if (not args.merge_ignore_sysreqs && ltb 0 si.nr_sysreqs_missed)
        (ops.show_num si.nr_sysreqs_missed ++ text " missed sysreqs")

  abbrev pub src_of : Args → Text → JobCtx (SysInfo R) V J B → B → MergeSrc R V B
  src_of args file j bench = record {
    job_data = j.job_data;
    file = file;
    rejected = why_rejected args j.job_data.sysinfo;
    bench = bench;
  }

  unfoldable pub add_with : Args → Text → JobCtx (SysInfo R) V J B → B → Sets → Outcome Sets
  unfolding why_rejected merge_id add_src
  add_with args file j bench sets =
      let src = src_of args file j bench in
      if (ops.desc bench).mergeable
      then (merge_id args src >>= λ mid. ok (add_src mid src sets))
      else ok sets

  unfoldable pub add_jctx : Args → Text → JobCtx (SysInfo R) V J B → Sets → Outcome Sets
  unfolding add_with
  add_jctx args file j sets = elim j.bench [
    | none ↦ panicked
    | some bench ↦ add_with args file j bench sets
  ]

  unfoldable pub add_jctxs : Args → Text → List (JobCtx (SysInfo R) V J B) → Sets → Outcome Sets
  unfolding add_jctx
  add_jctxs args file [] sets = ok sets
  add_jctxs args file (j ∷ js) sets =
      add_jctx args file j sets >>= λ sets. add_jctxs args file js sets

  unfoldable pub add_files : Args → List Text → Sets → Outcome (Option Sets)
  unfolding add_jctxs
  add_files args [] sets = ok (some sets)
  add_files args (file ∷ files) sets = elim (ops.load_results file) [
    | none ↦ ok none
    | some js ↦ add_jctxs args file js sets >>= λ sets. add_files args files sets
  ]
