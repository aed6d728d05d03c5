-- ===== src/Side.antt =====
-- The side loads of rd-agent: rd-agent/src/side.rs, `SideRunner` and `Balloon`.
--
-- What the runner of side loads does to the machine are operations on a state `W`, in `SideOps`.
-- The names to go and to come are differences of hash sets, whose order is not determined: it is an
-- argument, a function on lists.
pub mod Reconcile
pub mod Balloons
mod Tests
use resctl_demo.Prelude.{
  ℕ, zero, suc, List, [], ◌∷◌, ◌++◌, Option, none, some, Bool, true, false, ◌&&◌, ◌||◌, not, leb,
  ◌==◌, if◌then◌else◌,
}
use resctl_demo.Text.{Text, text, text_ord, cmp_text}
pub use resctl_demo.BTreeMap.{is_some}
use resctl_demo.BTreeMap.{get, insert, remove, is_eq}
use resctl_demo.Systemd.{UnitState}

pub record SideloadSpec : Type 0 where
  pub args : List Text
  pub frozen_exp : ℕ

pub record Sysload (Svc : Type 0) : Type 0 where
  pub scr_path : Text
  pub svc : Svc

pub record Sideload (U : Type 0) : Type 0 where
  pub name : Text
  pub scr_path : Text
  pub job_path : Text
  pub unit : U

pub record SideOps (W Svc U : Type 0) : Type 0 where
  -- the path of a binary, if it is found
  pub find_bin : Text → W → Option Text
  pub sysload_svc_name : Text → Text
  pub sideload_svc_name : Text → Text
  pub new_svc : Text → List Text → W → Option Svc × W
  pub drop_svc : Svc → W → W
  pub new_unit : Text → W → Option U × W
  pub prep_sys_dir : Text → W → Option Text × W
  pub prep_side_dir : Text → W → Option Text × W
  -- the slice, the working directory and the weight are set, and the service is started
  pub start_svc : Text → Svc → W → Bool × W
  pub job_path : Text → Text
  pub save_job : Text → SideloadSpec → Text → W → Bool × W

-- `^[a-zA-Z0-9_-]+$`
abbrev pub is_side_char : ℕ → Bool
is_side_char c =
    (leb b'a' c && leb c b'z')
    || (leb b'A' c && leb c b'Z')
    || (leb b'0' c && leb c b'9')
    || (c == b'_')
    || (c == b'-')

abbrev all_side_chars : Text → Bool
all_side_chars [] = true
all_side_chars (c ∷ cs) = is_side_char c && all_side_chars cs

pub is_side_name : Text → Bool
is_side_name [] = false
is_side_name (c ∷ cs) = all_side_chars (c ∷ cs)

module _ {W Svc U : Type 0} (ops : SideOps W Svc U) where
  pub resolve : Option SideloadSpec → W → Option SideloadSpec
  resolve none w = none
  resolve (some spec) w = elim spec.args [
    | [] ↦ none
    | bin ∷ args ↦ (elim (ops.find_bin bin w) [
      | none ↦ none
      | some path ↦ some (record spec { args = path ∷ args })
    ])
  ]

  pub verify_and_lookup_svc : Text → Text → List (Text × SideloadSpec) → W → Option SideloadSpec
  unfolding is_side_name resolve get
  verify_and_lookup_svc name id defs w = if is_side_name name then resolve (get id defs) w else none

  -- The service is dropped when there is no directory for it.
  pub finish_sysload : Option Text → Svc → W → Option (Sysload Svc) × W
  finish_sysload none svc w = (none, ops.drop_svc svc w)
  finish_sysload (some scr_path) svc w =
      let (success, w) = ops.start_svc scr_path svc w in
      (some (record { scr_path = scr_path; svc = svc }), w)

  pub with_svc : Text → Option Svc → W → Option (Sysload Svc) × W
  unfolding finish_sysload
  with_svc name none w = (none, w)
  with_svc name (some svc) w =
      let (scr_path, w) = ops.prep_sys_dir name w in finish_sysload scr_path svc w

  -- A new system load. That it cannot be started is only warned about.
  pub make_sysload : List (Text × SideloadSpec) → Text → Text → W → Option (Sysload Svc) × W
  unfolding verify_and_lookup_svc with_svc
  make_sysload defs name id w = elim (verify_and_lookup_svc name id defs w) [
    | none ↦ (none, w)
    | some spec ↦
        (let (svc, w) = ops.new_svc (ops.sysload_svc_name name) spec.args w in with_svc name svc w)
  ]

  pub finish_sideload : Text → Text → Option U → W → Option (Sideload U) × W
  finish_sideload name scr_path none w = (none, w)
  finish_sideload name scr_path (some unit) w = (
    some (record { name = name; scr_path = scr_path; job_path = ops.job_path name; unit = unit }),
    w,
  )

  pub with_dir : Text → SideloadSpec → Option Text → W → Option (Sideload U) × W
  unfolding finish_sideload
  with_dir name spec none w = (none, w)
  with_dir name spec (some scr_path) w =
      let (success, w) = ops.save_job name spec scr_path w in
      if success
      then (let (unit, w) = ops.new_unit (ops.sideload_svc_name name) w in
          finish_sideload name scr_path unit w)
      else (none, w)

  -- A new side load, a job file that the sideloader finds.
  pub make_sideload : List (Text × SideloadSpec) → Text → Text → W → Option (Sideload U) × W
  unfolding verify_and_lookup_svc with_dir
  make_sideload defs name id w = elim (verify_and_lookup_svc name id defs w) [
    | none ↦ (none, w)
    | some spec ↦ (let (scr_path, w) = ops.prep_side_dir name w in with_dir name spec scr_path w)
  ]
