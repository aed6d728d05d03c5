-- ===== src/Hashd.antt =====
-- The instances of rd-hashd that rd-agent keeps: rd-agent/src/hashd.rs, `Hashd` and `HashdSet`.
--
-- Floating-point numbers are a parameter `F` with the operations used, in `Floats`; what the set
-- does to the machine are operations on a state `W`, in `HashdOps`. `Params` has the fields of the
-- parameter file that are set here, and the others as one.
pub mod Params
pub mod Set
pub mod Applied
mod Tests
use resctl_demo.Prelude.{ℕ, List, Option, Bool}
use resctl_demo.Text.{Text}
use resctl_demo.Systemd.{UnitResCtl}

pub record Floats (F : Type 0) : Type 0 where
  pub zero : F
  pub tenth : F
  pub half : F
  pub nine_tenths : F
  pub one : F
  pub add : F → F → F
  pub div : F → F → F
  pub le : F → F → Bool
  pub lt : F → F → Bool
  pub eq : F → F → Bool
  -- `(n as f64 * x).round() as u32` and `(n as f64 * x).ceil() as u64`
  pub round_mul : ℕ → F → ℕ
  pub ceil_mul : ℕ → F → ℕ
  pub show : F → Text

pub record HashdCmd (F : Type 0) : Type 0 where
  pub active : Bool
  pub lat_target_pct : F
  pub lat_target : F
  pub rps_target_ratio : F
  pub mem_ratio : Option F
  pub file_addr_stdev : Option F
  pub anon_addr_stdev : Option F
  pub file_ratio : F
  pub file_max_ratio : F
  pub log_bps : ℕ
  pub weight : F

pub record HashdKnobs (F : Type 0) : Type 0 where
  pub hash_size : ℕ
  pub rps_max : ℕ
  pub mem_size : ℕ
  pub mem_frac : F
  pub chunk_pages : ℕ
  pub fake_cpu_load : Bool

pub record HashdParams (F R : Type 0) : Type 0 where
  pub file_size_mean : ℕ
  pub lat_target_pct : F
  pub lat_target : F
  pub rps_max : ℕ
  pub rps_target : ℕ
  pub mem_frac : F
  pub chunk_pages : ℕ
  pub file_addr_stdev_ratio : F
  pub anon_addr_stdev_ratio : F
  pub file_frac : F
  pub log_bps : ℕ
  pub fake_cpu_load : Bool
  pub others : R

pub record Hashd (F Svc : Type 0) : Type 0 where
  pub name : Text
  pub params_path : Text
  pub path_args : List Text
  pub lat_target_pct : F
  pub rps_max : ℕ
  pub file_max_ratio : F
  pub svc : Option Svc
  pub started_at : Option ℕ

pub record HashdOps (W F R Svc : Type 0) : Type 0 where
  pub default_params : HashdParams F R
  pub load_params : Text → W → Option (HashdParams F R) × W
  pub save_params : Text → HashdParams F R → W → Bool × W
  -- a transient service that is not started yet
  pub new_sys : Text → List Text → W → Option Svc × W
  -- put into the slice of the work, and started
  pub start_svc : Svc → W → Bool × Svc × W
  pub drop_svc : Svc → W → W
  pub apply_resctl : UnitResCtl → Svc → W → Bool × Svc × W
  pub now : W → ℕ × W
  pub show_num : ℕ → Text
