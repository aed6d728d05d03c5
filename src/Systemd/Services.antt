-- ===== src/Systemd/Services.antt =====
-- `TransientService` of rd-util/src/systemd.rs.
use resctl_demo.Prelude.{
  ℕ, zero, suc, List, [], ◌++◌, Option, none, some, Bool, true, false, if◌then◌else◌,
}
use resctl_demo.Text.{Text, text, text_ord}
use resctl_demo.BTreeMap.{insert, remove, get}
use resctl_demo.Systemd.{Prop, Props, SystemdUnit, Bus}
use resctl_demo.Systemd.Units.{resctl_props, Returned, stop_and_reset, await_start}

pub record TransientService : Type 0 where
  pub unit : SystemdUnit
  pub args : List Text
  pub envs : List Text
  pub extra_props : Props
  pub keep : Bool

unfoldable pub add_prop : Text → Prop → TransientService → TransientService
unfolding insert
add_prop key v svc = record svc { extra_props = insert key v svc.extra_props }

unfoldable pub del_prop : Text → TransientService → TransientService × Option Prop
unfolding remove get
del_prop key svc =
    (record svc { extra_props = remove key svc.extra_props }, get key svc.extra_props)

pub set_slice : Text → TransientService → TransientService
unfolding add_prop
set_slice slice = add_prop (text "Slice") (Prop.string slice)

pub set_working_dir : Text → TransientService → TransientService
unfolding add_prop
set_working_dir dir = add_prop (text "WorkingDirectory") (Prop.string dir)

pub set_restart_always : TransientService → TransientService
unfolding add_prop
set_restart_always = add_prop (text "Restart") (Prop.string (text "always"))

pub with_umask : Option ℕ → TransientService → TransientService
unfolding add_prop
with_umask none svc = svc
with_umask (some v) svc = add_prop (text "UMask") (Prop.u32 v) svc

-- `new`, from a unit that has been looked up under a name that ends in `.service`.
pub new_of : SystemdUnit → List Text → List Text → Option ℕ → TransientService
unfolding add_prop with_umask
new_of unit args envs umask = with_umask umask (
    add_prop (text "RemainAfterExit") (Prop.bool true)
      (record { unit = unit; args = args; envs = envs; extra_props = []; keep = false }))

module _ {B : Type 0} (bus : Bus B) (polls : ℕ) where
  -- What a method of a service returns, and the unit and the bus that it leaves.
  unfoldable pub try_start_svc : TransientService → B → Returned bus Bool
  unfolding resctl_props await_start
  try_start_svc svc b =
      let extra_props = resctl_props svc.unit.resctl ++ svc.extra_props in
      let (success, b) = bus.start_transient_svc svc.unit.name svc.args svc.envs extra_props b in
      if success then await_start bus polls svc.unit b else (none, svc.unit, b)

  unfoldable pub up_or_fail : Returned bus Bool → Bool × SystemdUnit × B
  up_or_fail (some up, u, b) = (up, u, b)
  up_or_fail (none, u, b) = (false, u, b)

  -- The unit is stopped, and started with the resource control it had before that.
  unfoldable pub start : TransientService → B → Bool × SystemdUnit × B
  unfolding stop_and_reset try_start_svc up_or_fail
  start svc b =
      let (success, u, b) = stop_and_reset bus polls svc.unit b in
      if success
      then up_or_fail
          (try_start_svc (record svc { unit = record u { resctl = svc.unit.resctl } }) b)
      else (false, u, b)

  -- The loop in `drop`, whose rounds go on also after a success.
  unfoldable pub stop_times : ℕ → SystemdUnit → B → SystemdUnit × B
  unfolding stop_and_reset
  stop_times zero u b = (u, b)
  stop_times (suc tries) u b =
      let (success, v, c) = stop_and_reset bus polls u b in stop_times tries v c

  unfoldable pub drop_svc : TransientService → B → SystemdUnit × B
  unfolding stop_times
  drop_svc svc b = if svc.keep then (svc.unit, b) else stop_times 5 svc.unit b
