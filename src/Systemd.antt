-- ===== src/Systemd.antt =====
-- Units of systemd and transient services: rd-util/src/systemd.rs, from `UnitState` on.
--
-- The bus is a state `B` with the operations of `Bus`, one for each call that a unit makes; the
-- system's and the user's bus differ in nothing else. Waiting for a transition refreshes the unit
-- again and again until a time has passed: the number of refreshes, which is at least one, is an
-- argument. What only decides what is logged is left out.
pub mod Units
pub mod Services
pub mod States
pub mod Resctl
pub mod Waits
pub mod Lifecycle
mod Tests
use resctl_demo.Prelude.{
  ℕ, ◌-◌, List, [], ◌∷◌, ◌++◌, Option, none, some, Bool, true, false, ltb, ◌==◌, not, if◌then◌else◌,
}
use resctl_demo.Prelude.Words.{u64_mod}
use resctl_demo.Text.{Text, text, cmp_text, text_ord}
use resctl_demo.BTreeMap.{is_eq, get}

pub data UnitState : Type 0 where
  not_found running exited : UnitState
  other_active inactive failed other : Text → UnitState

pub data Prop : Type 0 where
  u32 u64 : ℕ → Prop
  bool : Bool → Prop
  string : Text → Prop

-- `HashMap<String, Prop>`, of which only the lookups are used
abbrev pub Props : Type 0
Props = List (Text × Prop)

abbrev pub u64_max : ℕ
u64_max = u64_mod - 1

unfoldable pub as_string : Option Prop → Option Text
as_string (some (Prop.string v)) = some v
as_string _ = none

unfoldable pub string_prop : Text → Props → Option Text
unfolding as_string get
string_prop key props = as_string (get key props)

unfoldable pub below_max : Option Prop → Option ℕ
below_max (some (Prop.u64 v)) = if ltb v u64_max then some v else none
below_max _ = none

unfoldable pub above_zero : Option Prop → Option ℕ
above_zero (some (Prop.u64 v)) = if ltb 0 v then some v else none
above_zero _ = none

unfoldable pub u64_dfl_max : Text → Props → Option ℕ
unfolding below_max get
u64_dfl_max key props = below_max (get key props)

unfoldable pub u64_dfl_zero : Text → Props → Option ℕ
unfolding above_zero get
u64_dfl_zero key props = above_zero (get key props)

abbrev pub is_text : Text → Text → Bool
is_text a b = is_eq (cmp_text a b)

unfoldable pub sub_state : Option Text → Text
sub_state none = text "no-sub-state"
sub_state (some v) = v

-- What the active state and the substate of a loaded unit say.
unfoldable pub loaded_state : Text → Option Text → UnitState
loaded_state ss none = UnitState.other (text "no-active-state")
loaded_state ss (some v) =
    if is_text v (text "active")
    then (if is_text ss (text "running")
        then UnitState.running
        else (if is_text ss (text "exited") then UnitState.exited else UnitState.other_active ss))
    else (if is_text v (text "inactive")
        then UnitState.inactive ss
        else (if is_text v (text "failed")
            then UnitState.failed ss
            else UnitState.other (v ++ b':' ∷ ss)))

unfoldable pub state_from : Option Text → Props → UnitState
unfolding sub_state loaded_state string_prop
state_from none props = UnitState.other (text "no-load-state")
state_from (some v) props =
    if is_text v (text "loaded")
    then loaded_state (sub_state (string_prop (text "SubState") props))
        (string_prop (text "ActiveState") props)
    else (if is_text v (text "not-found") then UnitState.not_found else UnitState.other v)

unfoldable pub state_of : Props → UnitState
unfolding state_from
state_of props = state_from (string_prop (text "LoadState") props) props

pub record UnitResCtl : Type 0 where
  pub cpu_weight : Option ℕ
  pub io_weight : Option ℕ
  pub mem_min : Option ℕ
  pub mem_low : Option ℕ
  pub mem_high : Option ℕ
  pub mem_max : Option ℕ

pub record SystemdUnit : Type 0 where
  pub name : Text
  pub state : UnitState
  pub resctl : UnitResCtl
  pub props : Props

-- The calls of a bus. Each may fail, and may change the bus either way.
pub record Bus (B : Type 0) : Type 0 where
  pub get_unit_props : Text → B → Option Props × B
  pub set_unit_props : Text → Props → B → Bool × B
  pub start_unit : Text → B → Bool × B
  pub stop_unit : Text → B → Bool × B
  pub restart_unit : Text → B → Bool × B
  pub reset_failed_unit : Text → B → Bool × B
  pub start_transient_svc : Text → List Text → List Text → Props → B → Bool × B
