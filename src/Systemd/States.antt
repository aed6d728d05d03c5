-- ===== src/Systemd/States.antt =====
-- When a unit is taken to run or to be gone.
use resctl_demo.Prelude.{◌≡◌, ◌≢◌, ◌↔◌, ap, Option, none, some, arith}
use resctl_demo.Text.{Text, text, cmp_text-eq_iff}
use resctl_demo.Systemd.{
  UnitState, Props, string_prop, sub_state, loaded_state, state_from, state_of,
}

-- What systemd says of a unit that runs.
abbrev pub SaysRunning : Option Text → Option Text → Option Text → Type 0
SaysRunning load active sub =
    (load ≡ some (text "loaded")) × (active ≡ some (text "active")) × (sub ≡ some (text "running"))

loaded-running_iff :
    (ss : Text) (active : Option Text)
    → (loaded_state ss active ≡ UnitState.running)
      ↔ ((active ≡ some (text "active")) × (ss ≡ text "running"))
unfolding loaded_state
loaded-running_iff ss none = (λ e. cc, λ h. cc)
loaded-running_iff ss (some v) =
    ground (arith, cmp_text-eq_iff v (text "active"), cmp_text-eq_iff ss (text "running"))

no_sub : text "no-sub-state" ≢ text "running"
no_sub = λ e. cc

sub-running_iff :
    (sub : Option Text) → (sub_state sub ≡ text "running") ↔ (sub ≡ some (text "running"))
unfolding sub_state
sub-running_iff none = (λ e. absurd (no_sub e), λ e. cc)
sub-running_iff (some ss) = (λ e. ap some e, λ e. cc)

state_from-running_iff :
    (load : Option Text) (props : Props)
    → (state_from load props ≡ UnitState.running)
      ↔ SaysRunning load
          (string_prop (text "ActiveState") props)
          (string_prop (text "SubState") props)
unfolding state_from
state_from-running_iff none props = (λ e. cc, λ h. cc)
state_from-running_iff (some v) props = ground (
  arith,
  cmp_text-eq_iff v (text "loaded"),
  loaded-running_iff (sub_state (string_prop (text "SubState") props))
      (string_prop (text "ActiveState") props),
  sub-running_iff (string_prop (text "SubState") props),
)

-- A unit is taken to run exactly when systemd says that it is loaded, active and running.
pub state_of-running_iff :
    (props : Props)
    → (state_of props ≡ UnitState.running)
      ↔ SaysRunning
          (string_prop (text "LoadState") props)
          (string_prop (text "ActiveState") props)
          (string_prop (text "SubState") props)
unfolding state_of
state_of-running_iff props = state_from-running_iff (string_prop (text "LoadState") props) props
