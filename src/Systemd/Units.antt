-- ===== src/Systemd/Units.antt =====
-- `Unit` of rd-util/src/systemd.rs.
use resctl_demo.Prelude.{
  ℕ, zero, suc, [], ◌∷◌, Option, none, some, Bool, true, false, not, ◌&&◌, if◌then◌else◌,
}
use resctl_demo.Text.{Text, text}
use resctl_demo.Systemd.{
  UnitState, Prop, Props, u64_max, u64_dfl_max, u64_dfl_zero, state_of, UnitResCtl, SystemdUnit,
  Bus,
}

unfoldable pub resctl_of : Props → UnitResCtl
unfolding u64_dfl_max u64_dfl_zero
resctl_of props = record {
  cpu_weight = u64_dfl_max (text "CPUWeight") props;
  io_weight = u64_dfl_max (text "IOWeight") props;
  mem_min = u64_dfl_zero (text "MemoryMin") props;
  mem_low = u64_dfl_zero (text "MemoryLow") props;
  mem_high = u64_dfl_max (text "MemoryHigh") props;
  mem_max = u64_dfl_max (text "MemoryMax") props;
}

unfoldable pub refresh_fields : SystemdUnit → SystemdUnit
unfolding state_of resctl_of
refresh_fields u = record u { state = state_of u.props; resctl = resctl_of u.props }

abbrev pub or_else : ℕ → Option ℕ → ℕ
or_else default none = default
or_else default (some v) = v

unfoldable pub resctl_props : UnitResCtl → Props
resctl_props r =
    (text "CPUWeight", Prop.u64 (or_else u64_max r.cpu_weight))
    ∷ (text "IOWeight", Prop.u64 (or_else u64_max r.io_weight))
    ∷ (text "MemoryMin", Prop.u64 (or_else 0 r.mem_min))
    ∷ (text "MemoryLow", Prop.u64 (or_else 0 r.mem_low))
    ∷ (text "MemoryHigh", Prop.u64 (or_else u64_max r.mem_high))
    ∷ (text "MemoryMax", Prop.u64 (or_else u64_max r.mem_max))
    ∷ []

-- The states that `wait_transition` waits on in any case.
abbrev pub is_unsettled : UnitState → Bool
is_unsettled (UnitState.other_active s) = true
is_unsettled (UnitState.other s) = true
is_unsettled _ = false

abbrev pub is_running : UnitState → Bool
is_running UnitState.running = true
is_running _ = false

abbrev pub is_not_found : UnitState → Bool
is_not_found UnitState.not_found = true
is_not_found _ = false

-- What is waited for after a start.
abbrev pub is_started : UnitState → Bool
is_started UnitState.running = true
is_started UnitState.exited = true
is_started (UnitState.failed how) = true
is_started _ = false

-- `Running` and `Exited`, which make a start succeed.
abbrev pub is_up : UnitState → Bool
is_up UnitState.running = true
is_up UnitState.exited = true
is_up _ = false

-- `NotFound` and `Failed`, in which a unit is stopped.
abbrev pub is_stopped : UnitState → Bool
is_stopped UnitState.not_found = true
is_stopped (UnitState.failed how) = true
is_stopped _ = false

abbrev pub is_failed : UnitState → Bool
is_failed (UnitState.failed how) = true
is_failed _ = false

module _ {B : Type 0} (bus : Bus B) where
  -- What a method returns, `none` for an error, and the unit and the bus it leaves.
  abbrev pub Returned : Type 0 → Type 0
  Returned A = Option A × SystemdUnit × B

  unfoldable pub refresh_from : Option Props → SystemdUnit → Bool × SystemdUnit
  unfolding refresh_fields
  refresh_from none u = (false, record u { state = UnitState.not_found })
  refresh_from (some props) u = (true, refresh_fields (record u { props = props }))

  unfoldable pub refresh : SystemdUnit → B → Bool × SystemdUnit × B
  unfolding refresh_from
  refresh u b =
      let (props, b) = bus.get_unit_props u.name b in
      let (success, u) = refresh_from props u in (success, u, b)

  -- `apply`: the resource control is set and read back.
  unfoldable pub apply : SystemdUnit → B → Bool × SystemdUnit × B
  unfolding refresh resctl_props
  apply u b =
      let (success, b) = bus.set_unit_props u.name (resctl_props u.resctl) b in
      if success then refresh u b else (false, u, b)

  unfoldable pub set_prop : Text → Prop → SystemdUnit → B → Bool × SystemdUnit × B
  unfolding refresh
  set_prop key prop u b =
      let (success, b) = bus.set_unit_props u.name ((key, prop) ∷ []) b in
      if success then refresh u b else (false, u, b)

  -- The wait ends when the state is settled and waited for, or with the last refresh.
  unfoldable pub wait_transition : (UnitState → Bool) → ℕ → SystemdUnit → B → SystemdUnit × B
  unfolding refresh
  wait_transition wait_till zero u b = let (success, v, c) = refresh u b in (v, c)
  wait_transition wait_till (suc polls) u b =
      let (success, v, c) = refresh u b in
      let rest = wait_transition wait_till polls v c in
      if success && (not (is_unsettled v.state) && wait_till v.state) then (v, c) else rest

  module _ (polls : ℕ) where
    unfoldable pub stop : SystemdUnit → B → Returned Bool
    unfolding refresh wait_transition
    stop u b =
        let (success, u, b) = refresh u b in
        if not success
        then (none, u, b)
        else (if is_stopped u.state
            then (some true, u, b)
            else (let (success, b) = bus.stop_unit u.name b in
                if not success
                then (none, u, b)
                else (let (u, b) = wait_transition (λ s. not (is_running s)) polls u b in
                    (some (is_stopped u.state), u, b))))

    -- A failed unit is reset, and the unit must be gone in the end.
    unfoldable pub reset : SystemdUnit → B → Bool × SystemdUnit × B
    unfolding wait_transition
    reset u b =
        if is_failed u.state
        then (let (success, b) = bus.reset_failed_unit u.name b in
            if not success
            then (false, u, b)
            else (let (u, b) = wait_transition is_not_found polls u b in
                (is_not_found u.state, u, b)))
        else (is_not_found u.state, u, b)

    unfoldable pub reset_after : Returned Bool → Bool × SystemdUnit × B
    unfolding reset
    reset_after (none, u, b) = (false, u, b)
    reset_after (some stopped, u, b) = reset u b

    unfoldable pub stop_and_reset : SystemdUnit → B → Bool × SystemdUnit × B
    unfolding stop reset_after
    stop_and_reset u b = reset_after (stop u b)

    -- What follows a start that the bus has taken.
    unfoldable pub await_start : SystemdUnit → B → Returned Bool
    unfolding wait_transition
    await_start u b =
        let (u, b) = wait_transition is_started polls u b in (some (is_up u.state), u, b)

    unfoldable pub try_start : SystemdUnit → B → Returned Bool
    unfolding await_start
    try_start u b =
        let (success, b) = bus.start_unit u.name b in
        if success then await_start u b else (none, u, b)

  unfoldable pub restart : SystemdUnit → B → Bool × SystemdUnit × B
  restart u b = let (success, b) = bus.restart_unit u.name b in (success, u, b)
