-- ===== src/Systemd/Lifecycle.antt =====
-- What a stop, a start and a drop of a unit come to, on a bus that does what systemd says it does.
use resctl_demo.Prelude.{
  ℕ, zero, suc, ◌≡◌, refl, ap, ◌∙◌, some, arith, Bool, true, false, not, ◌++◌, inl, inr, Bool-cases,
}
use resctl_demo.Text.{Text}
use resctl_demo.Systemd.{UnitState, Props, state_of, UnitResCtl, SystemdUnit, Bus}
use resctl_demo.Systemd.Units.{
  refresh_fields, refresh_from, refresh, stop, reset, reset_after, stop_and_reset, await_start,
  is_running, is_started, is_stopped, is_failed, is_not_found, is_up, resctl_of, resctl_props,
  Returned,
}
use resctl_demo.Systemd.Services.{
  TransientService, try_start_svc, up_or_fail, start, stop_times, drop_svc,
}
use resctl_demo.Systemd.Resctl.{IsPlain, resctl_of-resctl_props}
use resctl_demo.Systemd.Waits.{ends, seen, Comes, IsSeen, wait_transition-IsSeen}

not_found_is : (s : UnitState) → is_not_found s ≡ true → s ≡ UnitState.not_found
not_found_is UnitState.not_found e = refl
not_found_is UnitState.running e = cc
not_found_is UnitState.exited e = cc
not_found_is (UnitState.other_active s) e = cc
not_found_is (UnitState.inactive s) e = cc
not_found_is (UnitState.failed s) e = cc
not_found_is (UnitState.other s) e = cc

abbrev pub IsGone : Props → Type 0
IsGone props = is_not_found (state_of props) ≡ true

abbrev pub IsStopped : Props → Type 0
IsStopped props = is_stopped (state_of props) ≡ true

stopped_ends : (s : UnitState) → is_stopped s ≡ true → ends (λ s. not (is_running s)) s ≡ true
stopped_ends s h = ground arith

gone_ends : (s : UnitState) → is_not_found s ≡ true → ends is_not_found s ≡ true
gone_ends s h = ground arith

up_ends : (s : UnitState) → is_up s ≡ true → ends is_started s ≡ true
up_ends s h = ground arith

stopped-not_found :
    (s : UnitState) → is_stopped s ≡ true → is_failed s ≡ false → is_not_found s ≡ true
stopped-not_found s h f = ground arith

-- The service is up and has the resource control that it was given.
abbrev pub IsUpWith : UnitResCtl → Props → Type 0
IsUpWith r props =
    (is_up (state_of props) ≡ true) × (rest : Props) × (props ≡ resctl_props r ++ rest)

module _ {B : Type 0} (bus : Bus B) where
  module _ (polls : ℕ) where
    -- What systemd does with a unit of a name: a lookup is answered, a unit that is stopped in time
    -- comes to a stop, and a failed unit that is reset goes away.
    pub record Stops (name : Text) : Type 0 where
      pub looks_up :
          (b : B) → (c : B) × (props : Props) × (bus.get_unit_props name b ≡ (some props, c))
      pub stops :
          (b c : B) (props : Props)
          → bus.get_unit_props name b ≡ (some props, c)
          → is_stopped (state_of props) ≡ false
          → ((bus.stop_unit name c).0 ≡ true)
            × Comes bus (λ s. not (is_running s)) IsStopped name polls (bus.stop_unit name c).1
      pub resets :
          (b c : B) (props : Props)
          → bus.get_unit_props name b ≡ (some props, c)
          → is_failed (state_of props) ≡ true
          → ((bus.reset_failed_unit name c).0 ≡ true)
            × Comes bus is_not_found IsGone name polls (bus.reset_failed_unit name c).1

    abbrev IsStop : Text → Returned bus Bool → Type 0
    IsStop name (answer, u, b) =
        (stopped : Bool) × (answer ≡ some stopped) × IsSeen bus IsStopped name u b

    stop-IsStop : (u : SystemdUnit) (b : B) → Stops u.name → IsStop u.name (stop bus polls u b)
    unfolding stop refresh refresh_from refresh_fields
    stop-IsStop u b h =
        let (c, props, e) = h.looks_up b in
        elim (Bool-cases (is_stopped (state_of props))) [
          | inl t ↦ rw (e, t) (true, refl, (b, props, e, t, refl))
          | inr f ↦
              (let (taken, comes) = h.stops b c props e f in
                rw (e, f, taken)
                  (
                    _,
                    refl,
                    wait_transition-IsSeen bus (λ s. not (is_running s)) IsStopped
                        (λ props. stopped_ends (state_of props)) polls (seen u.name props)
                        (bus.stop_unit u.name c).1 comes,
                  ))
        ]

    abbrev IsReset : Text → Bool × SystemdUnit × B → Type 0
    IsReset name (success, u, b) = (success ≡ true) × IsSeen bus IsGone name u b

    -- A unit that is stopped is reset if it has failed, and then it is gone.
    reset-IsReset :
        (name : Text) (b c : B) (props : Props)
        → Stops name
        → bus.get_unit_props name b ≡ (some props, c)
        → IsStopped props
        → IsReset name (reset bus polls (seen name props) c)
    unfolding reset
    reset-IsReset name b c props h e t = elim (Bool-cases (is_failed (state_of props))) [
      | inl f ↦
          (let (taken, comes) = h.resets b c props e f in
            let end : (props : Props) → IsGone props → ends is_not_found (state_of props) ≡ true =
              λ props. gone_ends (state_of props) in
            let (c', props', e', gone, eq) =
              wait_transition-IsSeen bus is_not_found IsGone end polls (seen name props)
                (bus.reset_failed_unit name c).1 comes in
            rw (f, taken) (ap (λ u. is_not_found u.state) eq ∙ gone, (c', props', e', gone, eq)))
      | inr f ↦
          (let gone = stopped-not_found (state_of props) t f in
            rw f (gone, (b, props, e, gone, refl)))
    ]

    reset_after-IsReset :
        (name : Text) (t : Returned bus Bool)
        → Stops name
        → IsStop name t
        → IsReset name (reset_after bus polls t)
    unfolding reset_after
    reset_after-IsReset name (answer, u, c) h (stopped, a, (b, props, e, t, eq)) =
        rw (a, eq) (reset-IsReset name b c props h e t)

    stop_and_reset-IsReset :
        (u : SystemdUnit) (b : B) → Stops u.name → IsReset u.name (stop_and_reset bus polls u b)
    unfolding stop_and_reset
    stop_and_reset-IsReset u b h =
        reset_after-IsReset u.name (stop bus polls u b) h (stop-IsStop u b h)

    -- On a bus that answers lookups of the unit, that stops it in time when told to, and on which it
    -- goes away in time when it is reset after a failure, a stop with reset succeeds, whatever the
    -- unit was before, and leaves a unit that is gone. In time means that the lookups of a wait are
    -- enough.
    pub stop_and_reset-gone :
        (u : SystemdUnit) (b : B)
        → Stops u.name
        → (let t = stop_and_reset bus polls u b in (t.0 ≡ true) × (t.1.state ≡ UnitState.not_found))
    stop_and_reset-gone u b h =
        let (success, (c, props, e, gone, eq)) = stop_and_reset-IsReset u b h in
        (success, ap (λ v. v.state) eq ∙ not_found_is (state_of props) gone)

    -- And what it does with a service that is started while its unit is gone: it takes it, and the
    -- unit comes up in time with the resource control it was given.
    pub record Starts (svc : TransientService) : Type 0 where
      pub unit_stops : Stops svc.unit.name
      pub starts :
          (b c : B) (props : Props)
          → bus.get_unit_props svc.unit.name b ≡ (some props, c)
          → IsGone props
          → (let given = resctl_props svc.unit.resctl ++ svc.extra_props in
              let t = bus.start_transient_svc svc.unit.name svc.args svc.envs given c in
              (t.0 ≡ true)
              × Comes bus is_started (IsUpWith svc.unit.resctl) svc.unit.name polls t.1)

    abbrev IsStarted : TransientService → Bool × SystemdUnit × B → Type 0
    IsStarted svc (success, u, b) =
        (success ≡ true) × IsSeen bus (IsUpWith svc.unit.resctl) svc.unit.name u b

    try_start-IsStarted :
        (svc : TransientService) (b c : B) (props : Props)
        → Starts svc
        → bus.get_unit_props svc.unit.name b ≡ (some props, c)
        → IsGone props
        → (let u = record (seen svc.unit.name props) { resctl = svc.unit.resctl } in
            IsStarted svc
              (up_or_fail bus polls (try_start_svc bus polls (record svc { unit = u }) c)))
    unfolding try_start_svc up_or_fail await_start
    try_start-IsStarted svc b c props h e gone =
        let (taken, comes) = h.starts b c props e gone in
        let u = record (seen svc.unit.name props) { resctl = svc.unit.resctl } in
        let end : (props : Props)
            → IsUpWith svc.unit.resctl props
            → ends is_started (state_of props) ≡ true =
          λ props w. up_ends (state_of props) w.0 in
        let (c', props', e', w, eq) =
          wait_transition-IsSeen bus is_started (IsUpWith svc.unit.resctl) end polls u _ comes in
        rw taken (ap (λ u. is_up u.state) eq ∙ w.0, (c', props', e', w, eq))

    start-IsStarted :
        (svc : TransientService) (b : B) → Starts svc → IsStarted svc (start bus polls svc b)
    unfolding start
    start-IsStarted svc b h =
        let (success, (c, props, e, gone, eq)) = stop_and_reset-IsReset svc.unit b h.unit_stops in
        rw (success, eq) (try_start-IsStarted svc c _ props h e gone)

    -- On such a bus, which also takes the service while its unit is gone and then brings it up in
    -- time with the resource control it was given, a start succeeds, whatever the unit was before,
    -- and leaves a unit that runs or has exited, with the resource control that the service asks for,
    -- if no limit in it has the value that means that there is no limit.
    pub start-up :
        (svc : TransientService) (b : B)
        → Starts svc
        → IsPlain svc.unit.resctl
        → (let t = start bus polls svc b in
            (t.0 ≡ true) × (is_up t.1.state ≡ true) × (t.1.resctl ≡ svc.unit.resctl))
    start-up svc b h plain =
        let (success, (c, props, e, (up, rest, given), eq)) = start-IsStarted svc b h in
        (
          success,
          ap (λ u. is_up u.state) eq ∙ up,
          ap (λ u. u.resctl) eq
              ∙ ap resctl_of given
              ∙ resctl_of-resctl_props svc.unit.resctl rest plain,
        )

module _ {B : Type 0} (bus : Bus B) (polls : ℕ) where
  -- Once the unit is gone and stays so, stopping it any number of times does nothing to the bus.
  gone_once :
      (u : SystemdUnit) (b : B) (props : Props)
      → bus.get_unit_props u.name b ≡ (some props, b)
      → state_of props ≡ UnitState.not_found
      → stop_and_reset bus polls u b ≡ (
        true,
        record u { state = UnitState.not_found; resctl = resctl_of props; props = props },
        b,
      )
  unfolding stop_and_reset stop reset_after reset refresh refresh_from refresh_fields
  gone_once u b props e gone = rw (e, gone) refl

  gone_always :
      (n : ℕ) (u : SystemdUnit) (b : B) (props : Props)
      → bus.get_unit_props u.name b ≡ (some props, b)
      → state_of props ≡ UnitState.not_found
      → stop_times bus polls (suc n) u b
        ≡ (record u { state = UnitState.not_found; resctl = resctl_of props; props = props }, b)
  unfolding stop_times
  gone_always zero u b props e gone = ap (λ t. (t.1, t.2)) (gone_once u b props e gone)
  gone_always (suc n) u b props e gone =
      ap (λ t. stop_times bus polls (suc n) t.1 t.2) (gone_once u b props e gone)
      ∙ gone_always n
          (record u { state = UnitState.not_found; resctl = resctl_of props; props = props }) b
          props e gone

  -- To drop a service whose unit is gone, and is not changed by being looked up, makes no call that
  -- changes the bus, for all its rounds, and leaves a unit that is gone.
  pub drop_svc-gone :
      (svc : TransientService) (b : B) (props : Props)
      → svc.keep ≡ false
      → bus.get_unit_props svc.unit.name b ≡ (some props, b)
      → state_of props ≡ UnitState.not_found
      → ((drop_svc bus polls svc b).1 ≡ b)
        × ((drop_svc bus polls svc b).0.state ≡ UnitState.not_found)
  unfolding drop_svc
  drop_svc-gone svc b props k e gone =
      let q = gone_always 4 svc.unit b props e gone in rw k (ap (λ t. t.1) q, ap (λ t. t.0.state) q)
