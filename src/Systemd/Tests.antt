-- ===== src/Systemd/Tests.antt =====
-- Units on a bus with one unit, whose properties are the state of the bus.
use resctl_demo.Prelude.{◌≡◌, ◌↔◌, refl, [], ◌∷◌, ◌++◌, none, some, arith, true, false, not}
use resctl_demo.Text.{text, cmp_text}
use resctl_demo.Systemd.{
  UnitState, Prop, Props, state_of, string_prop, SystemdUnit, UnitResCtl, Bus,
}
use resctl_demo.Systemd.Units.{apply, stop_and_reset, is_up, is_stopped, is_running, resctl_props}
use resctl_demo.Systemd.Services.{TransientService, start, drop_svc}
use resctl_demo.Systemd.States.{SaysRunning, state_of-running_iff}
use resctl_demo.Systemd.Resctl.{IsPlain, apply-resctl}
use resctl_demo.Systemd.Waits.{goes_on, Comes}
use resctl_demo.Systemd.Lifecycle.{
  IsGone, Stops, Starts, stop_and_reset-gone, start-up, drop_svc-gone,
}

abbrev gone : Props
gone = (text "LoadState", Prop.string (text "not-found")) ∷ []

abbrev up : Props
up =
    (text "LoadState", Prop.string (text "loaded"))
    ∷ (text "ActiveState", Prop.string (text "active"))
    ∷ (text "SubState", Prop.string (text "running"))
    ∷ []

abbrev one_unit : Bus Props
one_unit = record {
  get_unit_props = λ name b. (some b, b);
  set_unit_props = λ name props b. (true, props ++ b);
  start_unit = λ name b. (true, up);
  stop_unit = λ name b. (true, gone);
  restart_unit = λ name b. (true, up);
  reset_failed_unit = λ name b. (true, gone);
  start_transient_svc = λ name args envs props b. (true, props ++ up);
}

abbrev weights : UnitResCtl
weights = record {
  cpu_weight = some 100;
  io_weight = none;
  mem_min = none;
  mem_low = some 4096;
  mem_high = none;
  mem_max = none;
}

abbrev unit : SystemdUnit
unit = record {
  name = text "rd-hashd-A.service";
  state = UnitState.not_found;
  resctl = weights;
  props = [];
}

abbrev service : TransientService
service = record { unit = unit; args = []; envs = []; extra_props = []; keep = false }

state_of-running_iff_example :
    (state_of up ≡ UnitState.running)
    ↔ SaysRunning
        (string_prop (text "LoadState") up)
        (string_prop (text "ActiveState") up)
        (string_prop (text "SubState") up)
state_of-running_iff_example = state_of-running_iff up

weights-IsPlain : IsPlain weights
weights-IsPlain = record {
  cpu_weight = omega arith;
  io_weight = tt;
  mem_min = tt;
  mem_low = omega arith;
  mem_high = tt;
  mem_max = tt;
}

apply-resctl_example :
    ((apply one_unit unit up).0 ≡ true) × ((apply one_unit unit up).1.resctl ≡ weights)
apply-resctl_example = apply-resctl one_unit unit up up weights-IsPlain refl refl

is_gone : state_of gone ≡ UnitState.not_found
unfolding state_of cmp_text
is_gone = refl

gone-IsStopped : is_stopped (state_of gone) ≡ true
gone-IsStopped = rw is_gone refl

gone-IsGone : IsGone gone
gone-IsGone = rw is_gone refl

one_unit-Stops : Stops one_unit 3 unit.name
one_unit-Stops = record {
  looks_up = λ b. (b, b, refl);
  stops = λ b c props e f. (refl, Comes.now refl gone-IsStopped);
  resets = λ b c props e f. (refl, Comes.now refl gone-IsGone);
}

-- A unit that is seen once more while it stops: what the next lookup gives, and the later ones.
abbrev stopping : Props
stopping =
    (text "LoadState", Prop.string (text "loaded"))
    ∷ (text "ActiveState", Prop.string (text "deactivating"))
    ∷ (text "SubState", Prop.string (text "stop-sigterm"))
    ∷ []

abbrev slow_unit : Bus (Props × Props)
slow_unit = record {
  get_unit_props = λ name (now, next). (some now, (next, next));
  set_unit_props = λ name props b. (true, b);
  start_unit = λ name b. (true, (up, up));
  stop_unit = λ name b. (true, (stopping, gone));
  restart_unit = λ name b. (true, (up, up));
  reset_failed_unit = λ name b. (true, (gone, gone));
  start_transient_svc = λ name args envs props b. (true, (up, up));
}

stopping-goes_on : goes_on (λ s. not (is_running s)) (some stopping) ≡ true
unfolding state_of cmp_text
stopping-goes_on = refl

slow_unit-Stops : Stops slow_unit 3 unit.name
slow_unit-Stops = record {
  looks_up = λ (now, next). ((next, next), now, refl);
  stops = λ b c props e f.
      (refl, Comes.later (some stopping) refl stopping-goes_on (Comes.now refl gone-IsStopped));
  resets = λ b c props e f. (refl, Comes.now refl gone-IsGone);
}

stop_and_reset-gone_example :
    ((stop_and_reset slow_unit 3 unit (up, up)).0 ≡ true)
    × ((stop_and_reset slow_unit 3 unit (up, up)).1.state ≡ UnitState.not_found)
stop_and_reset-gone_example = stop_and_reset-gone slow_unit 3 unit (up, up) slow_unit-Stops

started-is_up : is_up (state_of ((resctl_props weights ++ []) ++ up)) ≡ true
unfolding state_of resctl_props cmp_text
started-is_up = refl

given_first : (resctl_props weights ++ []) ++ up ≡ resctl_props weights ++ up
unfolding resctl_props
given_first = refl

one_unit-Starts : Starts one_unit 3 service
one_unit-Starts = record {
  unit_stops = one_unit-Stops;
  starts = λ b c props e gone. (refl, Comes.now refl (started-is_up, up, given_first));
}

start-up_example :
    ((start one_unit 3 service up).0 ≡ true)
    × (is_up (start one_unit 3 service up).1.state ≡ true)
    × ((start one_unit 3 service up).1.resctl ≡ weights)
start-up_example = start-up one_unit 3 service up one_unit-Starts weights-IsPlain

drop_svc-gone_example :
    ((drop_svc one_unit 3 service gone).1 ≡ gone)
    × ((drop_svc one_unit 3 service gone).0.state ≡ UnitState.not_found)
drop_svc-gone_example = drop_svc-gone one_unit 3 service gone gone refl refl is_gone
