-- ===== src/Systemd/Waits.antt =====
-- What a wait for a transition comes to, when the unit comes to what is waited for.
use resctl_demo.Prelude.{
  ℕ, zero, suc, ◌≡◌, refl, Option, none, some, arith, Bool, true, false, not, ◌&&◌,
}
use resctl_demo.Text.{Text}
use resctl_demo.Systemd.{UnitState, Props, state_of, SystemdUnit, Bus}
use resctl_demo.Systemd.Units.{
  refresh_fields, refresh_from, refresh, wait_transition, is_unsettled, resctl_of,
}

-- Whether a wait ends in a state.
abbrev pub ends : (UnitState → Bool) → UnitState → Bool
ends wait_till s = not (is_unsettled s) && wait_till s

-- Whether a wait goes on after an answer to a lookup.
abbrev pub goes_on : (UnitState → Bool) → Option Props → Bool
goes_on wait_till none = true
goes_on wait_till (some props) = not (ends wait_till (state_of props))

-- The unit as a lookup that gives these properties leaves it.
abbrev pub seen : Text → Props → SystemdUnit
seen name props = record {
  name = name;
  state = state_of props;
  resctl = resctl_of props;
  props = props;
}

not-true : (b : Bool) → not b ≡ true → b ≡ false
not-true b h = ground arith

module _ {B : Type 0} (bus : Bus B) where
  module _ (wait_till : UnitState → Bool) (Wanted : Props → Type 0) (name : Text) where
    -- After so many lookups and one more, at most, the properties are as wanted, and until then the
    -- wait goes on.
    pub data Comes : ℕ → B → Type 0 where
      now :
          {n : ℕ} {b c : B} {props : Props}
          → bus.get_unit_props name b ≡ (some props, c)
          → Wanted props
          → Comes n b
      later :
          {n : ℕ} {b c : B} (answer : Option Props)
          → bus.get_unit_props name b ≡ (answer, c)
          → goes_on wait_till answer ≡ true
          → Comes n c
          → Comes (suc n) b

  -- A unit and a bus just after a lookup with wanted properties.
  abbrev pub IsSeen : (Props → Type 0) → Text → SystemdUnit → B → Type 0
  IsSeen Wanted name u b =
      (before : B) × (props : Props) × (bus.get_unit_props name before ≡ (some props, b))
      × Wanted props
      × (u ≡ seen name props)

  module _ (wait_till : UnitState → Bool) (Wanted : Props → Type 0) where
    -- A wait ends with wanted properties, when the unit comes to them and they end the wait.
    pub wait_transition-IsSeen :
        ((props : Props) → Wanted props → ends wait_till (state_of props) ≡ true)
        → (n : ℕ) (u : SystemdUnit) (b : B) → Comes wait_till Wanted u.name n b
        → (let t = wait_transition bus wait_till n u b in IsSeen Wanted u.name t.0 t.1)
    unfolding wait_transition refresh refresh_from refresh_fields
    wait_transition-IsSeen end zero u b (now {props = props} e h) = rw e (b, props, e, h, refl)
    wait_transition-IsSeen end (suc n) u b (now {props = props} e h) =
        rw (e, end props h) (b, props, e, h, refl)
    wait_transition-IsSeen end (suc n) u b (later {c = c} none e w k) =
        rw e (wait_transition-IsSeen end n (record u { state = UnitState.not_found }) c k)
    wait_transition-IsSeen end (suc n) u b (later {c = c} (some props) e w k) =
        rw (e, not-true (ends wait_till (state_of props)) w)
          (wait_transition-IsSeen end n (seen u.name props) c k)
