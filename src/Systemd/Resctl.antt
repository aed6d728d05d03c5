-- ===== src/Systemd/Resctl.antt =====
-- Resource control that is set is read back.
use resctl_demo.Prelude.{ℕ, ◌<◌, ◌≡◌, refl, ◌++◌, Option, none, some, arith, true}
use resctl_demo.Text.{cmp_text, text_ord}
use resctl_demo.BTreeMap.{get}
use resctl_demo.Systemd.{
  Prop, Props, u64_max, below_max, above_zero, u64_dfl_max, u64_dfl_zero, UnitResCtl, SystemdUnit,
  Bus,
}
use resctl_demo.Systemd.Units.{
  resctl_of, resctl_props, or_else, refresh_fields, refresh_from, refresh, apply,
}

-- A value that is not the one that stands for none.
abbrev pub IsBelow : Option ℕ → Type 0
IsBelow none = Unit
IsBelow (some v) = v < u64_max

abbrev pub IsPositive : Option ℕ → Type 0
IsPositive none = Unit
IsPositive (some v) = 0 < v

-- No limit has the value that means that there is no limit.
pub record IsPlain (r : UnitResCtl) : Type 0 where
  pub cpu_weight : IsBelow r.cpu_weight
  pub io_weight : IsBelow r.io_weight
  pub mem_min : IsPositive r.mem_min
  pub mem_low : IsPositive r.mem_low
  pub mem_high : IsBelow r.mem_high
  pub mem_max : IsBelow r.mem_max

below_max-or_else : (o : Option ℕ) → IsBelow o → below_max (some (Prop.u64 (or_else u64_max o))) ≡ o
unfolding below_max
below_max-or_else none h = refl
below_max-or_else (some v) h = ground arith

above_zero-or_else : (o : Option ℕ) → IsPositive o → above_zero (some (Prop.u64 (or_else 0 o))) ≡ o
unfolding above_zero
above_zero-or_else none h = refl
above_zero-or_else (some v) h = ground arith

pub resctl_of-resctl_props :
    (r : UnitResCtl) (rest : Props) → IsPlain r → resctl_of (resctl_props r ++ rest) ≡ r
unfolding resctl_of resctl_props u64_dfl_max u64_dfl_zero get cmp_text
resctl_of-resctl_props r rest h = λ i. record {
  cpu_weight = below_max-or_else r.cpu_weight h.cpu_weight i;
  io_weight = below_max-or_else r.io_weight h.io_weight i;
  mem_min = above_zero-or_else r.mem_min h.mem_min i;
  mem_low = above_zero-or_else r.mem_low h.mem_low i;
  mem_high = below_max-or_else r.mem_high h.mem_high i;
  mem_max = below_max-or_else r.mem_max h.mem_max i;
}

module _ {B : Type 0} (bus : Bus B) where
  refresh-resctl :
      (u : SystemdUnit) (b : B) (rest : Props)
      → IsPlain u.resctl
      → (bus.get_unit_props u.name b).0 ≡ some (resctl_props u.resctl ++ rest)
      → ((refresh bus u b).0 ≡ true) × ((refresh bus u b).1.resctl ≡ u.resctl)
  unfolding refresh refresh_from refresh_fields
  refresh-resctl u b rest h e = rw e (refl, resctl_of-resctl_props u.resctl rest h)

  -- To apply resource control without the values that mean none, on a bus that takes it and then
  -- gives it back among the properties of the unit, succeeds and leaves the unit with just that
  -- resource control.
  pub apply-resctl :
      (u : SystemdUnit) (b : B) (rest : Props)
      → IsPlain u.resctl
      → (bus.set_unit_props u.name (resctl_props u.resctl) b).0 ≡ true
      → (bus.get_unit_props u.name (bus.set_unit_props u.name (resctl_props u.resctl) b).1).0
        ≡ some (resctl_props u.resctl ++ rest)
      → ((apply bus u b).0 ≡ true) × ((apply bus u b).1.resctl ≡ u.resctl)
  unfolding apply
  apply-resctl u b rest h taken back =
      rw taken
        (refresh-resctl u (bus.set_unit_props u.name (resctl_props u.resctl) b).1 rest h back)
