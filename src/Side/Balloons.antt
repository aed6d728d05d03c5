-- ===== src/Side/Balloons.antt =====
-- `Balloon` of rd-agent/src/side.rs.
use resctl_demo.Prelude.{
  ℕ, ◌<◌, ◌≡◌, ◌⊎◌, inl, inr, refl, Option, none, some, Bool, true, false, ◌&&◌, ◌==◌, arith,
  Bool-cases, if◌then◌else◌,
}
use resctl_demo.Systemd.{UnitState}
use resctl_demo.Systemd.Units.{is_running}
use resctl_demo.Side.{is_some}

pub record Balloon (Svc : Type 0) : Type 0 where
  pub size : ℕ
  pub svc : Option Svc

-- What the balloon does to the machine.
pub record BalloonOps (W Svc : Type 0) : Type 0 where
  -- whether the unit could be refreshed, and its state
  pub refresh : Svc → W → Bool × UnitState × W
  pub drop_svc : Svc → W → W
  -- a unit of the balloon's name is looked up, stopped and reset
  pub stop_old : W → W
  pub new_svc : ℕ → W → Option Svc × W
  pub start : Svc → W → Bool × W

module _ {W Svc : Type 0} (ops : BalloonOps W Svc) where
  -- An old unit is stopped, whose failure is only warned about.
  pub new : W → Balloon Svc × W
  new w = (record { size = 0; svc = none }, ops.stop_old w)

  -- Whether the balloon runs at this size already.
  pub is_set : ℕ → Balloon Svc → W → Bool × W
  is_set size b w = elim b.svc [
    | none ↦ (false, w)
    | some svc ↦
        (if b.size == size
          then (let (success, state, w) = ops.refresh svc w in (success && is_running state, w))
          else (false, w))
  ]

  pub drop_old : Option Svc → W → W
  drop_old none w = w
  drop_old (some svc) w = ops.drop_svc svc w

  pub start_new : ℕ → Balloon Svc → Option Svc → W → Bool × Balloon Svc × W
  start_new size b none w = (false, b, w)
  start_new size b (some svc) w =
      let (success, w) = ops.start svc w in
      if success
      then (true, record { size = size; svc = some svc }, w)
      else (false, b, ops.drop_svc svc w)

  -- Whether it succeeded, and what it left.
  pub set_size : ℕ → Balloon Svc → W → Bool × Balloon Svc × W
  unfolding is_set drop_old start_new
  set_size size b w =
      let (set, w) = is_set size b w in
      if set
      then (true, b, w)
      else (let w = drop_old b.svc w in
          let b = record b { svc = none } in
          if size == 0
          then (true, b, w)
          else (let (svc, w) = ops.new_svc size w in start_new size b svc w))

  -- A balloon whose service, if there is one, has a size that is not zero.
  abbrev pub IsBalloon : Balloon Svc → Type 0
  IsBalloon b = (b.svc ≡ none) ⊎ (0 < b.size)

  -- A balloon of a size: none for zero, and else a service of that size.
  abbrev pub IsSized : ℕ → Balloon Svc → Type 0
  IsSized size b =
      ((size ≡ 0) × (b.svc ≡ none)) ⊎ ((0 < size) × (b.size ≡ size) × (is_some b.svc ≡ true))

  set-IsSized :
      (size : ℕ) (b : Balloon Svc) (w : W)
      → IsBalloon b
      → (is_set size b w).0 ≡ true
      → IsSized size b
  unfolding is_set
  set-IsSized size b w i h = ground (arith, i, h)

  -- A change of size has succeeded, or has failed and left no service.
  abbrev IsChanged : ℕ → Bool × Balloon Svc × W → Type 0
  IsChanged size (success, b, w) =
      ((success ≡ true) × IsSized size b) ⊎ ((success ≡ false) × (b.svc ≡ none))

  start_new-IsChanged :
      (size : ℕ) (b : Balloon Svc) (svc : Option Svc) (w : W)
      → 0 < size
      → b.svc ≡ none
      → IsChanged size (start_new size b svc w)
  unfolding start_new
  start_new-IsChanged size b none w p n = inr (refl, n)
  start_new-IsChanged size b (some svc) w p n = ground (arith, p, n)

  resized-IsChanged :
      (size : ℕ) (b : Balloon Svc) (w : W)
      → b.svc ≡ none
      → IsChanged size (
          if size == 0
          then (true, b, w)
          else (let (svc, w) = ops.new_svc size w in start_new size b svc w))
  resized-IsChanged size b w n = elim (Bool-cases (size == 0)) [
    | inl e ↦ rw e (inl (refl, inl (ground arith, n)))
    | inr e ↦
        rw e (
          start_new-IsChanged size b (ops.new_svc size w).0 (ops.new_svc size w).1 (ground arith) n)
  ]

  set_size-IsChanged :
      (size : ℕ) (b : Balloon Svc) (w : W) → IsBalloon b → IsChanged size (set_size size b w)
  unfolding set_size
  set_size-IsChanged size b w i = elim (Bool-cases (is_set size b w).0) [
    | inl e ↦ rw e (inl (refl, set-IsSized size b w i e))
    | inr e ↦
        rw e (
          resized-IsChanged size (record b { svc = none }) (drop_old b.svc (is_set size b w).1)
            refl)
  ]

  -- A change of size that succeeds leaves a balloon of that size, without a service if it is zero.
  -- One that fails leaves no service. The service that was there before, if any, has a size.
  pub set_size-IsSized :
      (size : ℕ) (b : Balloon Svc) (w : W)
      → IsBalloon b
      → (((set_size size b w).0 ≡ true) × IsSized size (set_size size b w).1)
        ⊎ (((set_size size b w).0 ≡ false) × ((set_size size b w).1.svc ≡ none))
  set_size-IsSized = set_size-IsChanged
