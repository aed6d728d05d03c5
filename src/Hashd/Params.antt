-- ===== src/Hashd/Params.antt =====
-- `weights_to_fracs` and `Hashd::update_params` of rd-agent/src/hashd.rs.
use resctl_demo.Prelude.{
  ℕ, ◌≡◌, refl, Option, none, some, Bool, true, false, not, ◌==◌, arith, Bool-cases, if◌then◌else◌,
  inl, inr,
}
use resctl_demo.Hashd.{Floats, HashdCmd, HashdKnobs, HashdParams, Hashd, HashdOps}

-- `max(1)`
abbrev pub at_least_1 : ℕ → ℕ
at_least_1 n = if n == 0 then 1 else n

abbrev pub same_bool : Bool → Bool → Bool
same_bool true b = b
same_bool false b = not b

module _ {F : Type 0} (fl : Floats F) where
  -- The shares of two weights, neither below a tenth.
  pub shares : F → F → F × F
  shares w0 w1 =
      if fl.lt w0 fl.tenth
      then (fl.tenth, fl.nine_tenths)
      else if fl.lt w1 fl.tenth
      then (fl.nine_tenths, fl.tenth)
      else (w0, w1)

  unfoldable pub weights_to_fracs : HashdCmd F → HashdCmd F → F × F
  unfolding shares
  weights_to_fracs c d = elim c.active [
    | false ↦ (if d.active then (fl.zero, fl.one) else (fl.zero, fl.zero))
    | true ↦
        (if d.active
          then (let sum = fl.add c.weight d.weight in
              if fl.le sum fl.zero
              then (fl.half, fl.half)
              else shares (fl.div c.weight sum) (fl.div d.weight sum))
          else (fl.one, fl.zero))
  ]

  -- Of the numbers: the constants are not zero but for zero, and a share that is
  -- not below a tenth is not zero.
  pub record IsFloats : Type 0 where
    pub zero_is : fl.eq fl.zero fl.zero ≡ true
    pub tenth_not : fl.eq fl.tenth fl.zero ≡ false
    pub half_not : fl.eq fl.half fl.zero ≡ false
    pub nine_tenths_not : fl.eq fl.nine_tenths fl.zero ≡ false
    pub one_not : fl.eq fl.one fl.zero ≡ false
    pub small : (x : F) → fl.lt x fl.tenth ≡ false → fl.eq x fl.zero ≡ false

  shares-not_zero :
      (w0 w1 : F)
      → IsFloats
      → (fl.eq (shares w0 w1).0 fl.zero ≡ false) × (fl.eq (shares w0 w1).1 fl.zero ≡ false)
  unfolding shares
  shares-not_zero w0 w1 h = elim (Bool-cases (fl.lt w0 fl.tenth)) [
    | inl p ↦ ground (arith, p, h.tenth_not, h.nine_tenths_not)
    | inr p ↦ (elim (Bool-cases (fl.lt w1 fl.tenth)) [
      | inl q ↦ ground (arith, p, q, h.tenth_not, h.nine_tenths_not)
      | inr q ↦ ground (arith, p, q, h.small w0 p, h.small w1 q)
    ])
  ]

  -- An instance has a share that is not zero exactly when it is to be active, whatever the weights
  -- are, invalid ones included. Of the numbers this takes that the constants compare with zero as
  -- they should and that what is not below a tenth is not zero.
  pub weights_to_fracs-active_iff :
      (c d : HashdCmd F)
      → IsFloats
      → (fl.eq (weights_to_fracs c d).0 fl.zero ≡ not c.active)
        × (fl.eq (weights_to_fracs c d).1 fl.zero ≡ not d.active)
  unfolding weights_to_fracs
  weights_to_fracs-active_iff c d h =
      let s =
        shares-not_zero (fl.div c.weight (fl.add c.weight d.weight))
          (fl.div d.weight (fl.add c.weight d.weight)) h in
      elim (Bool-cases c.active) [
        | inl p ↦ (elim (Bool-cases d.active) [
          | inl q ↦ ground (arith, p, q, s, h.half_not)
          | inr q ↦ ground (arith, p, q, h.zero_is, h.one_not)
        ])
        | inr p ↦ ground (arith, p, h.zero_is, h.one_not)
      ]

  module _ {R W Svc : Type 0} (ops : HashdOps W F R Svc) where
    -- One parameter is set, if it differs, and whether any did is kept.
    pub adjust :
        {A : Type 0}
        → (A → A → Bool)
        → (HashdParams F R → A)
        → (A → HashdParams F R → HashdParams F R)
        → A
        → HashdParams F R × Bool
        → HashdParams F R × Bool
    adjust eq field put v (p, changed) = if eq (field p) v then (p, changed) else (put v p, true)

    abbrev pub or_else : Option F → F → F
    or_else none d = d
    or_else (some v) d = v

    pub adjust_all :
        HashdKnobs F → HashdCmd F → Hashd F Svc → ℕ → HashdParams F R → HashdParams F R × Bool
    unfolding adjust
    adjust_all knobs cmd h rps_target p =
        let x : HashdParams F R × Bool = (p, false) in
        let x =
          adjust (λ a b. a == b) (λ p. p.file_size_mean) (λ v p. record p { file_size_mean = v })
            knobs.hash_size x in
        let x =
          adjust fl.eq (λ p. p.lat_target_pct) (λ v p. record p { lat_target_pct = v })
            h.lat_target_pct x in
        let x =
          adjust fl.eq (λ p. p.lat_target) (λ v p. record p { lat_target = v }) cmd.lat_target x in
        let x =
          adjust (λ a b. a == b) (λ p. p.rps_max) (λ v p. record p { rps_max = v }) h.rps_max x in
        let x =
          adjust (λ a b. a == b) (λ p. p.rps_target) (λ v p. record p { rps_target = v }) rps_target
            x in
        let x =
          adjust fl.eq (λ p. p.mem_frac) (λ v p. record p { mem_frac = v })
            (or_else cmd.mem_ratio knobs.mem_frac) x in
        let x =
          adjust (λ a b. a == b) (λ p. p.chunk_pages) (λ v p. record p { chunk_pages = v })
            knobs.chunk_pages x in
        let x =
          adjust fl.eq (λ p. p.file_addr_stdev_ratio)
            (λ v p. record p { file_addr_stdev_ratio = v })
            (or_else cmd.file_addr_stdev ops.default_params.file_addr_stdev_ratio) x in
        let x =
          adjust fl.eq (λ p. p.anon_addr_stdev_ratio)
            (λ v p. record p { anon_addr_stdev_ratio = v })
            (or_else cmd.anon_addr_stdev ops.default_params.anon_addr_stdev_ratio) x in
        let x =
          adjust fl.eq (λ p. p.file_frac) (λ v p. record p { file_frac = v }) cmd.file_ratio x in
        let x =
          adjust (λ a b. a == b) (λ p. p.log_bps) (λ v p. record p { log_bps = v }) cmd.log_bps x in
        adjust same_bool (λ p. p.fake_cpu_load) (λ v p. record p { fake_cpu_load = v })
          knobs.fake_cpu_load x

    abbrev loaded : Option (HashdParams F R) → HashdParams F R
    loaded none = ops.default_params
    loaded (some p) = p

    unfoldable pub save_changed : HashdParams F R → Bool → Hashd F Svc → W → Bool × Hashd F Svc × W
    save_changed p true h w =
        let (success, w) = ops.save_params h.params_path p w in (success, h, w)
    save_changed p false h w = (true, h, w)

    pub save_changed-same :
        (p : HashdParams F R) (changed : Bool) (h : Hashd F Svc) (w : W)
        → (save_changed p changed h w).1 ≡ h
    unfolding save_changed
    save_changed-same p true h w = refl
    save_changed-same p false h w = refl

    abbrev pub tuned : HashdKnobs F → HashdCmd F → F → Hashd F Svc → Hashd F Svc
    tuned knobs cmd frac h = record h {
      lat_target_pct = cmd.lat_target_pct;
      rps_max = at_least_1 (fl.round_mul knobs.rps_max frac);
    }

    unfoldable pub update_params :
        HashdKnobs F → HashdCmd F → F → Hashd F Svc → W → Bool × Hashd F Svc × W
    unfolding adjust_all save_changed
    update_params knobs cmd frac h w =
        let h = tuned knobs cmd frac h in
        let rps_target = at_least_1 (fl.round_mul h.rps_max cmd.rps_target_ratio) in
        let (p, w) = ops.load_params h.params_path w in
        let (p, changed) = adjust_all knobs cmd h rps_target (loaded p) in
        save_changed p changed h w

    -- What it makes of the instance does not depend on the file.
    pub update_params-same :
        (knobs : HashdKnobs F) (cmd : HashdCmd F) (frac : F) (h : Hashd F Svc) (w : W)
        → (update_params knobs cmd frac h w).1 ≡ tuned knobs cmd frac h
    unfolding update_params
    update_params-same knobs cmd frac h w =
        let h1 = tuned knobs cmd frac h in
        let (p, w1) = ops.load_params h.params_path w in
        let (p, changed) =
          adjust_all knobs cmd h1 (at_least_1 (fl.round_mul h1.rps_max cmd.rps_target_ratio))
            (loaded p) in
        save_changed-same p changed h1 w1
