-- ===== src/ReportData/Slots/Records.antt =====
-- The records that can be added, and to what data.
use resctl_demo.Prelude.{
  ℕ, zero, suc, ◌+◌, ◌-◌, ◌*◌, ◌%◌, ◌≤◌, ◌<◌, ◌≡◌, sym, ap, ◌∙◌, subst, List, [], ◌∷◌, arith, All,
  All-map,
}
use resctl_demo.Prelude.Words.{u64_mod, sub64, mul64, sub64-le}
use resctl_demo.Prelude.Rounding.{round-monotone, round_past}
use resctl_demo.ReportRing.{ReportRecord}
use resctl_demo.ReportData.{ReportData, Callbacks, align_to}
use resctl_demo.ReportData.Slots.{IsSlot}
use resctl_demo.ReportData.Slots.Steps.{NotBefore, IsReady}

-- A part of a step before its end.
last_part :
    (step stride cadence : ℕ)
    → step ≡ stride * cadence
    → 0 < stride
    → step < u64_mod
    → stride < u64_mod
    → (mul64 (sub64 stride 1) cadence ≡ step - cadence) × (cadence ≤ step)
last_part step zero cadence e p b c = absurd (omega (arith, p))
last_part step (suc n) cadence e p b c =
    let f : sub64 (suc n) 1 ≡ n = omega (arith, sub64-le (suc n) 1 p c) in
    (ap (λ m. mul64 m cadence) f ∙ (omega arith), omega arith)

module _ {R T : Type 0} (cb : Callbacks R T) (step : ℕ) where
  -- Records that come one after another, at least a cadence apart.
  abbrev pub InOrder : ℕ → List (ReportRecord R) → Type 0
  InOrder cadence [] = Unit
  InOrder cadence (rec ∷ recs) =
      All (λ next. rec.at + cadence ≤ next.at) recs × InOrder cadence recs

  -- The settings are those of `fill`.
  pub record IsSetUp (d : ReportData T) : Type 0 where
    pub step_is : d.step ≡ step
    pub product : step ≡ d.stride * d.src_cadence
    pub stride : 0 < d.stride
    pub cadence : 0 < d.src_cadence
    pub step_fits : step < u64_mod
    pub stride_fits : d.stride < u64_mod

  -- Data to which records can be added.
  pub record CanAdd (recs : List (ReportRecord R)) (d : ReportData T) : Type 0 where
    pub set_up : IsSetUp d
    pub at_slot : IsSlot step d.tip.at
    pub ready : IsReady cb step d
    pub not_before : NotBefore cb step d.tip.at recs
    pub spaced : InOrder d.src_cadence recs
    pub not_early : All (λ rec. step ≤ rec.at) recs
    pub small : All (λ rec. rec.at + step + step < u64_mod) recs

  pub positive_step : (d : ReportData T) → IsSetUp d → 0 < step
  positive_step d h = grind (arith, h.product, h.stride, h.cadence)

  pub rest-NotBefore :
      (d : ReportData T) (rec : ReportRecord R) (recs : List (ReportRecord R))
      → CanAdd (rec ∷ recs) d
      → NotBefore cb step (align_to step rec.at) recs
  rest-NotBefore d rec recs h =
      All-map _ _ recs
        (λ next k. round-monotone rec.at next.at step (positive_step d h.set_up) (omega (arith, k)))
        h.spaced.0

  pub rest_after_last :
      (d : ReportData T) (rec : ReportRecord R) (recs : List (ReportRecord R))
      → CanAdd (rec ∷ recs) d
      → rec.at % step ≡ mul64 (sub64 d.stride 1) d.src_cadence
      → NotBefore cb step (align_to step rec.at + step) recs
  rest_after_last d rec recs h e =
      let (part, fits) =
        last_part step d.stride d.src_cadence h.set_up.product h.set_up.stride h.set_up.step_fits
          h.set_up.stride_fits in
      All-map _ _ recs
        (λ next k.
          round_past rec.at next.at step d.src_cadence (positive_step d h.set_up) (e ∙ part) fits k)
        h.spaced.0

  pub with_ring :
      (d : ReportData T) (e : ReportData T)
      → e ≡ record d { tip = e.tip; data_ring = e.data_ring }
      → IsSetUp d
      → IsSetUp e
  with_ring d e same h = subst IsSetUp (sym same) (record {
    step_is = h.step_is;
    product = h.product;
    stride = h.stride;
    cadence = h.cadence;
    step_fits = h.step_fits;
    stride_fits = h.stride_fits;
  })
