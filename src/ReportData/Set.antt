-- ===== src/ReportData/Set.antt =====
-- The two sets of data, filled together and read one after the other: `ReportDataSet` of
-- resctl-demo/src/report_ring.rs and the iterators.
use resctl_demo.Prelude.{
  ℕ, suc, ◌+◌, ◌-◌, ◌*◌, ◌/◌, ◌≤◌, ◌<◌, ◌≡◌, refl, ap, List, [], ◌∷◌, ◌++◌, map, Option, ◌==◌, ltb,
  length, if◌then◌else◌, arith, map,
}
use resctl_demo.Prelude.Outcome.{Outcome, ok, panicked, ◌>>=◌}
use resctl_demo.Prelude.Words.{u64_mod, sub64, mul64, sub64-le}
use resctl_demo.ReportRing.{ReportRingSet, update_set}
use resctl_demo.ReportData.{ReportData, Callbacks, new, fill}

module _ {κ} {T : Type κ} where
  -- The rest of the iterator: `next` and the step of the data, and what is left of the ring.
  pub iter_rest : ℕ → ℕ → List (Option T) → List (ℕ × Option T)
  iter_rest next_src_at step [] = []
  iter_rest next_src_at step (v ∷ ring) =
      (sub64 next_src_at (mul64 (suc (length ring)) step), v) ∷ iter_rest next_src_at step ring

  pub iter : ReportData T → List (ℕ × Option T)
  unfolding iter_rest
  iter d = iter_rest d.next_src_at d.step d.data_ring

pub record ReportDataSet {κ} (T : Type κ) : Type κ where
  pub sec_data : ReportData T
  pub min_data : ReportData T

module _ {ℓ κ} {R : Type ℓ} {T : Type κ} (cb : Callbacks R T) where
  pub new_set : ReportDataSet T
  unfolding new
  new_set = record { sec_data = new cb; min_data = new cb }

  -- `(stride as f64 / 60.0).ceil() as u64`, which is exact up to 2 ^ 53
  pub min_stride : ℕ → ℕ
  min_stride stride = (stride + 59) / 60

  pub fill_min : ℕ → ℕ → ReportRingSet R → ReportData T → Outcome (ReportData T)
  unfolding fill min_stride
  fill_min stride span src min_data =
      let src_sec_len = length src.sec_ring.ring in
      let stride = min_stride stride in
      if ltb src_sec_len span
      then fill cb stride ((span - src_sec_len) / 60 / stride) src.min_ring min_data
      else ok min_data

  -- The rings are shared, behind a lock. A stride of zero divides by zero.
  pub fill_set {μ} :
      {D : Type μ}
      → (D → ℕ → Option R)
      → Option D
      → Option D
      → ℕ
      → ℕ
      → ℕ
      → ReportRingSet R
      → ReportDataSet T
      → Outcome (ReportRingSet R × ReportDataSet T)
  unfolding update_set fill fill_min
  fill_set load report_d report_1min_d now stride span src set =
      update_set load report_d report_1min_d now src >>= λ src.
      if stride == 0
      then panicked
      else (fill cb stride (span / stride) src.sec_ring set.sec_data >>= λ sec_data.
          fill_min stride span src set.min_data >>= λ min_data.
          ok (src, record { sec_data = sec_data; min_data = min_data }))

  pub latest_at : ReportDataSet T → ℕ
  latest_at set =
      if ltb set.sec_data.step set.sec_data.next_src_at
      then set.sec_data.next_src_at - set.sec_data.step
      else 0

  pub iter_set : ReportDataSet T → List (ℕ × Option T)
  unfolding iter
  iter_set set = iter set.min_data ++ iter set.sec_data

-- The times of the entries: each is one step before the one after it.
abbrev pub AreSteps {κ} : {T : Type κ} → ℕ → ℕ → List (ℕ × Option T) → Type 0
AreSteps end step [] = Unit
AreSteps end step (e ∷ rest) = (e.0 + suc (length rest) * step ≡ end) × AreSteps end step rest

module _ {T : Type 0} where
  length-iter_rest :
      (next step : ℕ) (ring : List (Option T)) → length (iter_rest next step ring) ≡ length ring
  unfolding iter_rest
  length-iter_rest next step [] = refl
  length-iter_rest next step (v ∷ ring) = ap suc (length-iter_rest next step ring)

  iter_rest-AreSteps :
      (next step : ℕ) (ring : List (Option T))
      → length ring * step ≤ next
      → next < u64_mod
      → AreSteps next step (iter_rest next step ring)
        × (map (λ e. e.1) (iter_rest next step ring) ≡ ring)
  unfolding iter_rest
  iter_rest-AreSteps next step [] h b = (tt, refl)
  iter_rest-AreSteps next step (v ∷ ring) h b =
      let (steps, same) = iter_rest-AreSteps next step ring (omega arith) b in
      let fits : mul64 (suc (length ring)) step ≡ suc (length ring) * step = omega arith in
      let time : sub64 next (mul64 (suc (length ring)) step) + suc (length ring) * step ≡ next =
        omega (arith, ap (sub64 next) fits, sub64-le next (suc (length ring) * step) h b) in
      (
        (omega (arith, time, ap (λ n. n * step) (ap suc (length-iter_rest next step ring))), steps),
        ap (λ r. v ∷ r) same,
      )

  -- The iterator gives the entries of the data ring in order, each with a time one step before that
  -- of the next entry, the last one a step before the time to go on from, if those times are not
  -- before zero.
  pub iter-AreSteps :
      (d : ReportData T)
      → length d.data_ring * d.step ≤ d.next_src_at
      → d.next_src_at < u64_mod
      → AreSteps d.next_src_at d.step (iter d) × (map (λ e. e.1) (iter d) ≡ d.data_ring)
  unfolding iter
  iter-AreSteps d h b = iter_rest-AreSteps d.next_src_at d.step d.data_ring h b
