-- ===== src/ReportData/Slots/Steps.antt =====
-- The slots after one push, one sample, and the catching up.
use resctl_demo.Prelude.{
  ℕ, zero, suc, ◌+◌, ◌≤◌, ◌<◌, ◌≡◌, ◌⊎◌, inl, inr, refl, sym, ap, ap₂, ◌∙◌, List, [], ◌∷◌,
  Bool-cases, arith, subst, ltb→lt, ltb, All, All-map,
}
use resctl_demo.Prelude.Words.{u64_mod, add64-lt}
use resctl_demo.ReportRing.{ReportRecord}
use resctl_demo.ReportData.{
  ReportData, ReportDataTip, Callbacks, align_to, consumed, aggregated, next_tip, push_tip,
  accumulate, catch_up, start_tip,
}
use resctl_demo.ReportData.Slots.{
  IsSlot, apart, next-IsSlot, entry, entry-push, absorb_all, absorb_none, in_tip, finished, slot,
}

module _ {R T : Type 0} (cb : Callbacks R T) (step : ℕ) where
  consumed-finished :
      (tip : ReportDataTip T)
      → aggregated cb (consumed cb tip) ≡ finished cb step (tip.value, tip.nr_samples)
  unfolding consumed aggregated
  consumed-finished tip = ground arith

  -- The times of the records are in slots after a time.
  abbrev pub Later : ℕ → List (ReportRecord R) → Type 0
  Later at = All (λ rec. at < align_to step rec.at)

  abbrev pub NotBefore : ℕ → List (ReportRecord R) → Type 0
  NotBefore at = All (λ rec. at ≤ align_to step rec.at)

  pub slot-push_tip :
      (d : ReportData T) (recs : List (ReportRecord R)) (s : ℕ)
      → d.step ≡ step
      → 0 < step
      → d.tip.at + step < u64_mod
      → IsSlot step s
      → IsSlot step d.tip.at
      → Later d.tip.at recs
      → slot cb step (push_tip cb d) recs s ≡ slot cb step d recs s
  unfolding push_tip next_tip
  slot-push_tip d recs s e p b hs ht later = ground (
    arith,
    e,
    apart step s d.tip.at hs ht,
    add64-lt d.tip.at step b,
    entry-push step d.data_ring (aggregated cb (consumed cb d.tip)) d.tip.at s p,
    consumed-finished d.tip,
    absorb_none cb step d.tip.at recs (d.tip.value, d.tip.nr_samples) later,
  )

  pub slot-accumulate :
      (d : ReportData T) (rec : ReportRecord R) (recs : List (ReportRecord R)) (s : ℕ)
      → align_to step rec.at ≡ d.tip.at
      → slot cb step (accumulate cb rec.rep d) recs s ≡ slot cb step d (rec ∷ recs) s
  unfolding accumulate
  slot-accumulate d rec recs s e = ground arith

  -- The first record sets the tip of data that is new.
  abbrev pub IsFresh : ReportData T → Type 0
  IsFresh d = (d.data_ring ≡ []) × (d.tip.value ≡ cb.default) × (d.tip.nr_samples ≡ 0)

  abbrev pub IsReady : ReportData T → Type 0
  IsReady d = (0 < d.tip.at) ⊎ IsFresh d

  fresh_sum :
      (tip : ReportDataTip T) (s : ℕ)
      → tip.value ≡ cb.default
      → tip.nr_samples ≡ 0
      → in_tip cb step tip s ≡ (cb.default, 0)
  fresh_sum tip s e f = ground (arith, ap₂ {C = T × ℕ} (λ v n. (v, n)) e f)

  before_all : (s at : ℕ) (recs : List (ReportRecord R)) → s < at → NotBefore at recs → Later s recs
  before_all s at recs b h = All-map _ _ recs (λ rec k. omega (arith, k)) h

  fresh_none :
      (s at : ℕ) (recs : List (ReportRecord R))
      → NotBefore at recs
      → s < at
      → absorb_all cb step s recs (cb.default, 0) ≡ (cb.default, 0)
  fresh_none s at recs h b = absorb_none cb step s recs (cb.default, 0) (before_all s at recs b h)

  fresh_slot :
      (d : ReportData T) (at : ℕ) (recs : List (ReportRecord R)) (s : ℕ)
      → IsFresh d
      → d.tip.at ≡ 0
      → NotBefore at recs
      → slot cb step (record d { tip = record d.tip { at = at } }) recs s ≡ slot cb step d recs s
  fresh_slot d at recs s (none_yet, no_value, no_sample) e h = ground (
    arith,
    ap (λ ring. entry step ring at s) none_yet,
    ap (absorb_all cb step s recs) (fresh_sum (record d.tip { at = at }) s no_value no_sample),
    ap (absorb_all cb step s recs) (fresh_sum d.tip s no_value no_sample),
    fresh_none s at recs h,
  )

  pub slot-start_tip :
      (d : ReportData T) (at : ℕ) (recs : List (ReportRecord R)) (s : ℕ)
      → IsReady d
      → NotBefore at recs
      → slot cb step (start_tip cb at d) recs s ≡ slot cb step d recs s
  unfolding start_tip
  slot-start_tip d at recs s ready h = ground (arith, fresh_slot d at recs s)

  -- What catching up to a slot leaves.
  pub record CaughtUp (at : ℕ) (recs : List (ReportRecord R)) (d e : ReportData T) : Type 0 where
    pub at_slot : e.tip.at ≡ at
    pub same : e ≡ record d { tip = e.tip; data_ring = e.data_ring }
    pub slots : (s : ℕ) → IsSlot step s → slot cb step e recs s ≡ slot cb step d recs s

  pub catch_up-CaughtUp :
      (fuel at : ℕ) (d : ReportData T) (recs : List (ReportRecord R))
      → d.step ≡ step
      → 0 < step
      → at + step < u64_mod
      → IsSlot step at
      → IsSlot step d.tip.at
      → NotBefore at recs
      → d.tip.at ≤ at
      → at ≤ d.tip.at + fuel
      → CaughtUp at recs d (catch_up cb fuel at d)
  unfolding catch_up push_tip next_tip
  catch_up-CaughtUp zero at d recs e p b hat ht nb le enough = record {
    at_slot = omega arith;
    same = refl;
    slots = λ s h. refl;
  }
  catch_up-CaughtUp (suc fuel) at d recs e p b hat ht nb le enough =
      elim (Bool-cases (ltb d.tip.at at)) [
        | inl h ↦
            let below : d.tip.at < at = ltb→lt d.tip.at at h in
            let by_step : d.tip.at + step ≤ at = ground (arith, apart step at d.tip.at hat ht) in
            let sum : (push_tip cb d).tip.at ≡ d.tip.at + step =
              ground (arith, e, add64-lt d.tip.at step) in
            let more =
              catch_up-CaughtUp fuel at (push_tip cb d) recs e p b hat
                (subst (IsSlot step) (sym sum) (next-IsSlot step d.tip.at ht)) nb (omega arith)
                (omega arith) in
            rw h (record {
              at_slot = more.at_slot;
              same = more.same;
              slots = λ s hs.
                  more.slots s hs
                  ∙ slot-push_tip d recs s e p (omega arith) hs ht
                      (before_all d.tip.at at recs below nb);
            })
        | inr h ↦ rw h (record { at_slot = ground arith; same = refl; slots = λ s hs. refl })
      ]
