-- ===== src/ReportData/Slots/Adding.antt =====
-- The slots after records are added, and what the adding keeps.
use resctl_demo.Prelude.{
  ℕ, ◌+◌, ◌/◌, ◌%◌, ◌≤◌, ◌<◌, ◌≡◌, inl, inr, refl, sym, ap, ap₂, ◌∙◌, subst, List, [], ◌∷◌, ◌++◌,
  Bool-cases, arith, ◌==◌, All-map, ==_iff,
}
use resctl_demo.Prelude.Words.{u64_mod, add64, sub64, mul64, add64-lt}
use resctl_demo.Prelude.Rounding.{round_down}
use resctl_demo.ReportRing.{ReportRecord}
use resctl_demo.ReportData.{
  ReportData, Callbacks, align_to, push_tip, next_tip, accumulate, catch_up, start_tip, is_last,
  close_slot, add_record, add_records,
}
use resctl_demo.ReportData.Slots.{IsSlot, next-IsSlot, slot}
use resctl_demo.ReportData.Slots.Steps.{
  Later, NotBefore, IsReady, catch_up-CaughtUp, slot-push_tip, slot-accumulate, slot-start_tip,
}
use resctl_demo.ReportData.Slots.Records.{
  CanAdd, positive_step, rest-NotBefore, rest_after_last, with_ring, InOrder,
}

module _ {R T : Type 0} (cb : Callbacks R T) (step : ℕ) where
  -- What is the same after a step, with the tip at a slot.
  record Kept (at : ℕ) (before after : List (ReportRecord R)) (d e : ReportData T) : Type 0 where
    at_slot : e.tip.at ≡ at
    same : e ≡ record d { tip = e.tip; data_ring = e.data_ring }
    slots : (s : ℕ) → IsSlot step s → slot cb step e after s ≡ slot cb step d before s

  started :
      (d : ReportData T) (at : ℕ) (recs : List (ReportRecord R))
      → IsReady cb step d
      → NotBefore cb step at recs
      → IsSlot step at
      → IsSlot step d.tip.at
      → d.tip.at ≤ at
      → (t : ℕ) × (t ≤ at) × IsSlot step t × Kept t recs recs d (start_tip cb at d)
  unfolding start_tip
  started d at recs r nb hat ht le = elim (Bool-cases (d.tip.at == 0)) [
    | inl h ↦ (
      at,
      omega arith,
      hat,
      record {
        at_slot = ground arith;
        same = ground arith;
        slots = λ s hs. slot-start_tip cb step d at recs s r nb;
      },
    )
    | inr h ↦ (
      d.tip.at,
      le,
      ht,
      record {
        at_slot = ground arith;
        same = ground arith;
        slots = λ s hs. slot-start_tip cb step d at recs s r nb;
      },
    )
  ]

  Kept-trans :
      (t u : ℕ) (before between after : List (ReportRecord R)) (d e f : ReportData T)
      → Kept t before between d e
      → Kept u between after e f
      → Kept u before after d f
  Kept-trans t u before between after d e f k l = record {
    at_slot = l.at_slot;
    same =
        l.same
        ∙ ap {A = ReportData T} {B = ReportData T}
            (λ x. record x { tip = f.tip; data_ring = f.data_ring }) k.same;
    slots = λ s hs. l.slots s hs ∙ k.slots s hs;
  }

  sampled_at :
      (d : ReportData T) (rec : ReportRecord R) (recs : List (ReportRecord R)) (at : ℕ)
      → CanAdd cb step (rec ∷ recs) d
      → at ≡ align_to step rec.at
      → Kept at (rec ∷ recs) recs d (accumulate cb rec.rep (catch_up cb at at (start_tip cb at d)))
  unfolding accumulate
  sampled_at d rec recs at h e =
      let p = positive_step cb step d h.set_up in
      let nb : NotBefore cb step at (rec ∷ recs) = (
        omega arith,
        subst (λ x. NotBefore cb step x recs) (sym e) (rest-NotBefore cb step d rec recs h),
      ) in
      let hat : IsSlot step at = (rec.at / step, e) in
      let (t, le, ht, k) =
        started d at (rec ∷ recs) h.ready nb hat h.at_slot (omega (arith, h.not_before.0)) in
      let d0 = start_tip cb at d in
      let caught =
        catch_up-CaughtUp cb step at at d0 (rec ∷ recs)
          (with_ring cb step d d0 k.same h.set_up).step_is p
          (omega (arith, h.small.0, round_down rec.at step)) hat
          (subst (IsSlot step) (sym k.at_slot) ht) nb (omega (arith, k.at_slot)) (omega arith) in
      let d1 = catch_up cb at at d0 in
      Kept-trans t at (rec ∷ recs) (rec ∷ recs) recs d d0 (accumulate cb rec.rep d1) k (record {
        at_slot = caught.at_slot;
        same =
            ap {A = ReportData T} {B = ReportData T}
              (λ x. record x { tip = (accumulate cb rec.rep d1).tip; data_ring = d1.data_ring })
              caught.same;
        slots = λ s hs.
            slot-accumulate cb step d1 rec recs s (sym (caught.at_slot ∙ e)) ∙ caught.slots s hs;
      })

  -- The slot of a record is closed after the last record that it can have.
  closed :
      (d e : ReportData T) (rec : ReportRecord R) (recs : List (ReportRecord R))
      → CanAdd cb step (rec ∷ recs) d
      → Kept (align_to step rec.at) (rec ∷ recs) recs d e
      → (t : ℕ) × Kept t recs recs e (close_slot cb rec.at e)
        × IsSlot step t
        × (0 < t)
        × NotBefore cb step t recs
  unfolding close_slot push_tip next_tip is_last
  closed d e rec recs h k =
      let p = positive_step cb step d h.set_up in
      let up = with_ring cb step d e k.same h.set_up in
      let at = align_to step rec.at in
      let hat : IsSlot step at = (rec.at / step, refl) in
      let pos : 0 < at = grind (arith, h.not_early.0) in
      elim (Bool-cases (is_last cb rec.at e)) [
        | inl b ↦
            let last : rec.at % step ≡ mul64 (sub64 d.stride 1) d.src_cadence =
              ap (λ n. rec.at % n) (sym up.step_is)
              ∙ (==_iff (rec.at % e.step) _).0 b
              ∙ ap₂ (λ x y. mul64 (sub64 x 1) y) (ap (λ x. x.stride) k.same)
                  (ap (λ x. x.src_cadence) k.same) in
            let nb = rest_after_last cb step d rec recs h last in
            let room : e.tip.at + step < u64_mod =
              omega (arith, k.at_slot, h.small.0, round_down rec.at step) in
            let small_sum : add64 e.tip.at e.step ≡ at + step =
              ap (add64 e.tip.at) up.step_is
              ∙ add64-lt e.tip.at step room
              ∙ ap (λ x. x + step) k.at_slot in
            let later : Later cb step e.tip.at recs =
              All-map _ _ recs (λ next l. omega (arith, l, k.at_slot)) nb in
            (
              at + step,
              rw b (record {
                at_slot = small_sum;
                same = refl;
                slots = λ s hs.
                    slot-push_tip cb step e recs s up.step_is p room hs
                      (subst (IsSlot step) (sym k.at_slot) hat) later;
              }),
              next-IsSlot step at hat,
              omega arith,
              nb,
            )
        | inr b ↦ (
          at,
          rw b (record { at_slot = k.at_slot; same = refl; slots = λ s hs. refl }),
          hat,
          pos,
          rest-NotBefore cb step d rec recs h,
        )
      ]

  add_record-CanAdd :
      (d : ReportData T) (rec : ReportRecord R) (recs : List (ReportRecord R))
      → CanAdd cb step (rec ∷ recs) d
      → CanAdd cb step recs (add_record cb rec d)
        × ((s : ℕ)
            → IsSlot step s
            → slot cb step (add_record cb rec d) recs s ≡ slot cb step d (rec ∷ recs) s)
        × (let e = add_record cb rec d in e ≡ record d { tip = e.tip; data_ring = e.data_ring })
  unfolding add_record
  add_record-CanAdd d rec recs h =
      let at = align_to d.step rec.at in
      let at_is : at ≡ align_to step rec.at = ap (λ n. align_to n rec.at) h.set_up.step_is in
      let e = accumulate cb rec.rep (catch_up cb at at (start_tip cb at d)) in
      let sample = sampled_at d rec recs at h at_is in
      let k : Kept (align_to step rec.at) (rec ∷ recs) recs d e = record {
        at_slot = sample.at_slot ∙ at_is;
        same = sample.same;
        slots = sample.slots;
      } in
      let (t, l, ht, pos, nb) = closed d e rec recs h k in
      let f = close_slot cb rec.at e in
      let both = Kept-trans _ t (rec ∷ recs) recs recs d e f k l in
      (
        record {
          set_up = with_ring cb step d f both.same h.set_up;
          at_slot = subst (IsSlot step) (sym both.at_slot) ht;
          ready = inl (omega (arith, both.at_slot));
          not_before = subst (λ x. NotBefore cb step x recs) (sym both.at_slot) nb;
          spaced =
              subst (λ c. InOrder cb step c recs) (sym (ap (λ x. x.src_cadence) both.same))
                h.spaced.1;
          not_early = h.not_early.1;
          small = h.small.1;
        },
        both.slots,
        both.same,
      )

  -- Adding records, with more of them to come, leaves each slot at what it was to come to.
  pub slot-add_records :
      (recs more : List (ReportRecord R)) (d : ReportData T)
      → CanAdd cb step (recs ++ more) d
      → CanAdd cb step more (add_records cb recs d)
        × ((s : ℕ)
            → IsSlot step s
            → slot cb step (add_records cb recs d) more s ≡ slot cb step d (recs ++ more) s)
        × (let e = add_records cb recs d in e ≡ record d { tip = e.tip; data_ring = e.data_ring })
  unfolding add_records
  slot-add_records [] more d h = (h, (λ s hs. refl), refl)
  slot-add_records (rec ∷ recs) more d h =
      let (next, same, settings) = add_record-CanAdd d rec (recs ++ more) h in
      let (last, e, settings') = slot-add_records recs more (add_record cb rec d) next in
      let f = add_records cb recs (add_record cb rec d) in
      (
        last,
        (λ s hs. e s hs ∙ same s hs),
        settings'
            ∙ ap {A = ReportData T} {B = ReportData T}
                (λ x. record x { tip = f.tip; data_ring = f.data_ring }) settings,
      )
