-- ===== src/ReportData/Fill.antt =====
-- What `fill` leaves in the data ring.
use native.Mathlib.Nat.{mul-le-mul_right}
use resctl_demo.Prelude.{
  ℕ, zero, suc, ◌+◌, ◌-◌, ◌*◌, ◌≤◌, ◌<◌, ◌≡◌, inl, inr, refl, sym, ap, ◌∙◌, List, [], ◌∷◌, ◌++◌,
  Option, some, arith, length, length-drop, drop,
}
use resctl_demo.Prelude.Outcome.{ok}
use resctl_demo.Prelude.Words.{add64}
use resctl_demo.ReportRing.{ReportRecord, ReportRing, back}
use resctl_demo.ReportData.{
  ReportData, Callbacks, add_records, new_records, set_up, truncate, first_new, fill_to, fill_with,
  fill,
}
use resctl_demo.ReportData.Slots.{IsSlot, entry, slot}
use resctl_demo.ReportData.Slots.Steps.{IsReady}
use resctl_demo.ReportData.Slots.Records.{CanAdd, positive_step}
use resctl_demo.ReportData.Slots.Adding.{slot-add_records}

drop_nil : {T : Type 0} (k : ℕ) → drop {A = T} k [] ≡ []
drop_nil zero = refl
drop_nil (suc k) = refl

-- The newest entries are those that stay when older ones are dropped.
entry-drop :
    {T : Type 0} (step k : ℕ) (ring : List (Option T)) (t s : ℕ)
    → 0 < step
    → k ≤ length ring
    → t ≤ s + (length ring - k) * step
    → entry step (drop k ring) t s ≡ entry step ring t s
entry-drop step zero ring t s p h le = refl
entry-drop step (suc k) [] t s p h le = refl
entry-drop step (suc k) (v ∷ ring) t s p h le =
    let e : suc (length ring) - suc k ≡ length ring - k = omega arith in
    let le' : t ≤ s + (length ring - k) * step = omega (arith, le, ap (λ n. n * step) e) in
    let m = mul-le-mul_right {m = length ring - k} {n = length ring} step (omega arith) in
    ground (arith, m, entry-drop step k ring t s p (omega arith) le')

module _ {R T : Type 0} (cb : Callbacks R T) (step : ℕ) where
  length-truncate :
      (nr_slots : ℕ) (ring : List (Option T)) → length (truncate cb nr_slots ring) ≤ nr_slots
  unfolding truncate
  length-truncate nr_slots ring = omega (arith, length-drop (length ring - nr_slots) ring)

  entry-truncate :
      (nr_slots : ℕ) (ring : List (Option T)) (t s : ℕ)
      → 0 < step
      → t ≤ s + length (truncate cb nr_slots ring) * step
      → entry step (truncate cb nr_slots ring) t s ≡ entry step ring t s
  unfolding truncate
  entry-truncate nr_slots ring t s p h =
      let k = length ring - nr_slots in
      entry-drop step k ring t s p (omega arith)
        (omega (arith, h, ap (λ n. n * step) (length-drop k ring)))

  -- What a fill with the records `new` makes of data, when `more` are to come.
  pub record IsFilled (new more : List (ReportRecord R)) (nr_slots newest : ℕ) (d e : ReportData T)
      : Type 0 where
    pub next : e.next_src_at ≡ add64 newest d.src_cadence
    pub bounded : length e.data_ring ≤ nr_slots
    pub ready : CanAdd cb step more e
    pub tip :
        (s : ℕ)
        → IsSlot step s
        → e.tip.at ≤ s
        → slot cb step e more s ≡ slot cb step d (new ++ more) s
    pub ring :
        (s : ℕ)
        → IsSlot step s
        → s < e.tip.at
        → e.tip.at ≤ s + length e.data_ring * step
        → entry step e.data_ring e.tip.at s ≡ slot cb step d (new ++ more) s

  -- Other entries, and another time to go on from.
  refilled :
      (d : ReportData T) (recs : List (ReportRecord R)) (next : ℕ) (ring : List (Option T))
      → IsReady cb step (record d { next_src_at = next; data_ring = ring })
      → CanAdd cb step recs d
      → CanAdd cb step recs (record d { next_src_at = next; data_ring = ring })
  refilled d recs next ring ready h = record {
    set_up = record {
      step_is = h.set_up.step_is;
      product = h.set_up.product;
      stride = h.set_up.stride;
      cadence = h.set_up.cadence;
      step_fits = h.set_up.step_fits;
      stride_fits = h.set_up.stride_fits;
    };
    at_slot = h.at_slot;
    ready = ready;
    not_before = h.not_before;
    spaced = h.spaced;
    not_early = h.not_early;
    small = h.small;
  }

  truncate-IsReady :
      (d : ReportData T) (nr_slots : ℕ)
      → IsReady cb step d
      → IsReady cb step (record d { data_ring = truncate cb nr_slots d.data_ring })
  unfolding truncate
  truncate-IsReady d nr_slots (inl p) = inl p
  truncate-IsReady d nr_slots (inr (none_yet, no_value, no_sample)) = inr (
    ap (λ ring. drop (length ring - nr_slots) ring) none_yet ∙ drop_nil (0 - nr_slots),
    no_value,
    no_sample,
  )

  in_ring :
      (d : ReportData T) (more : List (ReportRecord R)) (s : ℕ)
      → s < d.tip.at
      → slot cb step d more s ≡ entry step d.data_ring d.tip.at s
  in_ring d more s h = ground arith

  -- The records that `fill` takes for new.
  abbrev pub new_of : ReportRecord R → ℕ → ReportRing R → ReportData T → List (ReportRecord R)
  new_of newest nr_slots src d = new_records cb (first_new cb newest.at nr_slots d) src.ring

  fill_to-IsFilled :
      (newest nr_slots : ℕ) (ring more : List (ReportRecord R)) (d : ReportData T)
      → CanAdd cb step (new_records cb (first_new cb newest nr_slots d) ring ++ more) d
      → IsFilled
          (new_records cb (first_new cb newest nr_slots d) ring)
          more
          nr_slots
          newest
          d
          (fill_to cb newest nr_slots ring d)
  unfolding fill_to
  fill_to-IsFilled newest nr_slots ring more d h =
      let new = new_records cb (first_new cb newest nr_slots d) ring in
      let d1 : ReportData T = record d { next_src_at = add64 newest d.src_cadence } in
      let (can, slots, same) =
        slot-add_records cb step new more d1
          (refilled d (new ++ more) (add64 newest d.src_cadence) d.data_ring h.ready h) in
      let added = add_records cb new d1 in
      record {
        next = ap (λ x. x.next_src_at) same;
        bounded = length-truncate nr_slots added.data_ring;
        ready =
            refilled added more added.next_src_at (truncate cb nr_slots added.data_ring)
              (truncate-IsReady added nr_slots can.ready) can;
        tip = λ s hs le. ground (arith, slots s hs);
        ring = λ s hs lt le.
            entry-truncate nr_slots added.data_ring added.tip.at s
              (positive_step cb step d h.set_up) le
            ∙ sym (in_ring added more s lt)
            ∙ slots s hs;
      }

  returns :
      (newest : ReportRecord R) (nr_slots : ℕ) (src : ReportRing R) (d : ReportData T)
      → back src.ring ≡ some newest
      → 0 < d.step
      → fill_with cb nr_slots src d ≡ ok (fill_to cb newest.at nr_slots src.ring d)
  unfolding fill_with
  returns newest nr_slots src d b p = ground (arith, b)

  -- A fill from a ring with a newest record returns. The data ring then has at most `nr_slots`
  -- entries, and the entry of each slot that it reaches back to is what that slot was to come to:
  -- the entry that it had, or else the samples of its new records, after those in the tip,
  -- accumulated in order and aggregated, and `none` if there are none. The same goes for the slots
  -- from the tip on, which the records still to come complete, and the data are ready for those.
  -- The new records and those to come are at least a cadence apart and not before the tip, the step
  -- is the stride times the cadence, neither is zero, and no time is near zero or the end of `u64`.
  pub fill-IsFilled :
      (stride nr_slots : ℕ) (src : ReportRing R) (newest : ReportRecord R)
      (more : List (ReportRecord R)) (d : ReportData T)
      → back src.ring ≡ some newest
      → CanAdd cb step
          (new_of newest nr_slots src (set_up cb stride nr_slots src d) ++ more)
          (set_up cb stride nr_slots src d)
      → (e : ReportData T) × (fill cb stride nr_slots src d ≡ ok e)
        × IsFilled
            (new_of newest nr_slots src (set_up cb stride nr_slots src d))
            more
            nr_slots
            newest.at
            (set_up cb stride nr_slots src d)
            e
  unfolding fill fill_with
  fill-IsFilled stride nr_slots src newest more d b h =
      let d0 = set_up cb stride nr_slots src d in
      (
        fill_to cb newest.at nr_slots src.ring d0,
        returns newest nr_slots src d0 b
            (omega (arith, positive_step cb step d0 h.set_up, h.set_up.step_is)),
        fill_to-IsFilled newest.at nr_slots src.ring more d0 h,
      )
