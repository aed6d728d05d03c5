-- ===== src/ReportRing/Pair.antt =====
-- The two rings of a set meet: the minutes end where the seconds start.
use resctl_demo.Prelude.{
  ℕ, zero, suc, ◌+◌, ◌-◌, ◌*◌, ◌/◌, ◌≤◌, ◌<◌, ◌≡◌, ◌⊎◌, inl, inr, refl, sym, ap, ◌∙◌, subst, List,
  [], Option, none, some, arith, All, All-map,
}
use resctl_demo.Prelude.Outcome.{ok}
use resctl_demo.Prelude.Words.{u64_mod, sub64, sub64-le}
use resctl_demo.ReportRing.{
  ReportRecord, ReportRing, ReportRingSet, loaded, scan, nr_steps, update, update_set, new_set,
  refresh,
}
use resctl_demo.ReportRing.Window.{window, Fits, Fits-window}
use resctl_demo.ReportRing.Update.{InRange, IsLoaded, now_of, start_of, refresh-IsLoaded}

min_now : (now a : ℕ) → a + 60 ≤ now → now < u64_mod → sub64 (sub64 now a) 60 ≡ now - a - 60
min_now now a h k =
    ap (λ x. sub64 x 60) (sub64-le now a (omega arith) k)
    ∙ sub64-le (now - a) 60 (omega arith) (omega arith)

module _ {ℓ} {R : Type ℓ} where
  -- The times of the records are in a range.
  abbrev pub AreWithin : ℕ → ℕ → List (ReportRecord R) → Type 0
  AreWithin first last = All (λ rec. (first ≤ rec.at) × (rec.at ≤ last))

  loaded-AreWithin :
      (first last at : ℕ) (o : Option R) (ring : List (ReportRecord R))
      → first ≤ at
      → at ≤ last
      → AreWithin first last ring
      → AreWithin first last (loaded at o ring)
  unfolding loaded
  loaded-AreWithin first last at none ring h k w = w
  loaded-AreWithin first last at (some rep) ring h k w = ((h, k), w)

  scan-AreWithin :
      (load : ℕ → Option R) (c first last n at : ℕ)
      → first ≤ at
      → Fits load c last at n
      → AreWithin first last (scan load c at n)
  unfolding scan
  scan-AreWithin load c first last zero at h fit = tt
  scan-AreWithin load c first last (suc n) at h fit =
      loaded-AreWithin first last at (load at) _ h fit.0
        (scan-AreWithin load c first last n (at + c) (omega arith) fit.1)

  loaded_within :
      (load : ℕ → Option R) (now : ℕ) (r : ReportRing R)
      → InRange now r
      → IsLoaded load now r
      → AreWithin (start_of r now) (now_of r now) r.ring
  unfolding window
  loaded_within load now r h e =
      let n = nr_steps r.cadence (start_of r now) (now_of r now) in
      subst (AreWithin (start_of r now) (now_of r now)) (sym e) (
        scan-AreWithin load r.cadence (start_of r now) (now_of r now) n (start_of r now)
          (omega arith)
          (Fits-window load r.cadence (now_of r now) n (start_of r now) h.cadence refl))

  -- A set with the settings of `ReportRingSet::new`, its retentions and its records.
  abbrev pub set_of : ℕ → ℕ → List (ReportRecord R) → List (ReportRecord R) → ReportRingSet R
  set_of sec_retention min_retention secs mins = record {
    sec_ring = record { ring = secs; cadence = 1; tail_cadence = 60; retention = sec_retention };
    min_ring = record { ring = mins; cadence = 60; tail_cadence = 60; retention = min_retention };
  }

  new_set-set_of : (a b : ℕ) → new_set a b ≡ set_of a b [] []
  unfolding new_set
  new_set-set_of a b = refl

  -- What both rings are after an update at a time.
  pub record AreLoaded {D : Type 0} (load : D → ℕ → Option R) (secs mins : D) (now : ℕ)
      (s : ReportRingSet R) : Type ℓ where
    pub sec : IsLoaded (load secs) now s.sec_ring
    pub min : IsLoaded (load mins) (now - s.sec_ring.retention - 60) s.min_ring

  pub record AreInRange (now : ℕ) (s : ReportRingSet R) : Type 0 where
    pub room : s.sec_ring.retention + 60 ≤ now
    pub sec : InRange now s.sec_ring
    pub min : InRange (now - s.sec_ring.retention - 60) s.min_ring

  -- The minutes end one minute before the seconds start.
  pub record AreMeeting (now : ℕ) (s : ReportRingSet R) : Type 0 where
    pub start : ℕ
    pub sec : AreWithin start now s.sec_ring.ring
    pub min : All (λ rec. rec.at + 60 ≤ start) s.min_ring.ring

  meet :
      (now a b : ℕ) (secs mins : List (ReportRecord R))
      → a + 60 ≤ now
      → now < u64_mod
      → AreWithin (start_of (set_of a b secs mins).sec_ring now) (now / 1 * 1) secs
      → AreWithin
          (start_of (set_of a b secs mins).min_ring (now - a - 60))
          ((now - a - 60) / 60 * 60)
          mins
      → AreMeeting now (set_of a b secs mins)
  meet now a b secs mins room small w v =
      let e : start_of (set_of a b secs mins).sec_ring now ≡ (now - a - 60) / 60 * 60 + 60 =
        omega (arith, sub64-le (now / 1 * 1) a (omega arith) (omega arith)) in
      record {
        start = start_of (set_of a b secs mins).sec_ring now;
        sec = All-map _ _ secs (λ rec h. (h.0, omega (arith, h.1))) w;
        min = All-map _ _ mins (λ rec h. omega (arith, h.1, e)) v;
      }

  was_sec :
      {D : Type 0} (load : D → ℕ → Option R) (d e : D) (before a b : ℕ)
      (secs mins : List (ReportRecord R))
      → (set_of a b secs mins ≡ new_set a b) ⊎ AreLoaded load d e before (set_of a b secs mins)
      → (secs ≡ []) ⊎ IsLoaded (load d) before (set_of a b secs mins).sec_ring
  unfolding new_set
  was_sec load d e before a b secs mins (inl new) = inl (ap (λ s. s.sec_ring.ring) new)
  was_sec load d e before a b secs mins (inr loaded') = inr loaded'.sec

  was_min :
      {D : Type 0} (load : D → ℕ → Option R) (d e : D) (before a b : ℕ)
      (secs mins : List (ReportRecord R))
      → (set_of a b secs mins ≡ new_set a b) ⊎ AreLoaded load d e before (set_of a b secs mins)
      → (mins ≡ []) ⊎ IsLoaded (load e) (before - a - 60) (set_of a b secs mins).min_ring
  unfolding new_set
  was_min load d e before a b secs mins (inl new) = inl (ap (λ s. s.min_ring.ring) new)
  was_min load d e before a b secs mins (inr loaded') = inr loaded'.min

  -- After an update of a set that was new or loaded at an earlier time, both rings are loaded: the
  -- one of seconds up to now, the one of minutes up to where the seconds start. Every record of the
  -- minutes is at least 60 seconds before the start of the seconds, and no record of the seconds is
  -- before it. Both directories are there, both rings are in range at both times, and the earlier
  -- time is at least the seconds' retention and a minute.
  pub update_set-AreLoaded :
      {D : Type 0} (load : D → ℕ → Option R) (report_d report_1min_d : D) (before now a b : ℕ)
      (secs mins : List (ReportRecord R))
      → AreInRange before (set_of a b secs mins)
      → AreInRange now (set_of a b secs mins)
      → before ≤ now
      → (set_of a b secs mins ≡ new_set a b)
        ⊎ AreLoaded load report_d report_1min_d before (set_of a b secs mins)
      → (t : ReportRingSet R) × (update_set load
            (some report_d)
            (some report_1min_d)
            now
            (set_of a b secs mins)
          ≡ ok t)
        × AreLoaded load report_d report_1min_d now t
        × AreMeeting now t
  unfolding update_set update refresh
  update_set-AreLoaded load report_d report_1min_d before now a b secs mins h k le e =
      let s = set_of a b secs mins in
      let sec =
        refresh-IsLoaded (load report_d) before now s.sec_ring h.sec k.sec le
          (was_sec load report_d report_1min_d before a b secs mins e) in
      let min =
        refresh-IsLoaded (load report_1min_d) (before - a - 60) (now - a - 60) s.min_ring h.min
          k.min (omega arith) (was_min load report_d report_1min_d before a b secs mins e) in
      let sec_ring = refresh (load report_d) now s.sec_ring in
      let min_ring = refresh (load report_1min_d) (now - a - 60) s.min_ring in
      (
        record { sec_ring = sec_ring; min_ring = min_ring },
        ap
            (λ m. ok (record {
              sec_ring = sec_ring;
              min_ring = refresh (load report_1min_d) m s.min_ring;
            }))
            (min_now now a k.room (omega (arith, k.sec.small))),
        record { sec = sec; min = min },
        meet now a b sec_ring.ring min_ring.ring k.room (omega (arith, k.sec.small))
            (loaded_within (load report_d) now sec_ring
              (record {
                multiple = k.sec.multiple;
                cadence = k.sec.cadence;
                tail_cadence = k.sec.tail_cadence;
                old = k.sec.old;
                small = k.sec.small;
              })
              sec)
            (loaded_within (load report_1min_d) (now - a - 60) min_ring
              (record {
                multiple = k.min.multiple;
                cadence = k.min.cadence;
                tail_cadence = k.min.tail_cadence;
                old = k.min.old;
                small = k.min.small;
              })
              min),
      )
