-- ===== src/ReportRing/Tests.antt =====
-- Rings of reports at concrete inputs.
use resctl_demo.Prelude.{
  ℕ, ◌≡◌, ◌%◌, ◌≤◌, ◌<◌, refl, inl, List, [], ◌∷◌, Option, none, some, arith, ◌==◌, if◌then◌else◌,
  map,
}
use resctl_demo.Prelude.Outcome.{Outcome, ok, panicked}
use resctl_demo.ReportRing.{ReportRing, ReportRingSet, update, update_set, new_set}
use resctl_demo.ReportRing.Update.{InRange, IsLoaded, update-IsLoaded}
use resctl_demo.ReportRing.Pair.{set_of, AreLoaded, AreInRange, AreMeeting, update_set-AreLoaded}

-- Every third report is missing.
abbrev files : Unit {0} → ℕ → Option ℕ
files dir at = if at % 3 == 0 then none else some at

abbrev small_ring : ReportRing ℕ
small_ring = record { ring = []; cadence = 1; tail_cadence = 5; retention = 5 }

abbrev ats : Outcome (ReportRing ℕ) → List ℕ
ats (ok r) = map (λ rec. rec.at) r.ring
ats panicked = []

abbrev or_small : Outcome (ReportRing ℕ) → ReportRing ℕ
or_small (ok r) = r
or_small panicked = small_ring

updates :
    ats (update files (some tt) 19 (or_small (update files (some tt) 12 small_ring)))
    ≡ 10 ∷ 11 ∷ 13 ∷ 14 ∷ 16 ∷ 17 ∷ 19 ∷ []
unfolding update
updates = refl

small_ring-InRange : (now : ℕ) → 5 ≤ now → now < 100 → InRange now small_ring
small_ring-InRange now h k = record {
  multiple = 4;
  cadence = omega arith;
  tail_cadence = refl;
  old = omega arith;
  small = omega arith;
}

update-IsLoaded_example :
    (s : ReportRing ℕ) × (update files (some tt) 19 small_ring ≡ ok s)
    × (s ≡ record small_ring { ring = s.ring })
    × IsLoaded (files tt) 19 s
update-IsLoaded_example =
    update-IsLoaded files tt 12 19 small_ring (small_ring-InRange 12 (omega arith) (omega arith))
      (small_ring-InRange 19 (omega arith) (omega arith)) (omega arith) (inl refl)

in_range : (now : ℕ) → 3600 ≤ now → now < 4000 → AreInRange now (set_of {R = ℕ} 120 600 [] [])
in_range now h k = record {
  room = omega arith;
  sec = record {
    multiple = 59;
    cadence = omega arith;
    tail_cadence = refl;
    old = omega arith;
    small = omega arith;
  };
  min = record {
    multiple = 0;
    cadence = omega arith;
    tail_cadence = refl;
    old = omega arith;
    small = omega arith;
  };
}

update_set-AreLoaded_example :
    (t : ReportRingSet ℕ) × (update_set files (some tt) (some tt) 3700 (set_of 120 600 [] [])
      ≡ ok t)
    × AreLoaded files tt tt 3700 t
    × AreMeeting 3700 t
unfolding new_set
update_set-AreLoaded_example =
    update_set-AreLoaded files tt tt 3600 3700 120 600 [] []
      (in_range 3600 (omega arith) (omega arith)) (in_range 3700 (omega arith) (omega arith))
      (omega arith) (inl refl)
