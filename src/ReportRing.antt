-- ===== src/ReportRing.antt =====
-- The rings of reports that the graphs of resctl-demo are drawn from:
-- resctl-demo/src/report_ring.rs, `ReportRing` and `ReportRingSet`. The files are a function
-- `load` from a directory and a time to a report, `none` where `Report::load` fails.
pub mod Window
pub mod Update
pub mod Pair
mod Tests
use resctl_demo.Prelude.{
  ℕ, zero, suc, ◌+◌, ◌-◌, ◌*◌, ◌/◌, List, [], ◌∷◌, ◌++◌, Option, none, some, ◌==◌, ◌||◌, leb,
  if◌then◌else◌,
}
use resctl_demo.Prelude.Outcome.{Outcome, ok, panicked, ◌>>=◌}
use resctl_demo.Prelude.Words.{add64, sub64}

pub record ReportRecord {ℓ} (R : Type ℓ) : Type ℓ where
  pub at : ℕ
  pub rep : R

-- `dir_cb` is an argument of `update`: the directory, if there is one.
pub record ReportRing {ℓ} (R : Type ℓ) : Type ℓ where
  pub ring : List (ReportRecord R)
  pub cadence : ℕ
  pub tail_cadence : ℕ
  pub retention : ℕ

pub new {ℓ} : {R : Type ℓ} → ℕ → ℕ → ℕ → ReportRing R
new cadence tail_cadence retention = record {
  ring = [];
  cadence = cadence;
  tail_cadence = tail_cadence;
  retention = retention;
}

-- How often the loop over `from..=now` runs.
pub nr_steps : ℕ → ℕ → ℕ → ℕ
nr_steps cadence from now = if leb from now then suc ((now - from) / cadence) else 0

module _ {ℓ} {R : Type ℓ} where
  -- The loop that pops the front until a record is not too old.
  pub evict : ℕ → List (ReportRecord R) → List (ReportRecord R)
  evict start [] = []
  evict start (rec ∷ ring) =
      let rest = evict start ring in if leb start rec.at then rec ∷ ring else rest

  unfoldable pub back : List (ReportRecord R) → Option (ReportRecord R)
  back [] = none
  back (rec ∷ []) = some rec
  back (rec ∷ next ∷ ring) = back (next ∷ ring)

  pub load_from : ℕ → ℕ → List (ReportRecord R) → ℕ
  unfolding back
  load_from cadence start ring = elim (back ring) [ some rec ↦ add64 rec.at cadence | none ↦ start ]

  -- What a time adds to the ring.
  pub loaded : ℕ → Option R → List (ReportRecord R) → List (ReportRecord R)
  loaded at none ring = ring
  loaded at (some rep) ring = record { at = at; rep = rep } ∷ ring

  unfoldable pub scan : (ℕ → Option R) → ℕ → ℕ → ℕ → List (ReportRecord R)
  unfolding loaded
  scan load cadence at zero = []
  scan load cadence at (suc n) = loaded at (load at) (scan load cadence (at + cadence) n)

  pub refresh : (ℕ → Option R) → ℕ → ReportRing R → ReportRing R
  unfolding evict load_from nr_steps scan
  refresh load time r =
      let now = time / r.cadence * r.cadence in
      let start = sub64 now r.retention / r.tail_cadence * r.tail_cadence in
      let ring = evict start r.ring in
      let from = load_from r.cadence start ring in
      record r { ring = ring ++ scan load r.cadence from (nr_steps r.cadence from now) }

  -- A cadence of zero divides by zero.
  pub update {κ} :
      {D : Type κ} → (D → ℕ → Option R) → Option D → ℕ → ReportRing R → Outcome (ReportRing R)
  unfolding refresh
  update load none now r = ok r
  update load (some dir) now r =
      if (r.cadence == 0) || (r.tail_cadence == 0) then panicked else ok (refresh (load dir) now r)

pub record ReportRingSet {ℓ} (R : Type ℓ) : Type ℓ where
  pub sec_ring : ReportRing R
  pub min_ring : ReportRing R

-- The two retentions come from the agent's arguments.
pub new_set {ℓ} : {R : Type ℓ} → ℕ → ℕ → ReportRingSet R
unfolding new
new_set rep_retention rep_1min_retention = record {
  sec_ring = new 1 60 rep_retention;
  min_ring = new 60 60 rep_1min_retention;
}

unfoldable pub update_set {ℓ κ} :
    {R : Type ℓ} {D : Type κ}
    → (D → ℕ → Option R)
    → Option D
    → Option D
    → ℕ
    → ReportRingSet R
    → Outcome (ReportRingSet R)
unfolding update
update_set load report_d report_1min_d now s = update load report_d now s.sec_ring >>= λ sec_ring.
    update load report_1min_d (sub64 (sub64 now sec_ring.retention) 60) s.min_ring >>= λ min_ring.
    ok (record { sec_ring = sec_ring; min_ring = min_ring })
