-- ===== src/ReportData.antt =====
-- The data behind the graphs of resctl-demo: resctl-demo/src/report_ring.rs, `ReportDataTip`,
-- `ReportData`, `ReportDataSet` and their iterators. The three callbacks and the default of the
-- data are parameters.
pub mod Slots
pub mod Fill
pub mod New
pub mod Set
mod Tests
use resctl_demo.Prelude.{
  ℕ, zero, suc, ◌+◌, ◌-◌, ◌*◌, ◌/◌, ◌%◌, List, [], ◌∷◌, ◌++◌, reverse, Option, none, some, Bool,
  not, ◌==◌, ◌||◌, ltb, length, drop, max, if◌then◌else◌,
}
use resctl_demo.Prelude.Outcome.{Outcome, ok, panicked, ◌>>=◌}
use resctl_demo.Prelude.Words.{add64, sub64, mul64}
use resctl_demo.ReportRing.{ReportRecord, ReportRing, ReportRingSet, back, update_set}

pub record ReportDataTip {ℓ} (T : Type ℓ) : Type ℓ where
  pub at : ℕ
  pub value : T
  pub nr_samples : ℕ

pub record ReportData {ℓ} (T : Type ℓ) : Type ℓ where
  pub next_src_at : ℕ
  pub tip : ReportDataTip T
  pub data_ring : List (Option T)
  pub stride : ℕ
  pub nr_slots : ℕ
  pub src_cadence : ℕ
  pub step : ℕ

-- `sel`, `acc` and `aggr`, and the `Default` of the data.
pub record Callbacks {ℓ κ} (R : Type ℓ) (T : Type κ) : Type (ℓ ⊔ κ) where
  pub sel : R → T
  pub acc : T → T → T
  pub aggr : T → ℕ → T
  pub default : T

-- `at / step * step`
abbrev pub align_to : ℕ → ℕ → ℕ
align_to step at = at / step * step

module _ {ℓ κ} {R : Type ℓ} {T : Type κ} (cb : Callbacks R T) where
  pub default_tip : ReportDataTip T
  default_tip = record { at = 0; value = cb.default; nr_samples = 0 }

  pub new : ReportData T
  unfolding default_tip
  new = record {
    next_src_at = 0;
    tip = default_tip;
    data_ring = [];
    stride = 0;
    nr_slots = 0;
    src_cadence = 0;
    step = 0;
  }

  -- What `consume` gives, and what it leaves.
  pub consumed : ReportDataTip T → Option (T × ℕ)
  consumed tip = if ltb 0 tip.nr_samples then some (tip.value, tip.nr_samples) else none

  pub next_tip : ℕ → ReportDataTip T → ReportDataTip T
  next_tip step tip = record { at = add64 tip.at step; value = cb.default; nr_samples = 0 }

  pub aggregated : Option (T × ℕ) → Option T
  aggregated none = none
  aggregated (some (value, nr_samples)) = some (cb.aggr value nr_samples)

  -- To consume the tip and push what comes of it.
  pub push_tip : ReportData T → ReportData T
  unfolding consumed next_tip aggregated
  push_tip d = record d {
    tip = next_tip d.step d.tip;
    data_ring = d.data_ring ++ aggregated (consumed d.tip) ∷ [];
  }

  -- The loop that pushes until the tip has come to a time. `fuel` bounds its rounds.
  pub catch_up : ℕ → ℕ → ReportData T → ReportData T
  unfolding push_tip
  catch_up zero at d = d
  catch_up (suc fuel) at d =
      let rest = catch_up fuel at (push_tip d) in if ltb d.tip.at at then rest else d

  pub start_tip : ℕ → ReportData T → ReportData T
  start_tip at d = if d.tip.at == 0 then record d { tip = record d.tip { at = at } } else d

  pub accumulate : R → ReportData T → ReportData T
  accumulate rep d = record d {
    tip = record d.tip {
      value = cb.acc d.tip.value (cb.sel rep);
      nr_samples = suc d.tip.nr_samples;
    };
  }

  -- Whether a record is the last one of its slot.
  pub is_last : ℕ → ReportData T → Bool
  is_last at d = (at % d.step) == mul64 (sub64 d.stride 1) d.src_cadence

  pub close_slot : ℕ → ReportData T → ReportData T
  unfolding is_last push_tip
  close_slot at d = if is_last at d then push_tip d else d

  pub add_record : ReportRecord R → ReportData T → ReportData T
  unfolding start_tip catch_up accumulate close_slot
  add_record rec d =
      let at = align_to d.step rec.at in
      close_slot rec.at (accumulate rec.rep (catch_up at at (start_tip at d)))

  pub add_records : List (ReportRecord R) → ReportData T → ReportData T
  unfolding add_record
  add_records [] d = d
  add_records (rec ∷ recs) d = add_records recs (add_record rec d)

  -- How many records, from the back, are not older than a time.
  pub nr_new : ℕ → List (ReportRecord R) → ℕ
  nr_new next_src_at [] = 0
  nr_new next_src_at (rec ∷ older) =
      let rest = nr_new next_src_at older in if ltb rec.at next_src_at then 0 else suc rest

  pub new_records : ℕ → List (ReportRecord R) → List (ReportRecord R)
  unfolding nr_new
  new_records next_src_at ring = drop (length ring - nr_new next_src_at (reverse ring)) ring

  pub clear : ReportData T → ReportData T
  unfolding default_tip
  clear d = record d { next_src_at = 0; tip = default_tip; data_ring = [] }

  pub set_up : ℕ → ℕ → ReportRing R → ReportData T → ReportData T
  unfolding clear
  set_up stride nr_slots src d =
      if not (stride == d.stride)
        || (not (nr_slots == d.nr_slots) || not (d.src_cadence == src.cadence))
      then record (clear d) {
        stride = stride;
        nr_slots = nr_slots;
        src_cadence = src.cadence;
        step = mul64 stride src.cadence;
      }
      else d

  pub truncate : ℕ → List (Option T) → List (Option T)
  truncate nr_slots data_ring = drop (length data_ring - nr_slots) data_ring

  pub first_new : ℕ → ℕ → ReportData T → ℕ
  first_new newest nr_slots d =
      max d.next_src_at (sub64 (align_to d.step newest) (mul64 nr_slots d.step))

  -- `fill` once the newest record is known
  pub fill_to : ℕ → ℕ → List (ReportRecord R) → ReportData T → ReportData T
  unfolding new_records add_records truncate first_new
  fill_to newest nr_slots ring d =
      let added =
        add_records (new_records (first_new newest nr_slots d) ring)
          (record d { next_src_at = add64 newest d.src_cadence }) in
      record added { data_ring = truncate nr_slots added.data_ring }

  pub fill_with : ℕ → ReportRing R → ReportData T → Outcome (ReportData T)
  unfolding fill_to
  fill_with nr_slots src d = elim (back src.ring) [
    | none ↦ ok d
    | some rec ↦ if d.step == 0 then panicked else ok (fill_to rec.at nr_slots src.ring d)
  ]

  pub fill : ℕ → ℕ → ReportRing R → ReportData T → Outcome (ReportData T)
  unfolding set_up fill_with
  fill stride nr_slots src d = fill_with nr_slots src (set_up stride nr_slots src d)
