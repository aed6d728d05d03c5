-- ===== src/ReportData/Tests.antt =====
-- Data rings at concrete inputs.
use resctl_demo.Prelude.{ℕ, ◌+◌, ◌/◌, ◌≡◌, refl, inr, [], ◌∷◌, ◌++◌, none, some, arith, map}
use resctl_demo.Prelude.Outcome.{Outcome, ok, panicked}
use resctl_demo.ReportRing.{ReportRecord, ReportRing, back}
use resctl_demo.ReportData.{ReportData, Callbacks, new, set_up, fill, new_records, first_new}
use resctl_demo.ReportData.Slots.Records.{InOrder, CanAdd}
use resctl_demo.ReportData.Fill.{IsFilled, new_of, fill-IsFilled}
use resctl_demo.ReportData.New.{not_older, new_records-not_older}
use resctl_demo.ReportData.Set.{iter, AreSteps, iter-AreSteps}

-- The average of the samples.
abbrev average : Callbacks ℕ ℕ
average = record {
  sel = λ rep. rep;
  acc = λ sum rep. sum + rep;
  aggr = λ sum n. sum / n;
  default = 0;
}

abbrev sample : ℕ → ℕ → ReportRecord ℕ
sample at rep = record { at = at; rep = rep }

abbrev source : ReportRing ℕ
source = record {
  ring = sample 3 1 ∷ sample 20 4 ∷ sample 22 8 ∷ sample 31 9 ∷ [];
  cadence = 1;
  tail_cadence = 1;
  retention = 100;
}

abbrev or_new : Outcome (ReportData ℕ) → ReportData ℕ
or_new (ok d) = d
or_new panicked = new average

filled : (or_new (fill average 5 3 source (new average))).data_ring ≡ some 6 ∷ none ∷ []
unfolding fill new back
filled = refl

source-InOrder : InOrder average 5 1 source.ring
source-InOrder = (
  (omega arith, (omega arith, (omega arith, tt))),
  ((omega arith, (omega arith, tt)), ((omega arith, tt), (tt, tt))),
)

new_records-not_older_example :
    new_records average 15 source.ring ≡ not_older average 15 source.ring
new_records-not_older_example = new_records-not_older average 1 15 source.ring source-InOrder

abbrev fresh : ReportData ℕ
fresh = set_up average 5 3 source (new average)

fresh-CanAdd :
    CanAdd average 5 (new_of average 5 (sample 31 9) 3 source fresh ++ sample 33 2 ∷ []) fresh
unfolding set_up new new_records first_new
fresh-CanAdd = record {
  set_up = record {
    step_is = refl;
    product = refl;
    stride = omega arith;
    cadence = omega arith;
    step_fits = omega arith;
    stride_fits = omega arith;
  };
  at_slot = (0, refl);
  ready = inr (refl, refl, refl);
  not_before = (omega arith, (omega arith, (omega arith, (omega arith, tt))));
  spaced = (
    (omega arith, (omega arith, (omega arith, tt))),
    ((omega arith, (omega arith, tt)), ((omega arith, tt), (tt, tt))),
  );
  not_early = (omega arith, (omega arith, (omega arith, (omega arith, tt))));
  small = (omega arith, (omega arith, (omega arith, (omega arith, tt))));
}

newest : back source.ring ≡ some (sample 31 9)
unfolding back
newest = refl

fill-IsFilled_example :
    (e : ReportData ℕ) × (fill average 5 3 source (new average) ≡ ok e)
    × IsFilled average 5
        (new_of average 5 (sample 31 9) 3 source fresh)
        (sample 33 2 ∷ [])
        3
        31
        fresh
        e
fill-IsFilled_example =
    fill-IsFilled average 5 5 3 source (sample 31 9) (sample 33 2 ∷ []) (new average) newest
      fresh-CanAdd

abbrev two_slots : ReportData ℕ
two_slots = record (new average) { next_src_at = 35; step = 5; data_ring = some 6 ∷ none ∷ [] }

iter-AreSteps_example :
    AreSteps 35 5 (iter two_slots) × (map (λ e. e.1) (iter two_slots) ≡ some 6 ∷ none ∷ [])
iter-AreSteps_example = iter-AreSteps two_slots (omega arith) (omega arith)
