-- ===== src/ReportData/New.antt =====
-- Which records `fill` takes for new.
use resctl_demo.Prelude.{
  ℕ, zero, suc, ◌-◌, ◌≤◌, ◌<◌, ◌≡◌, refl, sym, ap, ◌∙◌, List, [], ◌∷◌, ◌++◌, reverse, Bool-cases,
  inl, inr, arith, leb, length, length-reverse, drop, if◌then◌else◌, All, All-append, All-map,
  leb→le, subst,
}
use mathlib.Core.List.{reverse-cons}
use resctl_demo.ReportRing.{ReportRecord}
use resctl_demo.ReportData.{Callbacks, nr_new, new_records}
use resctl_demo.ReportData.Slots.Records.{InOrder}

module _ {R T : Type 0} (cb : Callbacks R T) where
  abbrev pub not_older : ℕ → List (ReportRecord R) → List (ReportRecord R)
  not_older next [] = []
  not_older next (rec ∷ ring) =
      let rest = not_older next ring in if leb next rec.at then rec ∷ rest else rest

  All-reverse :
      (P : ReportRecord R → Type 0) (ring : List (ReportRecord R))
      → All P ring
      → All P (reverse ring)
  All-reverse P [] h = tt
  All-reverse P (rec ∷ ring) h =
      subst (All P) (sym (reverse-cons rec ring))
        (All-append P (reverse ring) (rec ∷ []) (All-reverse P ring h.1) (h.0, tt))

  nr_new-All :
      (next : ℕ) (ring : List (ReportRecord R))
      → All (λ rec. next ≤ rec.at) ring
      → nr_new cb next ring ≡ length ring
  unfolding nr_new
  nr_new-All next [] h = refl
  nr_new-All next (rec ∷ ring) h = ground (arith, nr_new-All next ring h.1)

  nr_new-old :
      (next : ℕ) (ring : List (ReportRecord R)) (old : ReportRecord R)
      → old.at < next
      → nr_new cb next (ring ++ old ∷ []) ≡ nr_new cb next ring
  unfolding nr_new
  nr_new-old next [] old h = ground arith
  nr_new-old next (rec ∷ ring) old h = ground (arith, nr_new-old next ring old h)

  nr_new-length : (next : ℕ) (ring : List (ReportRecord R)) → nr_new cb next ring ≤ length ring
  unfolding nr_new
  nr_new-length next [] = omega arith
  nr_new-length next (rec ∷ ring) = ground (arith, nr_new-length next ring)

  not_older-All :
      (next : ℕ) (ring : List (ReportRecord R))
      → All (λ rec. next ≤ rec.at) ring
      → not_older next ring ≡ ring
  not_older-All next [] h = refl
  not_older-All next (rec ∷ ring) h = ground (arith, not_older-All next ring h.1)

  drop_none : (k : ℕ) (ring : List (ReportRecord R)) → k ≡ 0 → drop k ring ≡ ring
  drop_none zero ring e = refl
  drop_none (suc k) ring e = absurd (omega arith)

  drop_one :
      (n : ℕ) (rec : ReportRecord R) (ring : List (ReportRecord R))
      → n ≤ length ring
      → drop (suc (length ring) - n) (rec ∷ ring) ≡ drop (length ring - n) ring
  drop_one n rec ring h =
      let e : suc (length ring) - n ≡ suc (length ring - n) = omega arith in
      ap (λ k. drop k (rec ∷ ring)) e

  -- In a ring whose records are in order, the new ones are those that are not older than the time
  -- to go on from, wherever they stand.
  pub new_records-not_older :
      (cadence next : ℕ) (ring : List (ReportRecord R))
      → InOrder cb 0 cadence ring
      → new_records cb next ring ≡ not_older next ring
  unfolding new_records
  new_records-not_older cadence next [] h = refl
  new_records-not_older cadence next (rec ∷ ring) h = elim (Bool-cases (leb next rec.at)) [
    | inl b ↦
        let le = leb→le next rec.at b in
        let all : All (λ r. next ≤ r.at) (rec ∷ ring) =
          (le, All-map _ _ ring (λ r k. omega (arith, k)) h.0) in
        drop_none _ (rec ∷ ring) (
          omega (
            arith,
            nr_new-All next (reverse (rec ∷ ring)) (All-reverse _ (rec ∷ ring) all),
            length-reverse (rec ∷ ring),
          ))
        ∙ sym (not_older-All next (rec ∷ ring) all)
    | inr b ↦
        let old : rec.at < next = ground arith in
        let e : nr_new cb next (reverse (rec ∷ ring)) ≡ nr_new cb next (reverse ring) =
          ap (nr_new cb next) (reverse-cons rec ring) ∙ nr_new-old next (reverse ring) rec old in
        ap (λ n. drop (suc (length ring) - n) (rec ∷ ring)) e
        ∙ drop_one (nr_new cb next (reverse ring)) rec ring
            (omega (arith, nr_new-length next (reverse ring), length-reverse ring))
        ∙ new_records-not_older cadence next ring h.1
        ∙ rw b refl
  ]
